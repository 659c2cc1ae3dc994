-- ===== src/Regex/Exact.antt =====
-- The backtracking matcher finds a match exactly if there is one.
use concurrency_tcp_server.Base.{
  ℕ, zero, suc, ◌<◌, ◌≤◌, ◌≡◌, ◌≢◌, refl, sym, Bool, true, false, Option, none, some, [], ◌∷◌,
  arith, subst, Text, length, inl, inr, is_some, impossible,
}
use concurrency_tcp_server.Regex.{
  Regex, eps, bol, eol, word_boundary, char_in, seq, alt, star, lazy_star, group, ahead, not_ahead,
  Cursor, Matcher, advance, capture, guarded, consume, progressed, at_start, at_end, at_boundary,
  repeat, repeat_lazy, run,
}
use concurrency_tcp_server.Regex.Laws.{first_of_two-eq, guarded-eq, when-eq}
use concurrency_tcp_server.Regex.Language.{Iterated, stay, again, Accepts}

abbrev Goal : Type 0
Goal = Cursor → Option Cursor

-- Something was found.
abbrev Finds : Option Cursor → Type 0
Finds o = is_some o ≡ true

-- A matcher reaches its continuation only from places that the relation allows, and succeeds if the
-- continuation does at one of them.
pub record IsExact (m : Matcher) (R : Cursor → Cursor → Type 0) : Type 0 where
  pub sound :
      (p : Cursor) (k : Goal) (z : Cursor) → m p k ≡ some z → (q : Cursor) × R p q × (k q ≡ some z)
  pub complete : (p q : Cursor) (k : Goal) → R p q → Finds (k q) → Finds (m p k)

Finds-first : (a b : Option Cursor) → Finds a → Finds (elim a [ some r ↦ some r | none ↦ b ])
Finds-first none b h = cc
Finds-first (some x) b h = refl

Finds-second : (a b : Option Cursor) → Finds b → Finds (elim a [ some r ↦ some r | none ↦ b ])
Finds-second none b h = h
Finds-second (some x) b h = refl

guarded-test : (b : Bool) (r : Option Cursor) {z : Cursor} → guarded b r ≡ some z → b ≡ true
guarded-test true r e = refl
guarded-test false r e = impossible e

when-test :
    (b : Bool) (r : Option Cursor) {z : Cursor}
    → (elim b [ true ↦ r | false ↦ none ]) ≡ some z
    → b ≡ true
when-test true r e = refl
when-test false r e = impossible e

progressed-lt : (p q : Cursor) → progressed p q ≡ true → length q.after < length p.after
progressed-lt p q h = ground (arith, h)

lt-progressed : (p q : Cursor) → length q.after < length p.after → progressed p q ≡ true
lt-progressed p q h = ground (arith, h)

module _ (m : Matcher) (R : Cursor → Cursor → Type 0) (h : IsExact m R) where
  repeat_sound :
      (n : ℕ) (p : Cursor) (k : Goal) (z : Cursor)
      → repeat m n p k ≡ some z
      → (q : Cursor) × Iterated R p q × (k q ≡ some z)
  unfolding repeat
  repeat_sound zero p k z e = (p, stay, e)
  repeat_sound (suc n) p k z e = elim (first_of_two-eq (m p _) (k p) e) [
    | inr on ↦ (p, stay, on)
    | inl more ↦
        let (q, hq, eq) = h.sound p _ z more in
        let (r, hr, er) = repeat_sound n q k z (when-eq (progressed p q) (repeat m n q k) eq) in
        (r, again q hq (progressed-lt p q (when-test (progressed p q) (repeat m n q k) eq)) hr, er)
  ]

  repeat_complete :
      (n : ℕ) {p q : Cursor} (k : Goal)
      → length p.after ≤ n
      → Iterated R p q
      → Finds (k q)
      → Finds (repeat m n p k)
  unfolding repeat
  repeat_complete zero k l stay f = f
  repeat_complete zero k l (again q s d i) f = absurd (omega (arith, l, d))
  repeat_complete (suc n) k l stay f = Finds-second _ _ f
  repeat_complete (suc n) {p} k l (again q s d i) f = Finds-first _ _ (
      h.complete p q _ s (rw (lt-progressed p q d) (repeat_complete n k (omega (arith, l, d)) i f)))

  repeat_lazy_sound :
      (n : ℕ) (p : Cursor) (k : Goal) (z : Cursor)
      → repeat_lazy m n p k ≡ some z
      → (q : Cursor) × Iterated R p q × (k q ≡ some z)
  unfolding repeat_lazy
  repeat_lazy_sound zero p k z e = (p, stay, e)
  repeat_lazy_sound (suc n) p k z e = elim (first_of_two-eq (k p) (m p _) e) [
    | inl on ↦ (p, stay, on)
    | inr more ↦
        let (q, hq, eq) = h.sound p _ z more in
        let (r, hr, er) =
          repeat_lazy_sound n q k z (when-eq (progressed p q) (repeat_lazy m n q k) eq) in
        (
          r,
          again q hq (progressed-lt p q (when-test (progressed p q) (repeat_lazy m n q k) eq)) hr,
          er,
        )
  ]

  repeat_lazy_complete :
      (n : ℕ) {p q : Cursor} (k : Goal)
      → length p.after ≤ n
      → Iterated R p q
      → Finds (k q)
      → Finds (repeat_lazy m n p k)
  unfolding repeat_lazy
  repeat_lazy_complete zero k l stay f = f
  repeat_lazy_complete zero k l (again q s d i) f = absurd (omega (arith, l, d))
  repeat_lazy_complete (suc n) k l stay f = Finds-first _ _ f
  repeat_lazy_complete (suc n) {p} k l (again q s d i) f = Finds-second _ _ (
      h.complete p q _ s
        (rw (lt-progressed p q d) (repeat_lazy_complete n k (omega (arith, l, d)) i f)))

-- A test before the continuation.
guarded-IsExact :
    (b : Cursor → Bool) → IsExact (λ p k. guarded (b p) (k p)) (λ p q. (b p ≡ true) × (p ≡ q))
guarded-IsExact b = record {
  sound = λ p k z e. (p, (guarded-test (b p) (k p) e, refl), guarded-eq (b p) (k p) e);
  complete = λ p q k r f. rw (r.0, r.1) f;
}

consume_sound :
    (f : ℕ → Bool) (p : Cursor) (s : Text) (k : Goal) (z : Cursor)
    → consume f s p k ≡ some z
    → (c : ℕ) × (cs : Text) × (s ≡ c ∷ cs) × (f c ≡ true) × (k (advance p c cs) ≡ some z)
consume_sound f p [] k z e = impossible e
consume_sound f p (c ∷ cs) k z e = (
  c,
  cs,
  refl,
  guarded-test (f c) (k (advance p c cs)) e,
  guarded-eq (f c) (k (advance p c cs)) e,
)

ahead-test :
    (t r : Option Cursor) {z : Cursor}
    → (elim t [ some _ ↦ r | none ↦ none ]) ≡ some z
    → (x : Cursor) × (t ≡ some x) × (r ≡ some z)
ahead-test none r e = impossible e
ahead-test (some x) r e = (x, refl, e)

not_ahead-test :
    (t r : Option Cursor) {z : Cursor}
    → (elim t [ some _ ↦ none | none ↦ r ]) ≡ some z
    → (t ≡ none) × (r ≡ some z)
not_ahead-test none r e = (refl, e)
not_ahead-test (some x) r e = impossible e

ahead-Finds :
    (t r : Option Cursor) → Finds t → Finds r → Finds (elim t [ some _ ↦ r | none ↦ none ])
ahead-Finds none r h f = cc
ahead-Finds (some x) r h f = f

not_ahead-Finds :
    (t r : Option Cursor)
    → ((x : Cursor) → t ≢ some x)
    → Finds r
    → Finds (elim t [ some _ ↦ none | none ↦ r ])
not_ahead-Finds none r h f = f
not_ahead-Finds (some x) r h f = absurd (h x refl)

nothing_found : {o : Option Cursor} → o ≡ none → Finds o → ⊥
nothing_found e f = cc

alt-IsExact :
    (a b : Regex)
    → IsExact (run a) (Accepts a)
    → IsExact (run b) (Accepts b)
    → IsExact (run (alt a b)) (Accepts (alt a b))
unfolding run Accepts
alt-IsExact a b x y = record {
  sound = λ p k z e. elim (first_of_two-eq (run a p k) (run b p k) e) [
    | inl l ↦ let (q, h, g) = x.sound p k z l in (q, inl h, g)
    | inr r ↦ let (q, h, g) = y.sound p k z r in (q, inr h, g)
  ];
  complete = λ p q k h f. elim h [
    | inl l ↦ Finds-first (run a p k) (run b p k) (x.complete p q k l f)
    | inr r ↦ Finds-second (run a p k) (run b p k) (y.complete p q k r f)
  ];
}

pub run-IsExact : (r : Regex) → IsExact (run r) (Accepts r)
unfolding run Accepts
run-IsExact eps = record { sound = λ p k z e. (p, refl, e); complete = λ p q k e f. rw e f }
run-IsExact bol = guarded-IsExact (λ p. at_start p.before)
run-IsExact eol = guarded-IsExact (λ p. at_end p.after)
run-IsExact word_boundary = guarded-IsExact at_boundary
run-IsExact (char_in f) = record {
  sound = λ p k z e.
      let (c, cs, a, t, g) = consume_sound f p p.after k z e in
      (advance p c cs, (c, cs, a, t, refl), g);
  complete = λ p q k h g. let (c, cs, a, t, e) = h in rw (a, t, e) g;
}
run-IsExact (seq a b) = record {
  sound = λ p k z e.
      let (q, h, g) = (run-IsExact a).sound p (λ q. run b q k) z e in
      let (r, h', g') = (run-IsExact b).sound q k z g in (r, (q, h, h'), g');
  complete = λ p q k h f.
      let (r, l, m) = h in
      (run-IsExact a).complete p r (λ q. run b q k) l ((run-IsExact b).complete r q k m f);
}
run-IsExact (alt a b) = alt-IsExact a b (run-IsExact a) (run-IsExact b)
run-IsExact (star a) = record {
  sound = λ p k z e. repeat_sound (run a) (Accepts a) (run-IsExact a) (length p.after) p k z e;
  complete = λ p q k h f.
      repeat_complete (run a) (Accepts a) (run-IsExact a) (length p.after) k (omega arith) h f;
}
run-IsExact (lazy_star a) = record {
  sound = λ p k z e. repeat_lazy_sound (run a) (Accepts a) (run-IsExact a) (length p.after) p k z e;
  complete = λ p q k h f.
      repeat_lazy_complete (run a) (Accepts a) (run-IsExact a) (length p.after) k (omega arith) h f;
}
run-IsExact (group n a) = record {
  sound = λ p k z e.
      let (q, h, g) = (run-IsExact a).sound p (λ q. k (capture n p q)) z e in
      (capture n p q, (q, h, refl), g);
  complete = λ p q k h f.
      let (r, l, e) = h in
      (run-IsExact a).complete p r (λ q. k (capture n p q)) l
        (subst (λ t. is_some (k t) ≡ true) (sym e) f);
}
run-IsExact (ahead a) = record {
  sound = λ p k z e.
      let (x, t, g) = ahead-test (run a p some) (k p) e in
      let (q, h, _) = (run-IsExact a).sound p some x t in (p, ((q, h), refl), g);
  complete = λ p q k h f.
      let (l, e) = h in
      ahead-Finds (run a p some) (k p) ((run-IsExact a).complete p l.0 some l.1 refl)
        (subst (λ t. is_some (k t) ≡ true) (sym e) f);
}
run-IsExact (not_ahead a) = record {
  sound = λ p k z e.
      let (t, g) = not_ahead-test (run a p some) (k p) e in
      (p, (λ q h. nothing_found t ((run-IsExact a).complete p q some h refl), refl), g);
  complete = λ p q k h f.
      let (l, e) = h in
      not_ahead-Finds (run a p some) (k p)
        (λ x t. let (r, s, _) = (run-IsExact a).sound p some x t in l r s)
        (subst (λ t. is_some (k t) ≡ true) (sym e) f);
}
