-- ===== src/Regex/Laws.antt =====
-- What every match keeps: the matcher only moves along the subject.
use concurrency_tcp_server.Base.{
  ℕ, zero, suc, ◌≡◌, ◌⊎◌, refl, ◌∙◌, Bool, true, false, Option, none, some, [], ◌∷◌, ◌++◌, reverse,
  ◌&&◌, arith, Text, length, append_assoc, inl, inr,
}
use mathlib.Core.List.{reverse-cons}
use concurrency_tcp_server.Regex.{
  Regex, eps, bol, eol, word_boundary, char_in, seq, alt, star, lazy_star, group, ahead, not_ahead,
  Cursor, Matcher, advance, capture, guarded, consume, progressed, at_start, at_end, at_boundary,
  repeat, repeat_lazy, run,
}

-- A relation of cursors that a step over one character gives, and that the end of a group keeps if
-- the number of the group passes a test.
pub record IsMove (ok : ℕ → Bool) (R : Cursor → Cursor → Type 0) : Type 0 where
  pub stay : (p : Cursor) → R p p
  pub both : (p q r : Cursor) → R p q → R q r → R p r
  pub step : (p : Cursor) (c : ℕ) (cs : Text) → p.after ≡ c ∷ cs → R p (advance p c cs)
  pub close : (n : ℕ) (p q : Cursor) → ok n ≡ true → R p q → R p (capture n p q)

-- The numbers of all groups pass a test.
abbrev pub groups_ok : (ℕ → Bool) → Regex → Bool
groups_ok ok (seq a b) = groups_ok ok a && groups_ok ok b
groups_ok ok (alt a b) = groups_ok ok a && groups_ok ok b
groups_ok ok (star a) = groups_ok ok a
groups_ok ok (lazy_star a) = groups_ok ok a
groups_ok ok (group n a) = ok n && groups_ok ok a
groups_ok ok _ = true

-- The run goes on from some place that is related to p.
abbrev pub GoesOn : (Cursor → Cursor → Type 0) → Cursor → (Cursor → Option Cursor) → Cursor → Type 0
GoesOn R p k z = (q : Cursor) × R p q × (k q ≡ some z)

abbrev pub Moves : (Cursor → Cursor → Type 0) → Matcher → Type 0
Moves R m = (p : Cursor) (k : Cursor → Option Cursor) (z : Cursor) → m p k ≡ some z → GoesOn R p k z

pub guarded-eq : (b : Bool) (r : Option Cursor) {z : Cursor} → guarded b r ≡ some z → r ≡ some z
guarded-eq true r e = e
guarded-eq false r e = cc

pub consume-eq :
    (f : ℕ → Bool) (p : Cursor) (s : Text) (k : Cursor → Option Cursor) (z : Cursor)
    → consume f s p k ≡ some z
    → (c : ℕ) × (cs : Text) × (s ≡ c ∷ cs) × (k (advance p c cs) ≡ some z)
consume-eq f p [] k z e = cc
consume-eq f p (c ∷ cs) k z e = (c, cs, refl, guarded-eq (f c) (k (advance p c cs)) e)

-- A try, and what follows it when it fails.
abbrev pub first_of_two : Option Cursor → Option Cursor → Option Cursor
first_of_two a b = elim a [ some r ↦ some r | none ↦ b ]

pub first_of_two-eq :
    (a b : Option Cursor) {z : Cursor} → first_of_two a b ≡ some z → (a ≡ some z) ⊎ (b ≡ some z)
first_of_two-eq none b e = inr e
first_of_two-eq (some r) b e = inl e

abbrev pub when : Bool → Option Cursor → Option Cursor
when b r = elim b [ true ↦ r | false ↦ none ]

pub when-eq : (b : Bool) (r : Option Cursor) {z : Cursor} → when b r ≡ some z → r ≡ some z
when-eq true r e = e
when-eq false r e = cc

ahead-eq :
    (t : Option Cursor) (r : Option Cursor) {z : Cursor}
    → (elim t [ some _ ↦ r | none ↦ none ]) ≡ some z
    → r ≡ some z
ahead-eq none r e = cc
ahead-eq (some x) r e = e

not_ahead-eq :
    (t : Option Cursor) (r : Option Cursor) {z : Cursor}
    → (elim t [ some _ ↦ none | none ↦ r ]) ≡ some z
    → r ≡ some z
not_ahead-eq none r e = e
not_ahead-eq (some x) r e = cc

module _ {ok : ℕ → Bool} {R : Cursor → Cursor → Type 0} (move : IsMove ok R) where
  repeat-Moves : (m : Matcher) → Moves R m → (n : ℕ) → Moves R (repeat m n)
  unfolding repeat
  repeat-Moves m hm zero p k z e = (p, move.stay p, e)
  repeat-Moves m hm (suc n) p k z e = elim (first_of_two-eq (m p _) (k p) e) [
    | inr on ↦ (p, move.stay p, on)
    | inl more ↦
        let (q, hq, eq) = hm p _ z more in
        let (r, hr, er) =
          repeat-Moves m hm n q k z (when-eq (progressed p q) (repeat m n q k) eq) in
        (r, move.both p q r hq hr, er)
  ]

  repeat_lazy-Moves : (m : Matcher) → Moves R m → (n : ℕ) → Moves R (repeat_lazy m n)
  unfolding repeat_lazy
  repeat_lazy-Moves m hm zero p k z e = (p, move.stay p, e)
  repeat_lazy-Moves m hm (suc n) p k z e = elim (first_of_two-eq (k p) (m p _) e) [
    | inl on ↦ (p, move.stay p, on)
    | inr more ↦
        let (q, hq, eq) = hm p _ z more in
        let (r, hr, er) =
          repeat_lazy-Moves m hm n q k z (when-eq (progressed p q) (repeat_lazy m n q k) eq) in
        (r, move.both p q r hq hr, er)
  ]

  -- A successful run reached its continuation from a place that is related to its start.
  pub run-Moves : (r : Regex) → groups_ok ok r ≡ true → Moves R (run r)
  unfolding run
  run-Moves eps g p k z e = (p, move.stay p, e)
  run-Moves bol g p k z e = (p, move.stay p, guarded-eq (at_start p.before) (k p) e)
  run-Moves eol g p k z e = (p, move.stay p, guarded-eq (at_end p.after) (k p) e)
  run-Moves word_boundary g p k z e = (p, move.stay p, guarded-eq (at_boundary p) (k p) e)
  run-Moves (char_in f) g p k z e =
      let (c, cs, a, q) = consume-eq f p p.after k z e in (advance p c cs, move.step p c cs a, q)
  run-Moves (seq a b) g p k z e =
      let (q, hq, eq) = run-Moves a (ground (arith, g)) p (λ q. run b q k) z e in
      let (r, hr, er) = run-Moves b (ground (arith, g)) q k z eq in (r, move.both p q r hq hr, er)
  run-Moves (alt a b) g p k z e = elim (first_of_two-eq (run a p k) (run b p k) e) [
    | inl l ↦ run-Moves a (ground (arith, g)) p k z l
    | inr r ↦ run-Moves b (ground (arith, g)) p k z r
  ]
  run-Moves (star a) g p k z e = repeat-Moves (run a) (run-Moves a g) (length p.after) p k z e
  run-Moves (lazy_star a) g p k z e =
      repeat_lazy-Moves (run a) (run-Moves a g) (length p.after) p k z e
  run-Moves (group n a) g p k z e =
      let (q, hq, eq) = run-Moves a (ground (arith, g)) p (λ q. k (capture n p q)) z e in
      (capture n p q, move.close n p q (ground (arith, g)) hq, eq)
  run-Moves (ahead a) g p k z e = (p, move.stay p, ahead-eq (run a p some) (k p) e)
  run-Moves (not_ahead a) g p k z e = (p, move.stay p, not_ahead-eq (run a p some) (k p) e)

every_group : (r : Regex) → groups_ok (λ _. true) r ≡ true
every_group (seq a b) = ground (arith, every_group a, every_group b)
every_group (alt a b) = ground (arith, every_group a, every_group b)
every_group (star a) = every_group a
every_group (lazy_star a) = every_group a
every_group (group n a) = every_group a
every_group _ = refl

-- The subject of the match, read back from a place in it.
abbrev pub subject : Cursor → Text
subject p = reverse p.before ++ p.after

subject-advance :
    (p : Cursor) (c : ℕ) (cs : Text) → p.after ≡ c ∷ cs → subject (advance p c cs) ≡ subject p
subject-advance p c cs e = rw (e, reverse-cons, append_assoc)

subject-IsMove : IsMove (λ _. true) (λ p q. subject q ≡ subject p)
subject-IsMove = record {
  stay = λ p. refl;
  both = λ p q r e f. f ∙ e;
  step = subject-advance;
  close = λ n p q g e. e;
}

-- A match splits the subject at the place where it ends: nothing is lost or changed.
pub subject-run :
    (r : Regex) (p : Cursor) {q : Cursor} → run r p some ≡ some q → subject q ≡ subject p
subject-run r p {q} e =
    let (x, hx, ex) = run-Moves subject-IsMove r (every_group r) p some q e in cc
