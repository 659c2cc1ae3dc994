-- ===== src/Lines/RawIndent.antt =====
-- The whitespace before the end of a raw string (build_support/cpplint.py, CleanseRawStrings) is found.
use concurrency_tcp_server.Base.{
  ℕ, zero, suc, ◌≤◌, ◌≡◌, refl, sym, ap, ◌∙◌, true, false, not, Option, none, some, [], ◌∷◌, ◌++◌,
  Text, length, arith, ◌==◌, all, any, is_space, starts_with, find, length-append, inl, inr,
  impossible, Bool-cases, Option-cases,
}
use concurrency_tcp_server.Regex.{
  Cursor, Found, Matcher, advance, capture, consume, progressed, cursor, match_re, repeat, run,
}
use concurrency_tcp_server.Regex.Forms.{space, non_space}
use concurrency_tcp_server.Lines.RawStrings.{leading_space_re}

module _ (m : Matcher) (p : Cursor) (k : Cursor → Option Cursor) (n : ℕ) where
  abbrev again : Cursor → Option Cursor
  again q = elim (progressed p q) [ true ↦ repeat m n q k | false ↦ none ]

  repeat-back : ((k' : Cursor → Option Cursor) → m p k' ≡ none) → repeat m (suc n) p k ≡ k p
  unfolding repeat
  repeat-back h = rw (h again, repeat)

  repeat-on :
      (q : Cursor)
      → ((k' : Cursor → Option Cursor) → m p k' ≡ k' q)
      → progressed p q ≡ true
      → {z : Cursor} → repeat m n q k ≡ some z
      → repeat m (suc n) p k ≡ some z
  unfolding repeat
  repeat-on q h g e = rw (h again, repeat, g, e)

space-none :
    (p : Cursor) (c : ℕ) (rest : Text) (k : Cursor → Option Cursor)
    → p.after ≡ c ∷ rest
    → is_space c ≡ false
    → run space p k ≡ none
unfolding run
space-none p c rest k a s = ap (λ t. consume is_space t p k) a ∙ rw s

space-one :
    (p : Cursor) (c : ℕ) (rest : Text) (k : Cursor → Option Cursor)
    → p.after ≡ c ∷ rest
    → is_space c ≡ true
    → run space p k ≡ k (advance p c rest)
unfolding run
space-one p c rest k a s = ap (λ t. consume is_space t p k) a ∙ rw s

-- A continuation that goes on from the first character that is not whitespace.
spaces-total :
    (n : ℕ) (ws : Text) (c : ℕ) (rest : Text) (p : Cursor) (k : Cursor → Option Cursor)
    → p.after ≡ ws ++ (c ∷ rest)
    → all is_space ws ≡ true
    → is_space c ≡ false
    → length ws ≤ n
    → ((q : Cursor) → q.after ≡ c ∷ rest → (z : Cursor) × (k q ≡ some z))
    → (z : Cursor) × (repeat (run space) n p k ≡ some z)
spaces-total zero [] c rest p k a w s h f = unfold repeat in f p a
spaces-total zero (x ∷ ws) c rest p k a w s h f = absurd (omega (arith, h))
spaces-total (suc n) [] c rest p k a w s h f =
    let (z, e) = f p a in (z, repeat-back (run space) p k n (λ k'. space-none p c rest k' a s) ∙ e)
spaces-total (suc n) (x ∷ ws) c rest p k a w s h f =
    let q = advance p x (ws ++ (c ∷ rest)) in
    let (z, e) = spaces-total n ws c rest q k refl (ground (arith, w)) s (omega (arith, h)) f in
    let moved : progressed p q ≡ true = ground (arith, ap length a) in
    (
      z,
      repeat-on (run space) p k n q
          (λ k'. space-one p x (ws ++ (c ∷ rest)) k' a (ground (arith, w))) moved e,
    )

-- A text that holds a character that is not whitespace, split at the first of them.
first_visible :
    (s : Text)
    → any (λ (c : ℕ). not (is_space c)) s ≡ true
    → (ws : Text) × (c : ℕ) × (rest : Text) × (s ≡ ws ++ (c ∷ rest))
      × (all is_space ws ≡ true)
      × (is_space c ≡ false)
first_visible [] h = cc
first_visible (x ∷ s) h = elim (Bool-cases (is_space x)) [
  | inr v ↦ ([], x, s, refl, refl, v)
  | inl w ↦
      let (ws, c, rest, e, a, v) = first_visible s (ground (arith, h, w)) in
      (x ∷ ws, c, rest, ap (λ t. x ∷ t) e, ground (arith, w, a), v)
]

pub find-visible :
    (x : ℕ) (p s : Text) {i : ℕ}
    → is_space x ≡ false
    → find (x ∷ p) s ≡ some i
    → any (λ (c : ℕ). not (is_space c)) s ≡ true
unfolding find starts_with
find-visible x p [] v e = cc
find-visible x p (c ∷ s) {i} v e = elim (Bool-cases (is_space c)) [
  | inr h ↦ ground (arith, h)
  | inl h ↦ elim (Option-cases (find (x ∷ p) s)) [
    | inr (j, n) ↦ ground (arith, find-visible x p s v n)
    | inl n ↦ elim (Bool-cases (x == c)) [
      | inr d ↦ impossible (rw (d, n, find, starts_with) at e)
      | inl d ↦
          let same : x ≡ c = ground (arith, d) in
          let clash : true ≡ false = sym h ∙ ap is_space (sym same) ∙ v in cc
    ]
  ]
]

pub leading_space-total :
    (line : Text)
    → any (λ (c : ℕ). not (is_space c)) line ≡ true
    → (m : Found) × (match_re leading_space_re line ≡ some m)
unfolding match_re run
leading_space-total line h =
    let (ws, c, rest, e, w, v) = first_visible line h in
    let long = ap length e ∙ length-append ws (c ∷ rest) in
    let (z, r) =
      spaces-total (length line) ws c rest (cursor [] line)
        (λ q. run non_space (capture 1 (cursor [] line) q) some) e w v (omega (arith, long))
        (λ q a. (
          advance (capture 1 (cursor [] line) q) c rest,
          ap (λ t. consume (λ x. not (is_space x)) t (capture 1 (cursor [] line) q) some) a
              ∙ rw v refl,
        )) in
    (record { start = 0; stop = z }, rw r refl)
