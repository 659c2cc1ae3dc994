-- ===== src/Expression/Advances.antt =====
-- build_support/cpplint.py: CloseExpression moves on.
use concurrency_tcp_server.Base.{
  ℕ, suc, ◌+◌, ◌<◌, ◌≤◌, ◌≡◌, refl, ap, arith, some, List, [], ◌∷◌, Text, length, drop, get_elem?,
  Option-cases, Bool-cases, inl, inr, impossible,
}
use concurrency_tcp_server.Expression.{
  Closing, find_end_of_expression_in_line, close_below, close_first, close_on_line, refuses,
  close_expression,
}
use concurrency_tcp_server.Expression.Lines.{in_line_bounds, EndResult-cases, get_elem?-length}

-- A place found further down, or behind the position on the line.
abbrev IsFurther : ℕ → ℕ → Closing → Type 0
IsFurther n pos r = (p : ℕ) → r.2 ≡ some p → r.1 ≡ n → pos < p

abbrev IsBelow : ℕ → Closing → Type 0
IsBelow n r = (p : ℕ) → r.2 ≡ some p → n < r.1

close_below-IsBelow :
    (rest : List Text) (total n : ℕ) (line : Text) (st : List ℕ)
    → IsBelow n (close_below total line n rest st)
unfolding close_below
close_below-IsBelow rest total n line [] = λ p e. impossible e
close_below-IsBelow [] total n line (x ∷ st) = λ p e. impossible e
close_below-IsBelow (next ∷ rest) total n line (x ∷ st) =
    elim (EndResult-cases (find_end_of_expression_in_line next 0 (x ∷ st))) [
      | inl (p, k) ↦ rw (k, close_below) (λ q e. omega arith)
      | inr (inl k) ↦ rw (k, close_below) (λ q e. impossible e)
      | inr (inr (st', k)) ↦
          rw (k, close_below)
            (λ q e. omega (arith, close_below-IsBelow rest total (n + 1) next st' q e))
    ]

close_first-IsFurther :
    (total n pos : ℕ) (line : Text) (rest : List Text)
    → pos ≤ length line
    → IsFurther n pos (close_first total line n rest (find_end_of_expression_in_line line pos []))
unfolding close_first
close_first-IsFurther total n pos line rest le =
    elim (EndResult-cases (find_end_of_expression_in_line line pos [])) [
      | inl (p, k) ↦
          let b = in_line_bounds line pos p [] le k in
          rw (k, close_first) (λ q e f. let same : p ≡ q = cc in omega (arith, b, same))
      | inr (inl k) ↦ rw (k, close_first) (λ q e f. impossible e)
      | inr (inr (st', k)) ↦
          rw (k, close_first)
            (λ q e f. absurd (omega (arith, close_below-IsBelow rest total n line st' q e, f)))
    ]

close_on_line-IsFurther :
    (elided : List Text) (n pos : ℕ) (line : Text)
    → pos ≤ length line
    → IsFurther n pos (close_on_line elided line n pos)
unfolding close_on_line
close_on_line-IsFurther elided n pos line le = elim (Bool-cases (refuses line pos)) [
  | inl k ↦ rw (k, close_on_line) (λ q e f. impossible e)
  | inr k ↦
      rw (k, close_on_line)
        (close_first-IsFurther (length elided) n pos line (drop (suc n) elided) le)
]

-- A position that CloseExpression returns on the line where it began is behind the place where it began.
pub close_expression-further :
    (elided : List Text) (n pos p : ℕ) (line : Text)
    → close_expression elided n pos ≡ some (line, n, some p)
    → pos < p
unfolding close_expression
close_expression-further elided n pos p line e = elim (Option-cases (get_elem? elided n)) [
  | inl k ↦ cc (rw (k, close_expression) at e)
  | inr (first, k) ↦ elim (Option-cases (get_elem? first pos)) [
    | inl k' ↦ cc (rw (k, k', close_expression) at e)
    | inr (c, k') ↦
        let e' : close_on_line elided first n pos ≡ (line, n, some p) =
          cc (rw (k, k', close_expression) at e) in
        close_on_line-IsFurther elided n pos first (omega (arith, get_elem?-length first pos k')) p
          (ap (λ (r : Closing). r.2) e') (ap (λ (r : Closing). r.1) e')
  ]
]

-- It returns wherever there is a character.
pub close_expression-some :
    (elided : List Text) (n pos : ℕ) {line : Text} {c : ℕ}
    → get_elem? elided n ≡ some line
    → get_elem? line pos ≡ some c
    → (r : Closing) × (close_expression elided n pos ≡ some r)
unfolding close_expression
close_expression-some elided n pos {line} e f =
    (close_on_line elided line n pos, rw (e, f, close_expression) refl)
