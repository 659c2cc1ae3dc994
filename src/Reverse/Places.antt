-- ===== src/Reverse/Places.antt =====
-- The places that ReverseCloseExpression of build_support/cpplint.py returns.
use concurrency_tcp_server.Base.{
  ℕ, zero, suc, ◌+◌, ◌≤◌, ◌≡◌, ◌⊎◌, refl, subst, ◌||◌, none, some, List, [], ◌∷◌, ◌==◌, Text, arith,
  length, get_or, get_elem?, inl, inr, Bool-cases, Option-cases,
}
use concurrency_tcp_server.Expression.{is_closer}
use concurrency_tcp_server.Reverse.{
  StartResult, opened_at, unopened, remaining, find_start_of_expression_in_line, OpeningPlace,
  open_above, open_first, open_on_line, reverse_close_expression,
}
use concurrency_tcp_server.Reverse.Line.{HoldsOpener, on_line-HoldsOpener}

-- The place that a result names: on a line of the file, which is the line returned, at or above line
-- `linenum`, and the character there opens an expression.
pub record IsPlaceAbove (elided : List Text) (linenum : ℕ) (line : Text) (n p : ℕ) : Type 0 where
  pub line_is : get_elem? elided n ≡ some line
  pub not_below : n ≤ linenum
  pub holds : HoldsOpener line p

abbrev PlacesAbove : List Text → ℕ → OpeningPlace → Type 0
PlacesAbove elided linenum (line, none) = Unit {0}
PlacesAbove elided linenum (line, some (n, p)) = IsPlaceAbove elided linenum line n p

PlacesAbove-mono :
    (elided : List Text) (n m : ℕ) (r : OpeningPlace)
    → n ≤ m
    → PlacesAbove elided n r
    → PlacesAbove elided m r
PlacesAbove-mono elided n m (line, none) h r = tt
PlacesAbove-mono elided n m (line, some (k, p)) h r = record {
  line_is = r.line_is;
  not_below = omega (arith, h, r.not_below);
  holds = r.holds;
}

get_elem?-before :
    (xs : List Text) (n m : ℕ) {x : Text}
    → get_elem? xs m ≡ some x
    → n ≤ m
    → get_elem? xs n ≡ some (get_or xs n [])
get_elem?-before [] n m e h = cc
get_elem?-before (x ∷ xs) zero m e h = refl
get_elem?-before (x ∷ xs) (suc n) zero e h = absurd (omega (arith, h))
get_elem?-before (x ∷ xs) (suc n) (suc m) e h = get_elem?-before xs n m e (omega (arith, h))

StartResult-cases :
    (r : StartResult)
    → ((p : ℕ) × (r ≡ opened_at p)) ⊎ (r ≡ unopened) ⊎ ((st : List ℕ) × (r ≡ remaining st))
StartResult-cases (opened_at p) = inl (p, refl)
StartResult-cases unopened = inr (inl refl)
StartResult-cases (remaining st) = inr (inr (st, refl))

open_above-PlacesAbove :
    (elided : List Text) (line : Text) (linenum : ℕ) (st : List ℕ) {x : Text}
    → get_elem? elided linenum ≡ some x
    → PlacesAbove elided linenum (open_above elided line linenum st)
unfolding open_above
open_above-PlacesAbove elided line linenum [] at = tt
open_above-PlacesAbove elided line zero (s ∷ st) at = tt
open_above-PlacesAbove elided line (suc n) (s ∷ st) at =
    let above = get_or elided n [] in
    let there = get_elem?-before elided n (suc n) at (omega arith) in
    elim (StartResult-cases (find_start_of_expression_in_line above (length above) (s ∷ st))) [
      | inl (p, k) ↦
          rw (k, open_above)
            (record {
              line_is = there;
              not_below = omega arith;
              holds = on_line-HoldsOpener above (length above) p (s ∷ st) k;
            })
      | inr (inl k) ↦ rw (k, open_above) tt
      | inr (inr (st', k)) ↦
          rw (k, open_above)
            (PlacesAbove-mono elided n (suc n) (open_above elided above n st') (omega arith)
              (open_above-PlacesAbove elided above n st' there))
    ]

open_first-PlacesAbove :
    (elided : List Text) (line : Text) (linenum stop_at : ℕ)
    → get_elem? elided linenum ≡ some line
    → PlacesAbove elided linenum
        (open_first elided line linenum (find_start_of_expression_in_line line stop_at []))
unfolding open_first
open_first-PlacesAbove elided line linenum stop_at at =
    elim (StartResult-cases (find_start_of_expression_in_line line stop_at [])) [
      | inl (p, k) ↦
          rw (k, open_first)
            (record {
              line_is = at;
              not_below = omega arith;
              holds = on_line-HoldsOpener line stop_at p [] k;
            })
      | inr (inl k) ↦ rw (k, open_first) tt
      | inr (inr (st', k)) ↦ rw (k, open_first) (open_above-PlacesAbove elided line linenum st' at)
    ]

open_on_line-PlacesAbove :
    (elided : List Text) (line : Text) (linenum pos c : ℕ)
    → get_elem? elided linenum ≡ some line
    → PlacesAbove elided linenum (open_on_line elided line linenum pos c)
unfolding open_on_line
open_on_line-PlacesAbove elided line linenum pos c at =
    elim (Bool-cases (is_closer c || c == b'>')) [
      | inr k ↦ rw (k, open_on_line) tt
      | inl k ↦ rw (k, open_on_line) (open_first-PlacesAbove elided line linenum (pos + 1) at)
    ]

-- A position that ReverseCloseExpression returns is on a line of the file, at or above the line where it
-- began; the line returned is that line, and the character at the position is an opening bracket or `<`.
pub reverse_close_expression-IsPlaceAbove :
    (elided : List Text) (linenum pos n p : ℕ) (line : Text)
    → reverse_close_expression elided linenum pos ≡ some (line, some (n, p))
    → IsPlaceAbove elided linenum line n p
unfolding reverse_close_expression
reverse_close_expression-IsPlaceAbove elided linenum pos n p line e =
    elim (Option-cases (get_elem? elided linenum)) [
      | inl k ↦ cc (rw (k, reverse_close_expression) at e)
      | inr (first, k) ↦ elim (Option-cases (get_elem? first pos)) [
        | inl k' ↦ cc (rw (k, k', reverse_close_expression) at e)
        | inr (c, k') ↦
            let e' : open_on_line elided first linenum pos c ≡ (line, some (n, p)) =
              cc (rw (k, k', reverse_close_expression) at e) in
            subst (PlacesAbove elided linenum) e'
              (open_on_line-PlacesAbove elided first linenum pos c k)
      ]
    ]
