-- ===== src/Reverse/Line.antt =====
-- The position that FindStartOfExpressionInLine of build_support/cpplint.py returns.
use mathlib.Core.List.{reverse-cons, reverse-append, reverse-reverse}
use concurrency_tcp_server.Base.{
  ℕ, ◌≡◌, ◌⊎◌, refl, sym, ap, ◌∙◌, Bool, true, false, ◌||◌, some, List, [], ◌∷◌, ◌++◌, reverse,
  ◌==◌, if◌then◌else◌, Text, arith, length, take, drop, get_elem?, inl, inr, append_assoc,
  length-reverse, take-append-drop,
}
use concurrency_tcp_server.Expression.{is_opener, is_closer}
use concurrency_tcp_server.Reverse.{
  StartResult, opened_at, unopened, remaining, BackRound, back, pass, done, drop_greater, or_return,
  is_arrow, is_shift, less_back, open_back, back_round, find_start,
  find_start_of_expression_in_line,
}

-- The characters that open an expression.
abbrev pub opens : ℕ → Bool
opens c = is_opener c || c == b'<'

-- A position that a round returns is its own, and its character opens an expression.
abbrev ReturnsAt : ℕ → ℕ → BackRound → Type 0
ReturnsAt i c r = (p : ℕ) → r ≡ done (opened_at p) → (p ≡ i) × (opens c ≡ true)

or_return-ReturnsAt :
    (i c : ℕ) (st : List ℕ) → opens c ≡ true → ReturnsAt i c (or_return (opened_at i) st)
or_return-ReturnsAt i c [] h p e = (ground arith, h)
or_return-ReturnsAt i c (x ∷ st) h p e = cc

unopened-ReturnsAt : (i c : ℕ) (st : List ℕ) → ReturnsAt i c (or_return unopened st)
unopened-ReturnsAt i c [] p e = cc
unopened-ReturnsAt i c (x ∷ st) p e = cc

less_back-ReturnsAt : (i c : ℕ) (st : List ℕ) → opens c ≡ true → ReturnsAt i c (less_back i st)
less_back-ReturnsAt i c [] h p e = cc
less_back-ReturnsAt i c (x ∷ st) h p e = ground (arith, or_return-ReturnsAt i c st h p)

open_back-ReturnsAt : (i c : ℕ) (st : List ℕ) → opens c ≡ true → ReturnsAt i c (open_back i c st)
open_back-ReturnsAt i c [] h p e = cc
open_back-ReturnsAt i c (o ∷ st) h p e = ground (arith, or_return-ReturnsAt i c st h p)

-- The choice by a test, with what the test says of the character.
if-ReturnsAt :
    (i c : ℕ) (b : Bool) (r r' : BackRound)
    → (b ≡ true → ReturnsAt i c r)
    → ReturnsAt i c r'
    → ReturnsAt i c (if b then r else r')
if-ReturnsAt i c true r r' h k = h refl
if-ReturnsAt i c false r r' h k = k

back-ReturnsAt : (i c : ℕ) (st : List ℕ) → ReturnsAt i c (back st)
back-ReturnsAt i c st p e = cc

pass-ReturnsAt : (i c : ℕ) (st : List ℕ) → ReturnsAt i c (pass st)
pass-ReturnsAt i c st p e = cc

back_round-ReturnsAt :
    (before : Text) (i c : ℕ) (after : Text) (st : List ℕ)
    → ReturnsAt i c (back_round before i c after st)
unfolding back_round
back_round-ReturnsAt before i c after st =
    if-ReturnsAt i c (is_closer c) _ _ (λ _. back-ReturnsAt i c _)
      (if-ReturnsAt i c (c == b'>') _ _
        (λ _.
          if-ReturnsAt i c (is_arrow before after) _ _ (λ _. pass-ReturnsAt i c st)
            (back-ReturnsAt i c _))
        (if-ReturnsAt i c (c == b'<') _ _
          (λ h.
            if-ReturnsAt i c (is_shift before) _ _ (λ _. pass-ReturnsAt i c st)
              (less_back-ReturnsAt i c st (ground (arith, h))))
          (if-ReturnsAt i c (is_opener c) _ _
            (λ h. open_back-ReturnsAt i c (drop_greater st) (ground (arith, h)))
            (if-ReturnsAt i c (c == b';') _ _ (λ _. unopened-ReturnsAt i c (drop_greater st))
              (back-ReturnsAt i c st)))))

-- Position p of the text that ends where the search begins, which is given from its end.
record IsOpening (text : Text) (p : ℕ) : Type 0 where
  behind : Text
  char : ℕ
  before : Text
  splits : text ≡ behind ++ (char ∷ before)
  at : length before ≡ p
  opening : opens char ≡ true

later : (c p : ℕ) {text : Text} → IsOpening text p → IsOpening (c ∷ text) p
later c p o = record {
  behind = c ∷ o.behind;
  char = o.char;
  before = o.before;
  splits = ap (λ t. c ∷ t) o.splits;
  at = o.at;
  opening = o.opening;
}

here : (before : Text) (c p : ℕ) → (p ≡ length before) × (opens c ≡ true) → IsOpening (c ∷ before) p
here before c p (e, h) = record {
  behind = [];
  char = c;
  before = before;
  splits = refl;
  at = sym e;
  opening = h;
}

BackRound-cases :
    (r : BackRound)
    → ((st : List ℕ) × (r ≡ back st))
      ⊎ ((st : List ℕ) × (r ≡ pass st))
      ⊎ ((s : StartResult) × (r ≡ done s))
BackRound-cases (back st) = inl (st, refl)
BackRound-cases (pass st) = inr (inl (st, refl))
BackRound-cases (done s) = inr (inr (s, refl))

single-back :
    (c : ℕ) (after : Text) (st st' : List ℕ)
    → (back_round [] 0 c after st ≡ back st') ⊎ (back_round [] 0 c after st ≡ pass st')
    → find_start (c ∷ []) after st ≡ remaining st'
unfolding find_start
single-back c after st st' (inl q) = rw (q, find_start)
single-back c after st st' (inr q) = rw (q, find_start)

single-done :
    (c : ℕ) (after : Text) (st : List ℕ) (r : StartResult)
    → back_round [] 0 c after st ≡ done r
    → find_start (c ∷ []) after st ≡ r
unfolding find_start
single-done c after st r q = rw (q, find_start)

module _ (c d : ℕ) (before after : Text) (st : List ℕ) where
  abbrev round : BackRound
  round = back_round (d ∷ before) (length (d ∷ before)) c after st

  round-back :
      (st' : List ℕ)
      → round ≡ back st'
      → find_start (c ∷ d ∷ before) after st ≡ find_start (d ∷ before) (c ∷ after) st'
  unfolding find_start
  round-back st' q = rw (q, find_start)

  round-pass :
      (st' : List ℕ)
      → round ≡ pass st'
      → find_start (c ∷ d ∷ before) after st ≡ find_start before (d ∷ c ∷ after) st'
  unfolding find_start
  round-pass st' q = rw (q, find_start)

  round-done : (r : StartResult) → round ≡ done r → find_start (c ∷ d ∷ before) after st ≡ r
  unfolding find_start
  round-done r q = rw (q, find_start)

nothing_opened : {A : Type 0} (st : List ℕ) (p : ℕ) → remaining st ≡ opened_at p → A
nothing_opened st p e = cc

find_start-IsOpening :
    (text after : Text) (st : List ℕ) (p : ℕ)
    → find_start text after st ≡ opened_at p
    → IsOpening text p
unfolding find_start
find_start-IsOpening [] after st p e = nothing_opened st p e
find_start-IsOpening (c ∷ []) after st p e = elim (BackRound-cases (back_round [] 0 c after st)) [
  | inl (st', q) ↦ nothing_opened st' p (sym (single-back c after st st' (inl q)) ∙ e)
  | inr (inl (st', q)) ↦ nothing_opened st' p (sym (single-back c after st st' (inr q)) ∙ e)
  | inr (inr (s, q)) ↦
      here [] c p (
        back_round-ReturnsAt [] 0 c after st p (q ∙ ap done (sym (single-done c after st s q) ∙ e)))
]
find_start-IsOpening (c ∷ d ∷ before) after st p e =
    elim (BackRound-cases (back_round (d ∷ before) (length (d ∷ before)) c after st)) [
      | inl (st', q) ↦ later c p (
          find_start-IsOpening (d ∷ before) (c ∷ after) st' p
            (sym (round-back c d before after st st' q) ∙ e))
      | inr (inl (st', q)) ↦ later c p (
          later d p (
            find_start-IsOpening before (d ∷ c ∷ after) st' p
              (sym (round-pass c d before after st st' q) ∙ e)))
      | inr (inr (s, q)) ↦ here (d ∷ before) c p (
          back_round-ReturnsAt (d ∷ before) (length (d ∷ before)) c after st p
            (q ∙ ap done (sym (round-done c d before after st s q) ∙ e)))
    ]

get_elem?-middle : (xs : Text) (c : ℕ) (ys : Text) → get_elem? (xs ++ (c ∷ ys)) (length xs) ≡ some c
get_elem?-middle [] c ys = refl
get_elem?-middle (x ∷ xs) c ys = get_elem?-middle xs c ys

-- The text up to the place where the search begins, read from its start.
prefix-splits :
    (line : Text) (n : ℕ) (behind : Text) (c : ℕ) (before : Text)
    → reverse (take n line) ≡ behind ++ (c ∷ before)
    → line ≡ reverse before ++ (c ∷ (reverse behind ++ drop n line))
prefix-splits line n behind c before e =
    let turned : take n line ≡ reverse before ++ (c ∷ reverse behind) =
      sym (reverse-reverse (take n line))
      ∙ ap reverse e
      ∙ reverse-append behind (c ∷ before)
      ∙ ap (λ t. t ++ reverse behind) (reverse-cons c before)
      ∙ append_assoc (reverse before) (c ∷ []) (reverse behind) in
    sym (take-append-drop n line)
    ∙ ap (λ t. t ++ drop n line) turned
    ∙ append_assoc (reverse before) (c ∷ reverse behind) (drop n line)

-- Position p of the line holds a character that opens an expression.
pub record HoldsOpener (line : Text) (p : ℕ) : Type 0 where
  pub char : ℕ
  pub at : get_elem? line p ≡ some char
  pub opening : opens char ≡ true

pub on_line-HoldsOpener :
    (line : Text) (n p : ℕ) (st : List ℕ)
    → find_start_of_expression_in_line line n st ≡ opened_at p
    → HoldsOpener line p
unfolding find_start_of_expression_in_line
on_line-HoldsOpener line n p st e =
    let o = find_start-IsOpening (reverse (take n line)) (drop n line) st p e in
    let place = length-reverse o.before ∙ o.at in
    record {
      char = o.char;
      at =
          ap (λ t. get_elem? t p) (prefix-splits line n o.behind o.char o.before o.splits)
          ∙ ap (get_elem? (reverse o.before ++ (o.char ∷ (reverse o.behind ++ drop n line))))
              (sym place)
          ∙ get_elem?-middle (reverse o.before) o.char (reverse o.behind ++ drop n line);
      opening = o.opening;
    }
