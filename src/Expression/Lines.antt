-- ===== src/Expression/Lines.antt =====
-- CloseExpression of build_support/cpplint.py across lines.
use concurrency_tcp_server.Base.{
  ℕ, zero, suc, ◌+◌, ◌≤◌, ◌<◌, ◌≡◌, refl, sym, ap, ◌∙◌, Bool, true, false, none, some, List, [],
  ◌∷◌, ◌⊎◌, subst, ◌==◌, if◌then◌else◌, Text, arith, length, take, drop, get_elem?, inl, inr,
  Bool-cases, Option-cases, reverse, length-drop,
}
use concurrency_tcp_server.Expression.{
  refuses, is_opener, is_closer, after_operator, arrow_or_operator, EndResult, found, gave_up,
  pending, Round, keep, stop, drop_angles, unless_empty, pop_angle, less_round, close_round,
  end_round, find_end, find_end_of_expression_in_line, Closing, close_below, close_first,
  close_on_line, close_expression,
}
use concurrency_tcp_server.Expression.Complete.{find_end-keep, find_end-stop}

Round-cases : (r : Round) → ((st : List ℕ) × (r ≡ keep st)) ⊎ ((e : EndResult) × (r ≡ stop e))
Round-cases (keep st) = inl (st, refl)
Round-cases (stop e) = inr (e, refl)

-- A position that a round returns is the one behind its character.
abbrev StopsAt : ℕ → Round → Type 0
StopsAt i r = (p : ℕ) → r ≡ stop (found p) → p ≡ i + 1

unless_empty-StopsAt : (i : ℕ) (st : List ℕ) → StopsAt i (unless_empty (found (i + 1)) st)
unless_empty-StopsAt i [] p e = ground arith
unless_empty-StopsAt i (x ∷ st) p e = cc

give_up-StopsAt : (i : ℕ) (st : List ℕ) → StopsAt i (unless_empty gave_up st)
give_up-StopsAt i [] p e = cc
give_up-StopsAt i (x ∷ st) p e = cc

pop_angle-StopsAt : (i : ℕ) (st : List ℕ) → StopsAt i (pop_angle (found (i + 1)) st)
pop_angle-StopsAt i [] p e = cc
pop_angle-StopsAt i (x ∷ st) p e = ground (arith, unless_empty-StopsAt i st p)

shift-StopsAt : (i : ℕ) (st : List ℕ) → StopsAt i (pop_angle gave_up st)
shift-StopsAt i [] p e = cc
shift-StopsAt i (x ∷ st) p e = ground (arith, give_up-StopsAt i st p)

close_round-StopsAt : (i c : ℕ) (st : List ℕ) → StopsAt i (close_round i c st)
close_round-StopsAt i c [] p e = cc
close_round-StopsAt i c (o ∷ st) p e = ground (arith, unless_empty-StopsAt i st p)

if-StopsAt :
    (i : ℕ) (b : Bool) (r r' : Round) → StopsAt i r → StopsAt i r' → StopsAt i (if b then r else r')
if-StopsAt i true r r' h k = h
if-StopsAt i false r r' h k = k

keep-StopsAt : (i : ℕ) (st : List ℕ) → StopsAt i (keep st)
keep-StopsAt i st p e = cc

end_round-StopsAt : (before : Text) (i c : ℕ) (st : List ℕ) → StopsAt i (end_round before i c st)
unfolding end_round less_round
end_round-StopsAt before i c st = if-StopsAt i (is_opener c) _ _ (keep-StopsAt i _) (
    if-StopsAt i (c == b'<') _ _
      (if-StopsAt i _ _ _ (shift-StopsAt i st)
        (if-StopsAt i (after_operator before) _ _ (keep-StopsAt i st) (keep-StopsAt i _)))
      (if-StopsAt i (is_closer c) _ _ (close_round-StopsAt i c (drop_angles st)) (
        if-StopsAt i (c == b'>') _ _
          (if-StopsAt i (arrow_or_operator before) _ _ (keep-StopsAt i st) (pop_angle-StopsAt i st))
          (if-StopsAt i (c == b';') _ _ (give_up-StopsAt i (drop_angles st)) (keep-StopsAt i st)))))

-- A position found lies behind the place where the search began, and within the line.
pub find_end_bounds :
    (s before : Text) (i p : ℕ) (st : List ℕ)
    → find_end before i s st ≡ found p
    → (i < p) × (p ≤ i + length s)
unfolding find_end
find_end_bounds [] before i p st e = cc
find_end_bounds (c ∷ cs) before i p st e = elim (Round-cases (end_round before i c st)) [
  | inl (st', k) ↦
      let later =
        find_end_bounds cs (c ∷ before) (i + 1) p st'
          (sym (find_end-keep before i c cs st st' k) ∙ e) in
      omega (arith, later)
  | inr (r, k) ↦ omega (
    arith,
    end_round-StopsAt before i c st p (k ∙ ap stop (sym (find_end-stop before i c cs st r k) ∙ e)),
  )
]

pub in_line_bounds :
    (line : Text) (i p : ℕ) (st : List ℕ)
    → i ≤ length line
    → find_end_of_expression_in_line line i st ≡ found p
    → (i < p) × (p ≤ length line)
unfolding find_end_of_expression_in_line
in_line_bounds line i p st h e =
    omega
      (arith, find_end_bounds (drop i line) (reverse (take i line)) i p st e, length-drop i line)

-- What a closing place is: a line of the file, not above the one where the search began.
pub record IsPlace (elided : List Text) (linenum : ℕ) (c : Closing) (p : ℕ) : Type 0 where
  pub line_is : get_elem? elided c.1 ≡ some c.0
  pub not_above : linenum ≤ c.1
  pub positive : 0 < p
  pub within : p ≤ length c.0

-- The lines from `linenum` on, the first of which is `line`.
abbrev Suffix : List Text → ℕ → List Text → Type 0
Suffix elided n lines = (k : ℕ) → get_elem? elided (n + k) ≡ get_elem? lines k

Suffix-tail :
    (elided : List Text) (n : ℕ) (next : Text) (rest : List Text)
    → Suffix elided n (next ∷ rest)
    → Suffix elided (n + 1) rest
Suffix-tail elided n next rest suf k = ap (get_elem? elided) (omega arith) ∙ suf (suc k)

pub EndResult-cases :
    (r : EndResult) → ((p : ℕ) × (r ≡ found p)) ⊎ (r ≡ gave_up) ⊎ ((st : List ℕ) × (r ≡ pending st))
EndResult-cases (found p) = inl (p, refl)
EndResult-cases gave_up = inr (inl refl)
EndResult-cases (pending st) = inr (inr (st, refl))

abbrev Lands : List Text → ℕ → Closing → Type 0
Lands elided n r = (p : ℕ) → r.2 ≡ some p → IsPlace elided n r p

Lands-found :
    (elided : List Text) (n m p : ℕ) (line : Text)
    → get_elem? elided m ≡ some line
    → n ≤ m
    → (0 < p) × (p ≤ length line)
    → Lands elided n (line, m, some p)
Lands-found elided n m p line at le b q e = record {
  line_is = at;
  not_above = le;
  positive = let same : p ≡ q = cc in omega arith;
  within = let same : p ≡ q = cc in omega arith;
}

Lands-none : (elided : List Text) (n m : ℕ) (line : Text) → Lands elided n (line, m, none)
Lands-none elided n m line p e = cc

Lands-below : (elided : List Text) (n : ℕ) (r : Closing) → Lands elided (n + 1) r → Lands elided n r
Lands-below elided n r h p e =
    let place = h p e in
    record {
      line_is = place.line_is;
      not_above = omega (arith, place.not_above);
      positive = place.positive;
      within = place.within;
    }

close_below-Lands :
    (elided rest : List Text) (total n : ℕ) (line : Text) (st : List ℕ)
    → Suffix elided (n + 1) rest
    → Lands elided n (close_below total line n rest st)
unfolding close_below
close_below-Lands elided rest total n line [] suf = Lands-none elided n total line
close_below-Lands elided [] total n line (x ∷ st) suf = Lands-none elided n total line
close_below-Lands elided (next ∷ rest) total n line (x ∷ st) suf =
    elim (EndResult-cases (find_end_of_expression_in_line next 0 (x ∷ st))) [
      | inl (p, k) ↦
          rw (k, close_below)
            (Lands-found elided n (n + 1) p next (ap (get_elem? elided) (omega arith) ∙ suf 0)
              (omega arith) (in_line_bounds next 0 p (x ∷ st) (omega arith) k))
      | inr (inl k) ↦ rw (k, close_below) (Lands-none elided n total next)
      | inr (inr (st', k)) ↦
          rw (k, close_below)
            (Lands-below elided n _ (
              close_below-Lands elided rest total (n + 1) next st'
                (Suffix-tail elided (n + 1) next rest suf)))
    ]

suc_add : (n k : ℕ) → suc n + k ≡ suc (n + k)
suc_add n k = omega arith

get_elem?-drop :
    {A : Type 0} (n : ℕ) (xs : List A) (k : ℕ) → get_elem? xs (n + k) ≡ get_elem? (drop n xs) k
get_elem?-drop zero xs k = ap (get_elem? xs) (omega arith)
get_elem?-drop (suc n) [] k = ground arith
get_elem?-drop (suc n) (x ∷ xs) k = ap (get_elem? (x ∷ xs)) (suc_add n k) ∙ get_elem?-drop n xs k

close_first-Lands :
    (elided : List Text) (n pos : ℕ) (line : Text)
    → get_elem? elided n ≡ some line
    → pos ≤ length line
    → Lands elided n (
        close_first
          (length elided)
          line
          n
          (drop (suc n) elided)
          (find_end_of_expression_in_line line pos []))
unfolding close_first
close_first-Lands elided n pos line at le =
    elim (EndResult-cases (find_end_of_expression_in_line line pos [])) [
      | inl (p, k) ↦
          rw (k, close_first)
            (Lands-found elided n n p line at (omega arith)
              (omega (arith, in_line_bounds line pos p [] le k)))
      | inr (inl k) ↦ rw (k, close_first) (Lands-none elided n (length elided) line)
      | inr (inr (st', k)) ↦
          rw (k, close_first)
            (close_below-Lands elided (drop (suc n) elided) (length elided) n line st'
              (λ j. ap (get_elem? elided) (omega arith) ∙ get_elem?-drop (suc n) elided j))
    ]

pub get_elem?-length :
    {A : Type 0} (xs : List A) (i : ℕ) {a : A} → get_elem? xs i ≡ some a → i < length xs
get_elem?-length [] i e = cc
get_elem?-length (x ∷ xs) zero e = omega arith
get_elem?-length (x ∷ xs) (suc i) e = omega (arith, get_elem?-length xs i e)

close_on_line-Lands :
    (elided : List Text) (n pos : ℕ) (line : Text)
    → get_elem? elided n ≡ some line
    → pos ≤ length line
    → Lands elided n (close_on_line elided line n pos)
unfolding close_on_line
close_on_line-Lands elided n pos line at le = elim (Bool-cases (refuses line pos)) [
  | inl k ↦ rw (k, close_on_line) (Lands-none elided n (length elided) line)
  | inr k ↦ rw (k, close_on_line) (close_first-Lands elided n pos line at le)
]

-- A position that CloseExpression returns is on a line of the file, at or below the line where it
-- began; the line returned is that line, and the position is behind one of its characters.
pub close_expression-IsPlace :
    (elided : List Text) (n pos p m : ℕ) (line : Text)
    → close_expression elided n pos ≡ some (line, m, some p)
    → IsPlace elided n (line, m, some p) p
unfolding close_expression
close_expression-IsPlace elided n pos p m line e = elim (Option-cases (get_elem? elided n)) [
  | inl k ↦ cc (rw (k, close_expression) at e)
  | inr (first, k) ↦ elim (Option-cases (get_elem? first pos)) [
    | inl k' ↦ cc (rw (k, k', close_expression) at e)
    | inr (c, k') ↦
        let e' : close_on_line elided first n pos ≡ (line, m, some p) =
          cc (rw (k, k', close_expression) at e) in
        subst (λ r. Lands elided n r) e'
          (close_on_line-Lands elided n pos first k (omega (arith, get_elem?-length first pos k')))
          p refl
  ]
]
