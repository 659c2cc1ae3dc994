-- ===== src/Functions/Bodies.antt =====
-- The count of the lines of a function by CheckForFunctionLengths (build_support/cpplint.py).
use concurrency_tcp_server.Base.{
  ℕ, zero, suc, ◌+◌, ◌*◌, ◌^◌, ◌<◌, ◌≡◌, refl, ap, ◌∙◌, true, false, not, ◌&&◌, [], Text, arith,
  ltb, leb, if◌then◌else◌, drop, get_or, Bool-cases, inl, inr,
}
use concurrency_tcp_server.Regex.{matches}
use concurrency_tcp_server.Lines.Cleansed.{CleansedLines}
use concurrency_tcp_server.Lint.Report.{Linter}
use concurrency_tcp_server.Functions.{
  FunctionState, found, base_trigger, begin, finish, starting_func, find_body, function_title,
  function_end_re, blank_re, check, check_for_function_lengths,
}
use concurrency_tcp_server.Functions.Level.{is_silenced, check-error_count}

abbrev pub line_at : CleansedLines → ℕ → Text
line_at clean_lines i = get_or clean_lines.lines i []

-- CheckForFunctionLengths at the n lines from `start` on, in their order.
pub run_lines : Text → CleansedLines → ℕ → ℕ → FunctionState → Linter → FunctionState × Linter
run_lines filename clean_lines start zero f l = (f, l)
run_lines filename clean_lines start (suc n) f l =
    let before = run_lines filename clean_lines start n f l in
    check_for_function_lengths filename clean_lines (start + n) before.0 before.1

-- How many of the n lines from `start` on are not blank.
pub non_blank : CleansedLines → ℕ → ℕ → ℕ
non_blank clean_lines start zero = 0
non_blank clean_lines start (suc n) =
    non_blank clean_lines start n
    + (if matches blank_re (line_at clean_lines (start + n)) then 0 else 1)

-- A line that neither starts nor ends a function.
pub record IsInner (line : Text) : Type 0 where
  pub starts_none : starting_func line ≡ false
  pub ends_none : matches function_end_re line ≡ false

module _ (filename : Text) (clean_lines : CleansedLines) where
  inner-line :
      (i : ℕ) (f : FunctionState) (l : Linter)
      → IsInner (line_at clean_lines i)
      → f.in_a_function ≡ true
      → check_for_function_lengths filename clean_lines i f l ≡ (
        record f {
          lines_in_function =
              f.lines_in_function + (if matches blank_re (line_at clean_lines i) then 0 else 1);
        },
        l,
      )
  unfolding check_for_function_lengths
  inner-line i f l h o = elim (Bool-cases (matches blank_re (line_at clean_lines i))) [
    | inl e ↦
        rw (h.starts_none, h.ends_none, e)
          (ap (λ (n : ℕ). (record f { lines_in_function = n }, l)) (omega arith))
    | inr e ↦ rw (h.starts_none, h.ends_none, e, o) refl
  ]

  -- A line where a body is found.
  opening-line :
      (i : ℕ) (joined : Text) (f : FunctionState) (l : Linter)
      → starting_func (line_at clean_lines i) ≡ true
      → find_body [] (drop i clean_lines.lines) ≡ found joined
      → check_for_function_lengths filename clean_lines i f l
        ≡ (begin (function_title (line_at clean_lines i) joined) f, l)
  unfolding check_for_function_lengths
  opening-line i joined f l s b = rw (s, b) refl

  closing-line :
      (i : ℕ) (f : FunctionState) (l : Linter)
      → starting_func (line_at clean_lines i) ≡ false
      → matches function_end_re (line_at clean_lines i) ≡ true
      → check_for_function_lengths filename clean_lines i f l ≡ (finish f, check filename i f l)
  unfolding check_for_function_lengths
  closing-line i f l s e = rw (s, e) refl

  -- An open function keeps its name over inner lines, and its count grows by those that are not blank.
  lines-of_body :
      (i n : ℕ) (title : Text) (f : FunctionState) (l : Linter)
      → check_for_function_lengths filename clean_lines i f l ≡ (begin title f, l)
      → ((j : ℕ) → j < n → IsInner (line_at clean_lines (i + 1 + j)))
      → run_lines filename clean_lines i (suc n) f l
        ≡ (record (begin title f) { lines_in_function = non_blank clean_lines (i + 1) n }, l)
  unfolding run_lines non_blank
  lines-of_body i zero title f l o h =
      ap (λ (k : ℕ). check_for_function_lengths filename clean_lines k f l) (omega arith) ∙ o
  lines-of_body i (suc n) title f l o h =
      let inside = record (begin title f) { lines_in_function = non_blank clean_lines (i + 1) n } in
      ap
        (λ (r : FunctionState × Linter).
          check_for_function_lengths filename clean_lines (i + suc n) r.0 r.1)
        (lines-of_body i n title f l o (λ j lt. h j (omega arith)))
      ∙ ap (λ (k : ℕ). check_for_function_lengths filename clean_lines k inside l) (omega arith)
      ∙ inner-line (i + 1 + n) inside l (h n (omega arith)) refl

-- A function whose body is found at line i, with n lines that neither start nor end a function and then
-- a line that ends it: afterwards no function is open, and the number of errors has grown by one exactly
-- if more of the n lines are not blank than the trigger for its name and the verbose level, that level is
-- 5 at most, and no NOLINT for the last line and no filter silences the category.
pub run_lines-error_count :
    (filename : Text) (clean_lines : CleansedLines) (i n : ℕ) (joined : Text) (f : FunctionState)
    (l : Linter)
    → starting_func (line_at clean_lines i) ≡ true
    → find_body [] (drop i clean_lines.lines) ≡ found joined
    → ((j : ℕ) → j < n → IsInner (line_at clean_lines (i + 1 + j)))
    → starting_func (line_at clean_lines (i + suc n)) ≡ false
    → matches function_end_re (line_at clean_lines (i + suc n)) ≡ true
    → ((run_lines filename clean_lines i (suc (suc n)) f l).0.in_a_function ≡ false)
      × ((run_lines filename clean_lines i (suc (suc n)) f l).1.state.error_count
          ≡ l.state.error_count
            + (if ltb
                    (base_trigger (function_title (line_at clean_lines i) joined)
                      * 2 ^ l.state.verbose_level)
                    (non_blank clean_lines (i + 1) n)
                  && leb l.state.verbose_level 5
                  && not (is_silenced (i + suc n) l)
                then 1
                else 0))
unfolding run_lines
run_lines-error_count filename clean_lines i n joined f l s b inner s' e =
    let title = function_title (line_at clean_lines i) joined in
    let inside = record (begin title f) { lines_in_function = non_blank clean_lines (i + 1) n } in
    let opened = opening-line filename clean_lines i joined f l s b in
    let closed =
      ap
        (λ (r : FunctionState × Linter).
          check_for_function_lengths filename clean_lines (i + suc n) r.0 r.1)
        (lines-of_body filename clean_lines i n title f l opened inner)
      ∙ closing-line filename clean_lines (i + suc n) inside l s' e in
    (
      ap (λ (r : FunctionState × Linter). r.0.in_a_function) closed,
      ap (λ (r : FunctionState × Linter). r.1.state.error_count) closed
          ∙ check-error_count filename (i + suc n) inside l,
    )
