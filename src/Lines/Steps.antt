-- ===== src/Lines/Steps.antt =====
-- How the loop of RemoveMultiLineComments (build_support/cpplint.py) goes on behind the lines that it has passed.
use mathlib.Core.Option
use concurrency_tcp_server.Base.{
  ℕ, suc, ◌+◌, ◌-◌, ◌<◌, ◌≡◌, refl, ap, ◌∙◌, true, Option, none, some, List, ◌∷◌, ◌++◌, Text, arith,
  length, or_default, append_assoc, length-append,
}
use concurrency_tcp_server.Lint.Report.{Linter, error}
use concurrency_tcp_server.Lines.Comments.{
  begins_comment, ends_comment, find_first, find_next_multi_line_comment_start,
  find_next_multi_line_comment_end, clear_lines, remove_multi_line_comments_from_range, no_end,
  remove_go,
}
use concurrency_tcp_server.Lines.Removal.{none_of, find_first-none, Cleaned, clean, unfinished}
use concurrency_tcp_server.Lines.Rounds.{
  start_at, end_at, remove_go-clean, remove_go-unfinished, remove_go-round,
}

-- What the removal reports of a comment that does not end, at a line below `base`.
abbrev pub reported : Text → ℕ → Option ℕ → Linter → Linter
reported filename base none l = l
reported filename base (some k) l = error (no_end filename (base + k)) l

-- The loop returns, with the lines above untouched and those below cleaned.
pub record Returns (fuel : ℕ) (filename : Text) (pre rest : List Text) (l : Linter) : Type 0 where
  pub out : List Text
  pub unended : Option ℕ
  pub gives :
      remove_go fuel filename (length pre) (pre ++ rest) l
      ≡ some (pre ++ out, reported filename (length pre) unended l)
  pub cleaned : Cleaned rest out unended

length-pre-cons :
    (pre : List Text) (x : Text) (rest : List Text) → length pre < length (pre ++ (x ∷ rest))
length-pre-cons pre x rest = omega (arith, length-append pre (x ∷ rest))

module _ (fuel : ℕ) (filename : Text) (pre : List Text) (x : Text) (ls : List Text)
    (l : Linter) where
  abbrev rest : List Text
  rest = x ∷ ls

  pub Returns-clean : find_first begins_comment rest ≡ none → Returns (suc fuel) filename pre rest l
  Returns-clean e = record {
    out = rest;
    unended = none;
    gives = remove_go-clean fuel filename (length pre) (pre ++ rest) l (
        omega (
          arith,
          start_at pre rest
              ∙ ap
                  (λ (o : Option ℕ).
                    or_default (length (pre ++ rest)) (Option.map (λ k. length pre + k) o))
                  e,
        ));
    cleaned = clean refl (find_first-none begins_comment rest e);
  }

found_at :
    (base n k : ℕ) {o : Option ℕ}
    → o ≡ some k
    → or_default n (Option.map (λ j. base + j) o) ≡ base + k
found_at base n k e = rw e

not_found : (base n : ℕ) {o : Option ℕ} → o ≡ none → or_default n (Option.map (λ j. base + j) o) ≡ n
not_found base n e = rw e

-- The first comment begins with `x`, behind `a`.
module _ (fuel : ℕ) (filename : Text) (pre a : List Text) (x : Text) (b : List Text) (l : Linter)
    (first : find_first begins_comment (a ++ (x ∷ b)) ≡ some (length a)) where
  abbrev lines : List Text
  lines = pre ++ (a ++ (x ∷ b))

  begin-is : find_next_multi_line_comment_start lines (length pre) ≡ length pre + length a
  begin-is = start_at pre (a ++ (x ∷ b)) ∙ found_at (length pre) (length lines) (length a) first

  stop-is :
      find_next_multi_line_comment_end lines (length pre + length a)
      ≡ or_default
          (length lines)
          (Option.map (λ j. length pre + length a + j) (find_first ends_comment (x ∷ b)))
  stop-is =
      let e = end_at (pre ++ a) (x ∷ b) in rw (append_assoc pre a (x ∷ b), length-append pre a) at e

  length-lines : length lines ≡ length pre + length a + suc (length b)
  length-lines = omega (arith, length-append pre (a ++ (x ∷ b)), length-append a (x ∷ b))

  pub Returns-unfinished :
      none_of begins_comment a ≡ true
      → begins_comment x ≡ true
      → find_first ends_comment (x ∷ b) ≡ none
      → Returns (suc fuel) filename pre (a ++ (x ∷ b)) l
  Returns-unfinished na bx e = record {
    out = a ++ (x ∷ b);
    unended = some (length a);
    gives =
        remove_go-unfinished fuel filename (length pre) lines l (omega (arith, length-lines))
          (omega (arith, length-lines, begin-is))
          (omega (
            arith,
            ap (find_next_multi_line_comment_end lines) begin-is,
            stop-is,
            not_found (length pre + length a) (length lines) e,
          ))
        ∙ ap (λ (n : ℕ). some (lines, error (no_end filename n) l)) begin-is;
    cleaned = unfinished a x b na bx (find_first-none ends_comment (x ∷ b) e) refl refl;
  }

  range-goes_on :
      (at k : ℕ)
      → remove_go fuel filename
          (at + k + 1)
          (remove_multi_line_comments_from_range lines at (at + k + 1))
          l
        ≡ remove_go fuel filename (at + suc k) (clear_lines (suc k) at lines) l
  unfolding remove_multi_line_comments_from_range
  range-goes_on at k =
      let next : at + k + 1 ≡ at + suc k = omega arith in
      let rounds : at + k + 1 - at ≡ suc k = omega arith in
      ap (λ (n : ℕ). remove_go fuel filename n (clear_lines (at + k + 1 - at) at lines) l) next
      ∙ ap (λ (n : ℕ). remove_go fuel filename (at + suc k) (clear_lines n at lines) l) rounds

  pub round-goes_on :
      (k : ℕ)
      → k < suc (length b)
      → find_first ends_comment (x ∷ b) ≡ some k
      → remove_go (suc fuel) filename (length pre) lines l
        ≡ remove_go fuel filename
            (length pre + length a + suc k)
            (clear_lines (suc k) (length pre + length a) lines)
            l
  round-goes_on k le e =
      let at = length pre + length a in
      let stop-k : find_next_multi_line_comment_end lines
            (find_next_multi_line_comment_start lines (length pre))
          ≡ at + k =
        ap (find_next_multi_line_comment_end lines) begin-is
        ∙ stop-is
        ∙ found_at at (length lines) k e in
      remove_go-round fuel filename (length pre) lines l (omega (arith, length-lines))
        (omega (arith, length-lines, begin-is)) (omega (arith, length-lines, stop-k))
      ∙ ap
          (λ (n : ℕ).
            remove_go fuel filename (n + 1)
              (remove_multi_line_comments_from_range lines
                (find_next_multi_line_comment_start lines (length pre)) (n + 1))
              l)
          stop-k
      ∙ ap
          (λ (n : ℕ).
            remove_go fuel filename (at + k + 1)
              (remove_multi_line_comments_from_range lines n (at + k + 1)) l)
          begin-is
      ∙ range-goes_on at k
