-- ===== src/Checks/Parentheses.antt =====
-- build_support/cpplint.py: CheckParenthesisSpacing and CheckCommaSpacing.
use concurrency_tcp_server.Base.{
  Bool, List, Text, [], codes, get_or, is_space, length, ltb, none, not, some, text_eq, ℕ, ◌&&◌,
  ◌++◌, ◌+◌, ◌==◌, ◌||◌, ◌∷◌,
}
use concurrency_tcp_server.Regex.{
  Found, Regex, char_in, eol, group, group_text, search_re, searches, star, sub, word_boundary,
}
use concurrency_tcp_server.Regex.Forms.{
  any_lit, dot, in_set, lit, none_of, plus, set_of, spaces, ◌⊙◌,
}
use concurrency_tcp_server.Lines.Cleansed.{CleansedLines}
use concurrency_tcp_server.Lines.RawStrings.{group_or_empty}
use concurrency_tcp_server.Lint.Report.{Report, say, say_if}

--  (if\(|for\(|while\(|switch\()
abbrev pub no_space_re : Regex
no_space_re =
    lit " " ⊙ group 1 (any_lit (codes "if(" ∷ codes "for(" ∷ codes "while(" ∷ codes "switch(" ∷ []))

-- \b(if|for|while|switch)\s*\(([ ]*)(.).*[^ ]+([ ]*)\)\s*{\s*$
abbrev pub inside_re : Regex
inside_re =
    word_boundary
    ⊙ group 1 (any_lit (codes "if" ∷ codes "for" ∷ codes "while" ∷ codes "switch" ∷ []))
    ⊙ spaces
    ⊙ lit "("
    ⊙ group 2 (star (set_of " "))
    ⊙ group 3 dot
    ⊙ star dot
    ⊙ plus (none_of " ")
    ⊙ group 4 (star (set_of " "))
    ⊙ lit ")"
    ⊙ spaces
    ⊙ lit "{"
    ⊙ spaces
    ⊙ eol

-- \bfor\s*\(.*; \)
abbrev pub for_end_re : Regex
for_end_re = word_boundary ⊙ lit "for" ⊙ spaces ⊙ lit "(" ⊙ star dot ⊙ lit "; )"

-- \boperator\s*,\s*\(
abbrev pub operator_comma_re : Regex
operator_comma_re = word_boundary ⊙ lit "operator" ⊙ spaces ⊙ lit "," ⊙ spaces ⊙ lit "("

-- ,[^,\s]
abbrev pub comma_re : Regex
comma_re = lit "," ⊙ char_in (λ c. not (in_set "," c || is_space c))

-- ;[^\s};\\)/]
abbrev pub semicolon_re : Regex
semicolon_re = lit ";" ⊙ char_in (λ c. not (in_set "};\\)/" c || is_space c))

unfoldable pub before_calls : Text → ℕ → Text → List Report
unfolding search_re group_text
before_calls filename linenum line = elim (search_re no_space_re line) [
  | none ↦ []
  | some m ↦
      say filename linenum "whitespace/parens" 5
        (codes "Missing space before ( in " ++ group_or_empty 1 m)
]

-- The exceptions for `for`.
unfoldable pub may_mismatch : Text → Found → Bool
unfolding group_text searches text_eq
may_mismatch line m =
    let left = length (group_or_empty 2 m) in
    let right = length (group_or_empty 4 m) in
    text_eq (group_or_empty 3 m) (codes ";") && left == 1 + right
    || left == 0 && searches for_end_re line

unfoldable pub inside_calls : Text → ℕ → Text → List Report
unfolding search_re group_text may_mismatch
inside_calls filename linenum line = elim (search_re inside_re line) [
  | none ↦ []
  | some m ↦
      say_if
        (not (length (group_or_empty 2 m) == length (group_or_empty 4 m))
          && not (may_mismatch line m))
        (say filename linenum "whitespace/parens" 5
          (codes "Mismatching spaces inside () in " ++ group_or_empty 1 m))
      ++ say_if (ltb 1 (length (group_or_empty 2 m))) (
          say filename linenum "whitespace/parens" 5
            (codes "Should have zero or one spaces inside ( and ) in " ++ group_or_empty 1 m))
]

-- CheckParenthesisSpacing
unfoldable pub check_parenthesis_spacing : Text → CleansedLines → ℕ → List Report
unfolding before_calls inside_calls
check_parenthesis_spacing filename clean linenum =
    let line = get_or clean.elided linenum [] in
    before_calls filename linenum line ++ inside_calls filename linenum line

-- CheckCommaSpacing
unfoldable pub check_comma_spacing : Text → CleansedLines → ℕ → List Report
unfolding searches sub
check_comma_spacing filename clean linenum =
    let line = get_or clean.elided linenum [] in
    say_if
      (searches comma_re (sub operator_comma_re (codes "F(") line)
        && searches comma_re (get_or clean.lines_without_raw_strings linenum []))
      (say filename linenum "whitespace/comma" 3 (codes "Missing space after ,"))
    ++ say_if (searches semicolon_re line)
        (say filename linenum "whitespace/semicolon" 3 (codes "Missing space after ;"))
