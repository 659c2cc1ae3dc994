-- ===== src/Checks/Braces.antt =====
-- build_support/cpplint.py: CheckBraces.
use concurrency_tcp_server.Base.{
  Bool, List, Option, Text, [], codes, drop, find, find_from, get_or, if◌then◌else◌, is_some,
  length, ltb, none, not, or_default, some, ℕ, ◌&&◌, ◌++◌, ◌+◌, ◌-◌, ◌==◌, ◌||◌, ◌∷◌,
}
use concurrency_tcp_server.Regex.{Found, matches, search_re, searches, stop_at}
use concurrency_tcp_server.Lines.Cleansed.{CleansedLines}
use concurrency_tcp_server.Lint.Report.{Report, say, say_if}
use concurrency_tcp_server.Nesting.Block.{get_indent_level}
use concurrency_tcp_server.Expression.{Closing, close_expression}
use concurrency_tcp_server.Checks.Places.{contains, get_previous_non_blank_line, text_of}
use concurrency_tcp_server.Checks.Width.{UnicodeData, get_line_width}
use concurrency_tcp_server.Checks.BracePatterns.{
  only_brace_re, open_end_re, preprocessor_re, else_re, only_close_brace_re, else_if_re,
  brace_else_if_re, brace_else_re, else_brace_re, else_clause_re, else_if_word_re, do_re,
  if_else_re, if_re, brace_next_re, spaces_end_re, semicolon_end_re, lambda_re, else_line_re,
}

-- line[pos:], where -1 is the last character
abbrev pub slice_from : Option ℕ → Text → Text
slice_from none line = drop (length line - 1) line
slice_from (some p) line = drop p line

-- What CloseExpression returns at a character of the line.
abbrev pub closing_of : Option Closing → Closing
closing_of none = ([], 0, none)
closing_of (some r) = r

-- A brace at the start of a line.
unfoldable pub brace_line_calls : UnicodeData → ℕ → Text → CleansedLines → ℕ → List Report
unfolding searches matches contains get_line_width get_previous_non_blank_line
brace_line_calls u line_length filename clean linenum =
    let prevline = text_of (get_previous_non_blank_line clean linenum) in
    say_if
      (matches only_brace_re (get_or clean.elided linenum [])
        && not (searches open_end_re prevline)
        && not (matches preprocessor_re prevline)
        && not (ltb line_length (get_line_width u prevline + 2) && contains (codes "[]") prevline))
      (say filename linenum "whitespace/braces" 4
        (codes "{ should almost always be at the end of the previous line"))

unfoldable pub else_line_calls : Text → CleansedLines → ℕ → List Report
unfolding matches get_previous_non_blank_line
else_line_calls filename clean linenum =
    say_if
      (matches else_re (get_or clean.elided linenum [])
        && matches only_close_brace_re (text_of (get_previous_non_blank_line clean linenum)))
      (say filename linenum "whitespace/newline" 4
        (codes "An else should appear on the same line as the preceding }"))

-- pos = line.find('(', line.find('else if')), where the position counts if it is greater than 0
unfoldable pub else_if_position : Text → Option ℕ
unfolding find find_from
else_if_position line = elim (find (codes "else if") line) [
  | none ↦ none
  | some i ↦ find_from i (codes "(") line
]

abbrev pub one_side : Text → ℕ → List Report
one_side filename linenum =
    say filename linenum "readability/braces" 5
      (codes "If an else has a brace on one side, it should have it on both")

-- An `else if`: the brace on its left, and the one behind its condition.
else_if_calls : Text → List Text → ℕ → Text → Option ℕ → List Report
unfolding searches contains close_expression
else_if_calls filename elided linenum line none = []
else_if_calls filename elided linenum line (some pos) =
    let (endline, _, endpos) = closing_of (close_expression elided linenum pos) in
    let on_right = contains (codes "{") (slice_from endpos endline) in
    let on_left = searches brace_else_if_re line in
    say_if (ltb 0 pos && (if on_left then not on_right else on_right)) (one_side filename linenum)

unfoldable pub both_sides_calls : Text → List Text → ℕ → List Report
unfolding searches matches else_if_calls else_if_position
both_sides_calls filename elided linenum =
    let line = get_or elided linenum [] in
    if searches else_if_re line
    then else_if_calls filename elided linenum line (else_if_position line)
    else say_if (searches brace_else_re line || matches else_brace_re line)
        (one_side filename linenum)

unfoldable pub one_line_calls : Text → ℕ → Text → List Report
unfolding searches matches
one_line_calls filename linenum line =
    say_if (searches else_clause_re line && not (searches else_if_word_re line)) (
      say filename linenum "whitespace/newline" 4
        (codes "Else clause should never be on same line as else (use 2 lines)"))
    ++ say_if (matches do_re line) (
        say filename linenum "whitespace/newline" 4
          (codes "do/while clauses should not be on a single line"))

-- The loop that looks for a semicolon, in the lines from a position of the first on: the line that has it,
-- and the lines below.
unfoldable pub find_semicolon : ℕ → List Text → Option (Text × List Text)
unfolding contains
find_semicolon pos [] = none
find_semicolon pos (line ∷ rest) =
    let later = find_semicolon 0 rest in
    if contains (codes ";") (drop pos line) then some (line, rest) else later

abbrev multiple_statements : Text → ℕ → List Report
multiple_statements filename linenum =
    say filename linenum "readability/braces" 4
      (codes "If/else bodies with multiple statements require braces")

-- The line below the statement.
next_line_calls : Text → ℕ → ℕ → Bool → List Text → List Report
unfolding matches get_indent_level
next_line_calls filename linenum if_indent has_if [] = []
next_line_calls filename linenum if_indent has_if (next_line ∷ _) =
    let next_indent = get_indent_level next_line in
    if has_if && matches else_line_re next_line && not (next_indent == if_indent)
    then say filename linenum "readability/braces" 4 (
        codes
          "Else clause should be indented at the same level as if. Ambiguous nested if/else chains require braces.")
    else say_if (ltb if_indent next_indent) (multiple_statements filename linenum)

-- line[line.find(';'):]
from_semicolon : Text → Text
unfolding find
from_semicolon line = slice_from (find (codes ";") line) line

statement_calls : Text → ℕ → ℕ → Bool → Option (Text × List Text) → List Report
unfolding matches next_line_calls from_semicolon
statement_calls filename linenum if_indent has_if none = []
statement_calls filename linenum if_indent has_if (some (endline, rest)) =
    if not (matches semicolon_end_re (from_semicolon endline))
    then say_if (not (matches lambda_re endline)) (multiple_statements filename linenum)
    else next_line_calls filename linenum if_indent has_if rest

-- The end of the condition, or of the keyword.
unfoldable pub condition_end : List Text → ℕ → Text → Found → Option Found → Closing
unfolding close_expression
condition_end elided linenum line keyword none = (line, linenum, some (stop_at keyword))
condition_end elided linenum line keyword (some m) =
    closing_of (close_expression elided linenum (stop_at m - 1))

-- A brace directly behind the condition, or on the next line.
unfoldable pub has_brace : List Text → Closing → Bool
unfolding matches
has_brace elided (endline, endlinenum, endpos) =
    matches brace_next_re (slice_from endpos endline)
    || matches spaces_end_re (slice_from endpos endline)
      && ltb (endlinenum + 1) (length elided)
      && matches brace_next_re (get_or elided (endlinenum + 1) [])

body_calls : Text → List Text → ℕ → Text → Found → List Report
unfolding search_re has_brace condition_end statement_calls find_semicolon get_indent_level
body_calls filename elided linenum line keyword =
    let if_match = search_re if_re line in
    let (endline, endlinenum, endpos) = condition_end elided linenum line keyword if_match in
    if has_brace elided (endline, endlinenum, endpos)
    then []
    else statement_calls filename linenum (get_indent_level line) (is_some if_match)
        (find_semicolon (or_default 0 endpos) (drop endlinenum elided))

-- Bodies without braces have one statement, on lines of their own.
unfoldable pub single_line_calls : Text → List Text → ℕ → List Report
unfolding search_re matches body_calls
single_line_calls filename elided linenum =
    let line = get_or elided linenum [] in
    elim (search_re if_else_re line) [
      | none ↦ []
      | some keyword ↦
          if matches preprocessor_re line
          then []
          else body_calls filename elided linenum line keyword
    ]

-- CheckBraces
unfoldable pub check_braces : UnicodeData → ℕ → Text → CleansedLines → ℕ → List Report
unfolding brace_line_calls else_line_calls both_sides_calls one_line_calls single_line_calls
check_braces u line_length filename clean linenum =
    brace_line_calls u line_length filename clean linenum
    ++ else_line_calls filename clean linenum
    ++ both_sides_calls filename clean.elided linenum
    ++ one_line_calls filename linenum (get_or clean.elided linenum [])
    ++ single_line_calls filename clean.elided linenum
