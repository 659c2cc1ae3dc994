-- ===== src/Checks/EmptyBodies.antt =====
-- build_support/cpplint.py: CheckEmptyBlockBody.
use concurrency_tcp_server.Base.{
  Bool, List, Option, Text, [], codes, drop, false, find, get_or, if◌then◌else◌, ltb, none, not,
  or_default, some, take, text_eq, true, ℕ, ◌&&◌, ◌++◌, ◌+◌, ◌-◌, ◌==◌, ◌∷◌,
}
use concurrency_tcp_server.Regex.{
  Regex, ahead, bol, eol, group, group_text, match_re, not_ahead, searches,
}
use concurrency_tcp_server.Regex.Forms.{any_lit, lit, spaces, ◌∣∣◌, ◌⊙◌}
use concurrency_tcp_server.Lines.Cleansed.{CleansedLines}
use concurrency_tcp_server.Lines.RawStrings.{group_or_empty}
use concurrency_tcp_server.Lines.Collapse.{cleanse_comments}
use concurrency_tcp_server.Lint.Report.{Report, say, say_if}
use concurrency_tcp_server.Checks.Places.{closing_place}

-- \s*(for|while|if)\s*\(
abbrev pub loop_re : Regex
loop_re =
    spaces ⊙ group 1 (any_lit (codes "for" ∷ codes "while" ∷ codes "if" ∷ [])) ⊙ spaces ⊙ lit "("

-- ^\s*\{
abbrev pub opening_re : Regex
opening_re = bol ⊙ spaces ⊙ lit "{"

-- ^(?!\s*$)
abbrev pub some_text_re : Regex
some_text_re = bol ⊙ not_ahead (spaces ⊙ eol)

-- ^\s*$
abbrev pub empty_body_re : Regex
empty_body_re = bol ⊙ spaces ⊙ eol

-- ^\s*$|^(?=\s*else)
abbrev pub blank_or_else_re : Regex
blank_or_else_re = (bol ⊙ spaces ⊙ eol) ∣∣ (bol ⊙ ahead (spaces ⊙ lit "else"))

-- ^(?=\s*else)
abbrev pub else_ahead_re : Regex
else_ahead_re = bol ⊙ ahead (spaces ⊙ lit "else")

-- The loop that looks for the opening brace, in the rest of a line and the lines below: the number of its
-- line and the text that is left of it.
unfoldable pub find_body_brace : ℕ → Text → List Text → Option (ℕ × Text)
unfolding searches
find_body_brace n fragment [] = if searches opening_re fragment then some (n, fragment) else none
find_body_brace n fragment (next ∷ rest) =
    let later = find_body_brace (n + 1) next rest in
    if searches opening_re fragment
    then some (n, fragment)
    else if searches some_text_re fragment
    then none
    else later

-- The loop that looks for an else clause.
unfoldable pub no_else : Text → List Text → Bool
unfolding searches
no_else fragment [] = not (searches else_ahead_re fragment)
no_else fragment (next ∷ rest) =
    let later = no_else next rest in
    if searches blank_or_else_re fragment
    then if searches else_ahead_re fragment then false else later
    else true

join_lines : List Text → Text
join_lines [] = []
join_lines (line ∷ []) = line
join_lines (line ∷ next ∷ rest) = line ++ codes "\n" ++ join_lines (next ∷ rest)

-- list(text)
one_by_one : Text → List Text
one_by_one [] = []
one_by_one (c ∷ s) = (c ∷ []) ∷ one_by_one s

-- The text between the braces.
unfoldable pub body_text : CleansedLines → ℕ → ℕ → ℕ → ℕ → Text
unfolding join_lines one_by_one
body_text clean opening_linenum opening_pos closing_linenum closing_pos =
    let opening_line = get_or clean.elided opening_linenum [] in
    if ltb opening_linenum closing_linenum
    then join_lines (
        one_by_one (drop (opening_pos + 1) opening_line)
        ++ take (closing_linenum - (opening_linenum + 1))
            (drop (opening_linenum + 1) clean.raw_lines)
        ++ (take (closing_pos - 1) (get_or clean.elided closing_linenum []) ∷ []))
    else drop (opening_pos + 1) (take (closing_pos - 1) opening_line)

-- The body between the braces, which are closed at a place.
empty_body_calls : Text → CleansedLines → ℕ → ℕ → ℕ → Option (Text × ℕ × ℕ) → List Report
unfolding cleanse_comments searches text_eq body_text no_else
empty_body_calls filename clean end_linenum opening_linenum opening_pos none = []
empty_body_calls filename clean end_linenum opening_linenum opening_pos
      (some (closing_line, closing_linenum, closing_pos)) =
    let raw = get_or clean.raw_lines opening_linenum [] in
    say_if
      (text_eq raw (cleanse_comments raw)
        && searches empty_body_re
            (body_text clean opening_linenum opening_pos closing_linenum closing_pos)
        && no_else (drop closing_pos closing_line) (drop (closing_linenum + 1) clean.elided))
      (say filename end_linenum "whitespace/empty_if_body" 4
        (codes "If statement had no body and no else clause"))

-- opening_pos, counted from the start of its line
opening_position : ℕ → ℕ → ℕ → Text → ℕ
unfolding find
opening_position end_linenum end_pos opening_linenum fragment =
    or_default 0 (find (codes "{") fragment)
    + (if opening_linenum == end_linenum then end_pos else 0)

if_body_calls : Text → CleansedLines → ℕ → ℕ → Option (ℕ × Text) → List Report
unfolding opening_position closing_place empty_body_calls
if_body_calls filename clean end_linenum end_pos none = []
if_body_calls filename clean end_linenum end_pos (some (opening_linenum, fragment)) =
    let pos = opening_position end_linenum end_pos opening_linenum fragment in
    empty_body_calls filename clean end_linenum opening_linenum pos
      (closing_place clean.elided opening_linenum pos)

semicolon_calls : Text → ℕ → Bool → Text → List Report
semicolon_calls filename end_linenum is_if [] = []
semicolon_calls filename end_linenum is_if (c ∷ _) = say_if (c == b';') (
    if is_if
    then say filename end_linenum "whitespace/empty_conditional_body" 5
        (codes "Empty conditional bodies should use {}")
    else say filename end_linenum "whitespace/empty_loop_body" 5
        (codes "Empty loop bodies should use {} or continue"))

condition_calls : Text → CleansedLines → Bool → Option (Text × ℕ × ℕ) → List Report
unfolding semicolon_calls if_body_calls find_body_brace
condition_calls filename clean is_if none = []
condition_calls filename clean is_if (some (end_line, end_linenum, end_pos)) =
    semicolon_calls filename end_linenum is_if (drop end_pos end_line)
    ++ say_if is_if (
        if_body_calls filename clean end_linenum end_pos (
          find_body_brace end_linenum (drop end_pos end_line)
            (drop (end_linenum + 1) clean.elided)))

-- CheckEmptyBlockBody
unfoldable pub check_empty_block_body : Text → CleansedLines → ℕ → List Report
unfolding match_re group_text find text_eq closing_place condition_calls
check_empty_block_body filename clean linenum =
    let line = get_or clean.elided linenum [] in
    elim (match_re loop_re line) [
      | none ↦ []
      | some m ↦
          condition_calls filename clean (text_eq (group_or_empty 1 m) (codes "if"))
            (closing_place clean.elided linenum (or_default 0 (find (codes "(") line)))
    ]
