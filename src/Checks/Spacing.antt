-- ===== src/Checks/Spacing.antt =====
-- build_support/cpplint.py: CheckSpacing.
use concurrency_tcp_server.Base.{
  Bool, List, Text, [], codes, drop, false, get_or, if◌then◌else◌, is_space, leb, length, lstrip,
  ltb, none, not, some, starts_with, suc, zero, ℕ, ◌&&◌, ◌++◌, ◌+◌, ◌-◌, ◌||◌, ◌∷◌,
}
use concurrency_tcp_server.Regex.{Regex, eol, group, group_text, match_re, matches, searches, star}
use concurrency_tcp_server.Regex.Forms.{
  any_lit, dot, exactly, lit, none_of, opt, plus, space, spaces, word, ◌∣∣◌, ◌⊙◌,
}
use concurrency_tcp_server.Lines.Cleansed.{CleansedLines}
use concurrency_tcp_server.Lines.RawStrings.{group_or_empty}
use concurrency_tcp_server.Lint.Report.{Report, say, say_if}
use concurrency_tcp_server.Nesting.Block.{NestingState, in_extern_c, in_namespace_body}
use concurrency_tcp_server.Files.{is_blank_line}
use concurrency_tcp_server.Checks.Places.{contains, previous_line, rfind}
use concurrency_tcp_server.Checks.Comments.{check_comment}

--  {6}\w
abbrev pub six_re : Regex
six_re = exactly 6 (lit " ") ⊙ word

--  {4}\w[^\(]*\)\s*(const\s*)?(\{\s*$|:)
abbrev pub header_end_re : Regex
header_end_re =
    exactly 4 (lit " ")
    ⊙ word
    ⊙ star (none_of "(")
    ⊙ lit ")"
    ⊙ spaces
    ⊙ opt (group 1 (lit "const" ⊙ spaces))
    ⊙ group 2 ((lit "{" ⊙ spaces ⊙ eol) ∣∣ lit ":")

--  {4}:
abbrev pub initializer_re : Regex
initializer_re = exactly 4 (lit " ") ⊙ lit ":"

-- \s*}
abbrev pub close_brace_re : Regex
close_brace_re = spaces ⊙ lit "}"

-- \s*(public|protected|private):
abbrev pub section_re : Regex
section_re =
    spaces ⊙ group 1 (any_lit (codes "public" ∷ codes "protected" ∷ codes "private" ∷ [])) ⊙ lit ":"

-- \w\s+\[
abbrev pub space_bracket_re : Regex
space_bracket_re = word ⊙ plus space ⊙ lit "["

-- (?:auto&?|delete|return)\s+\[
abbrev pub bracket_word_re : Regex
bracket_word_re =
    ((lit "auto" ⊙ opt (lit "&")) ∣∣ lit "delete" ∣∣ lit "return") ⊙ plus space ⊙ lit "["

-- for *\(.*[^:]:[^: ]
abbrev pub for_colon_re : Regex
for_colon_re =
    lit "for" ⊙ star (lit " ") ⊙ lit "(" ⊙ star dot ⊙ none_of ":" ⊙ lit ":" ⊙ none_of ": "

-- for *\(.*[^: ]:[^:]
abbrev pub for_colon_before_re : Regex
for_colon_before_re =
    lit "for" ⊙ star (lit " ") ⊙ lit "(" ⊙ star dot ⊙ none_of ": " ⊙ lit ":" ⊙ none_of ":"

-- search_position goes up, from n - 1, over the lines that are indented by six.
unfoldable pub above_initializers : List Text → ℕ → Bool
unfolding matches starts_with
above_initializers elided zero = false
above_initializers elided (suc n) =
    let further = above_initializers elided n in
    if matches six_re (get_or elided n [])
    then further
    else starts_with (codes "    :") (get_or elided n [])

-- The exceptions to the rule on blank lines at the start of a block.
unfoldable pub is_exception : List Text → ℕ → Text → Bool
unfolding above_initializers matches
is_exception elided linenum prev_line =
    if matches six_re prev_line
    then above_initializers elided (linenum - 1)
    else matches header_end_re prev_line || matches initializer_re prev_line

unfoldable pub opens_block : Text → Bool
unfolding rfind contains
opens_block prev_line = elim (rfind b'{' prev_line) [
  | none ↦ false
  | some i ↦ not (contains (codes "}") (drop i prev_line))
]

unfoldable pub blank_start_calls : Text → List Text → ℕ → List Report
unfolding opens_block is_exception
blank_start_calls filename elided linenum =
    let prev_line = previous_line elided linenum in
    say_if (opens_block prev_line && not (is_exception elided linenum prev_line)) (
      say filename linenum "whitespace/blank_line" 2
        (codes "Redundant blank line at the start of a code block should be deleted."))

unfoldable pub blank_end_calls : Text → CleansedLines → ℕ → List Report
unfolding contains matches
blank_end_calls filename clean linenum =
    let next_line = get_or clean.lines_without_raw_strings (linenum + 1) [] in
    say_if
      (ltb (linenum + 1) clean.num_lines
        && leb 1 (length next_line)
        && matches close_brace_re next_line
        && not (contains (codes "} else ") next_line))
      (say filename linenum "whitespace/blank_line" 3
        (codes "Redundant blank line at the end of a code block should be deleted."))

unfoldable pub blank_section_calls : Text → List Text → ℕ → List Report
unfolding match_re group_text
blank_section_calls filename elided linenum =
    elim (match_re section_re (previous_line elided linenum)) [
      | none ↦ []
      | some m ↦
          say filename linenum "whitespace/blank_line" 3
            (codes "Do not leave a blank line after \"" ++ group_or_empty 1 m ++ codes ":\"")
    ]

-- The checks of a blank line.
unfoldable pub blank_line_calls : Text → CleansedLines → ℕ → NestingState → List Report
unfolding blank_start_calls blank_end_calls blank_section_calls is_space
blank_line_calls filename clean linenum s =
    if is_blank_line (get_or clean.lines_without_raw_strings linenum [])
      && not (in_namespace_body s)
      && not (in_extern_c s)
    then blank_start_calls filename clean.elided linenum
      ++ blank_end_calls filename clean linenum
      ++ blank_section_calls filename clean.elided linenum
    else []

-- next_line_start
unfoldable pub next_line_start : CleansedLines → ℕ → ℕ
unfolding lstrip
next_line_start clean linenum =
    let next_line = get_or clean.lines_without_raw_strings (linenum + 1) [] in
    if ltb (linenum + 1) clean.num_lines then length next_line - length (lstrip next_line) else 0

unfoldable pub bracket_calls : Text → ℕ → Text → List Report
unfolding searches
bracket_calls filename linenum line =
    say_if (searches space_bracket_re line && not (searches bracket_word_re line))
      (say filename linenum "whitespace/braces" 5 (codes "Extra space before ["))
    ++ say_if (searches for_colon_re line || searches for_colon_before_re line) (
        say filename linenum "whitespace/forcolon" 2
          (codes "Missing space around colon in range-based for loop"))

-- CheckSpacing
unfoldable pub check_spacing : Text → CleansedLines → ℕ → NestingState → List Report
unfolding blank_line_calls check_comment next_line_start bracket_calls
check_spacing filename clean linenum s =
    blank_line_calls filename clean linenum s
    ++ check_comment (get_or clean.lines_without_raw_strings linenum []) filename linenum
        (next_line_start clean linenum)
    ++ bracket_calls filename linenum (get_or clean.elided linenum [])
