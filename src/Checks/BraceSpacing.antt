-- ===== src/Checks/BraceSpacing.antt =====
-- build_support/cpplint.py: _IsType, CheckBracesSpacing and IsDecltype.
use concurrency_tcp_server.Base.{
  Bool, List, Option, Text, [], codes, drop, false, get_or, if◌then◌else◌, is_space, leb, length,
  ltb, none, not, some, suc, take, true, zero, ℕ, ◌&&◌, ◌++◌, ◌+◌, ◌-◌, ◌||◌, ◌∷◌,
}
use concurrency_tcp_server.Regex.{
  Regex, bol, char_in, eol, eps, group, group_text, match_re, matches, searches, star,
  word_boundary,
}
use concurrency_tcp_server.Regex.Forms.{
  any_lit, dot, in_set, lit, literal, non_space, none_of, opt, plus, set_of, space, spaces, ◌∣∣◌,
  ◌⊙◌,
}
use concurrency_tcp_server.Lines.Cleansed.{CleansedLines}
use concurrency_tcp_server.Lines.RawStrings.{group_or_empty}
use concurrency_tcp_server.Lint.Report.{Report, say, say_if}
use concurrency_tcp_server.Nesting.Block.{Block, NestingState, is_namespace}
use concurrency_tcp_server.Checks.Places.{closing_place, contains, opening_place}

-- ^.*(\b\S+)$
abbrev pub last_token_re : Regex
last_token_re = bol ⊙ star dot ⊙ group 1 (word_boundary ⊙ plus non_space) ⊙ eol

-- ^(?:(char(16_t|32_t)?)|wchar_t|bool|short|int|long|signed|unsigned|float|double|(ptrdiff_t|size_t|max_align_t|nullptr_t)|(u?int(_fast|_least)?(8|16|32|64)_t)|(u?int(max|ptr)_t)|)$
abbrev pub types_re : Regex
types_re =
    bol
    ⊙ ((group 1 (lit "char" ⊙ opt (group 2 (any_lit (codes "16_t" ∷ codes "32_t" ∷ [])))))
        ∣∣ lit "wchar_t"
        ∣∣ lit "bool"
        ∣∣ lit "short"
        ∣∣ lit "int"
        ∣∣ lit "long"
        ∣∣ lit "signed"
        ∣∣ lit "unsigned"
        ∣∣ lit "float"
        ∣∣ lit "double"
        ∣∣ group 3 (
            any_lit
              (codes "ptrdiff_t" ∷ codes "size_t" ∷ codes "max_align_t" ∷ codes "nullptr_t" ∷ []))
        ∣∣ (group 4 (
            opt (lit "u")
            ⊙ lit "int"
            ⊙ opt (group 5 (any_lit (codes "_fast" ∷ codes "_least" ∷ [])))
            ⊙ group 6 (any_lit (codes "8" ∷ codes "16" ∷ codes "32" ∷ codes "64" ∷ []))
            ⊙ lit "_t"))
        ∣∣ (group 7 (
            opt (lit "u")
            ⊙ lit "int"
            ⊙ group 8 (any_lit (codes "max" ∷ codes "ptr" ∷ []))
            ⊙ lit "_t"))
        ∣∣ eps)
    ⊙ eol

-- ^(.*[^ ({>]){
abbrev pub brace_head_re : Regex
brace_head_re = bol ⊙ group 1 (star dot ⊙ none_of " ({>") ⊙ lit "{"

-- ^[\s}]*[{.;,)<>\]:]
abbrev pub brace_tail_re : Regex
brace_tail_re = bol ⊙ star (char_in (λ c. in_set "}" c || is_space c)) ⊙ set_of "{.;,)<>]:"

-- }else
abbrev pub close_else_re : Regex
close_else_re = lit "}else"

-- :\s*;\s*$
abbrev pub colon_semicolon_re : Regex
colon_semicolon_re = lit ":" ⊙ spaces ⊙ lit ";" ⊙ spaces ⊙ eol

-- ^\s*;\s*$
abbrev pub only_semicolon_re : Regex
only_semicolon_re = bol ⊙ spaces ⊙ lit ";" ⊙ spaces ⊙ eol

-- \s+;\s*$
abbrev pub spaced_semicolon_re : Regex
spaced_semicolon_re = plus space ⊙ lit ";" ⊙ spaces ⊙ eol

-- \bfor\b
abbrev pub for_word_re : Regex
for_word_re = word_boundary ⊙ lit "for" ⊙ word_boundary

-- \bdecltype\s*$
abbrev pub decltype_re : Regex
decltype_re = word_boundary ⊙ lit "decltype" ⊙ spaces ⊙ eol

unfoldable pub last_token : Text → Text
unfolding match_re group_text
last_token expr = elim (match_re last_token_re expr) [ none ↦ expr | some m ↦ group_or_empty 1 m ]

-- \b(?:typename|class|struct)\s+token\b
abbrev pub typename_re : Text → Regex
typename_re token =
    word_boundary
    ⊙ any_lit (codes "typename" ∷ codes "class" ∷ codes "struct" ∷ [])
    ⊙ plus space
    ⊙ literal token
    ⊙ word_boundary

-- first_line goes up from `low + n`, down to `low`, to a line with the word template.
unfoldable pub find_template : List Text → ℕ → ℕ → Option ℕ
unfolding contains
find_template elided low zero =
    if contains (codes "template") (get_or elided low []) then some low else none
find_template elided low (suc n) =
    let further = find_template elided low n in
    if contains (codes "template") (get_or elided (low + suc n) [])
    then some (low + suc n)
    else further

any_typename : Text → List Text → Bool
unfolding searches
any_typename token [] = false
any_typename token (line ∷ rest) = searches (typename_re token) line || any_typename token rest

abbrev next_block_start : List Block → ℕ
next_block_start [] = 0
next_block_start (b ∷ _) = b.starting_linenum

-- A block with the blocks below it: the lines from its `template` to its first line. A block that began
-- above the one below it has no such lines.
unfoldable pub declares_in_block : List Text → Text → Block → List Block → Bool
unfolding find_template any_typename
declares_in_block elided token b below =
    let last_line = b.starting_linenum in
    let low = next_block_start below in
    if ltb last_line low then false else elim (find_template elided low (last_line - low)) [
      | none ↦ false
      | some first ↦ any_typename token (take (last_line + 1 - first) (drop first elided))
    ]

-- The walk up the stack of blocks, which ends at a namespace.
unfoldable pub declared_above : List Text → Text → List Block → Bool
unfolding declares_in_block
declared_above elided token [] = false
declared_above elided token (b ∷ below) =
    let further = declared_above elided token below in
    if is_namespace b
    then false
    else if declares_in_block elided token b below
    then true
    else further

-- _IsType
unfoldable pub is_type : CleansedLines → NestingState → Text → Bool
unfolding last_token declared_above matches
is_type clean s expr =
    let token = last_token expr in
    if matches types_re token then true else declared_above clean.elided token s.stack

joined : List Text → Text
joined [] = []
joined (line ∷ rest) = line ++ joined rest

-- The text behind the closing brace, and up to two lines below; empty if no brace closes.
unfoldable pub trailing_text : CleansedLines → Option (Text × ℕ × ℕ) → Text
unfolding joined
trailing_text clean none = []
trailing_text clean (some (endline, endlinenum, endpos)) =
    let stop =
      if leb (endlinenum + 3) (clean.num_lines - 1) then endlinenum + 3 else clean.num_lines - 1 in
    drop endpos endline
    ++ joined (take (stop - (endlinenum + 1)) (drop (endlinenum + 1) clean.elided))

unfoldable pub brace_calls : Text → CleansedLines → ℕ → NestingState → List Report
unfolding match_re group_text matches is_type trailing_text closing_place
brace_calls filename clean linenum s =
    elim (match_re brace_head_re (get_or clean.elided linenum [])) [
      | none ↦ []
      | some m ↦
          let leading_text = group_or_empty 1 m in
          let trailing =
            trailing_text clean (closing_place clean.elided linenum (length leading_text)) in
          say_if (not (matches brace_tail_re trailing) && not (is_type clean s leading_text))
            (say filename linenum "whitespace/braces" 5 (codes "Missing space before {"))
    ]

unfoldable pub last_semicolon_calls : Text → ℕ → Text → List Report
unfolding searches
last_semicolon_calls filename linenum line =
    if searches colon_semicolon_re line
    then say filename linenum "whitespace/semicolon" 5
        (codes "Semicolon defining empty statement. Use {} instead.")
    else if searches only_semicolon_re line
    then say filename linenum "whitespace/semicolon" 5 (
        codes "Line contains only semicolon. If this should be an empty statement, use {} instead.")
    else say_if (searches spaced_semicolon_re line && not (searches for_word_re line)) (
        say filename linenum "whitespace/semicolon" 5 (
          codes
            "Extra space before last semicolon. If this should be an empty statement, use {} instead."))

-- CheckBracesSpacing
unfoldable pub check_braces_spacing : Text → CleansedLines → ℕ → NestingState → List Report
unfolding brace_calls searches last_semicolon_calls
check_braces_spacing filename clean linenum s =
    let line = get_or clean.elided linenum [] in
    brace_calls filename clean linenum s
    ++ say_if (searches close_else_re line)
        (say filename linenum "whitespace/braces" 5 (codes "Missing space before else"))
    ++ last_semicolon_calls filename linenum line

-- IsDecltype
unfoldable pub is_decltype : CleansedLines → ℕ → ℕ → Bool
unfolding opening_place searches
is_decltype clean linenum column = elim (opening_place clean.elided linenum column) [
  | none ↦ false
  | some (text, _, start_col) ↦ searches decltype_re (take start_col text)
]
