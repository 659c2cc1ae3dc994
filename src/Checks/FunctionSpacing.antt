-- ===== src/Checks/FunctionSpacing.antt =====
-- build_support/cpplint.py: CheckSpacingForFunctionCall.
use concurrency_tcp_server.Base.{
  List, String, Text, [], codes, get_or, if◌then◌else◌, is_space, none, not, some, ℕ, ◌&&◌, ◌++◌,
  ◌||◌, ◌∷◌,
}
use concurrency_tcp_server.Regex.{
  Regex, bol, char_in, eol, group, group_text, not_ahead, search_re, searches, star, word_boundary,
}
use concurrency_tcp_server.Regex.Forms.{
  any_lit, dot, in_set, lit, none_of, plus, set_of, space, spaces, up_to, word, ◌∣∣◌, ◌⊙◌,
}
use concurrency_tcp_server.Lines.Cleansed.{CleansedLines}
use concurrency_tcp_server.Lines.RawStrings.{group_or_empty}
use concurrency_tcp_server.Lint.Report.{Report, say}

-- \bif\s*\((.*)\)\s*{
abbrev pub if_head_re : Regex
if_head_re =
    word_boundary ⊙ lit "if" ⊙ spaces ⊙ lit "(" ⊙ group 1 (star dot) ⊙ lit ")" ⊙ spaces ⊙ lit "{"

-- \bfor\s*\((.*)\)\s*{
abbrev pub for_head_re : Regex
for_head_re =
    word_boundary ⊙ lit "for" ⊙ spaces ⊙ lit "(" ⊙ group 1 (star dot) ⊙ lit ")" ⊙ spaces ⊙ lit "{"

-- \bwhile\s*\((.*)\)\s*[{;]
abbrev pub while_head_re : Regex
while_head_re =
    word_boundary
    ⊙ lit "while"
    ⊙ spaces
    ⊙ lit "("
    ⊙ group 1 (star dot)
    ⊙ lit ")"
    ⊙ spaces
    ⊙ set_of "{;"

-- \bswitch\s*\((.*)\)\s*{
abbrev pub switch_head_re : Regex
switch_head_re =
    word_boundary
    ⊙ lit "switch"
    ⊙ spaces
    ⊙ lit "("
    ⊙ group 1 (star dot)
    ⊙ lit ")"
    ⊙ spaces
    ⊙ lit "{"

-- \b(if|for|while|switch|return|new|delete|catch|sizeof)\b
abbrev pub control_re : Regex
control_re =
    word_boundary
    ⊙ group 1 (
        any_lit (
          codes "if"
          ∷ codes "for"
          ∷ codes "while"
          ∷ codes "switch"
          ∷ codes "return"
          ∷ codes "new"
          ∷ codes "delete"
          ∷ codes "catch"
          ∷ codes "sizeof"
          ∷ []))
    ⊙ word_boundary

--  \([^)]+\)\([^)]*(\)|,$)
abbrev pub function_pointer_re : Regex
function_pointer_re =
    lit " ("
    ⊙ plus (none_of ")")
    ⊙ lit ")("
    ⊙ star (none_of ")")
    ⊙ group 1 (lit ")" ∣∣ (lit "," ⊙ eol))

--  \([^)]+\)\[[^\]]+\]
abbrev pub array_pointer_re : Regex
array_pointer_re = lit " (" ⊙ plus (none_of ")") ⊙ lit ")[" ⊙ plus (none_of "]") ⊙ lit "]"

-- \w\s*\(\s(?!\s*\\$)
abbrev pub space_in_call_re : Regex
space_in_call_re = word ⊙ spaces ⊙ lit "(" ⊙ space ⊙ not_ahead (spaces ⊙ lit "\\" ⊙ eol)

-- \(\s+(?!(\s*\\)|\()
abbrev pub space_after_paren_re : Regex
space_after_paren_re = lit "(" ⊙ plus space ⊙ not_ahead ((group 1 (spaces ⊙ lit "\\")) ∣∣ lit "(")

-- \w\s+\(
abbrev pub space_before_paren_re : Regex
space_before_paren_re = word ⊙ plus space ⊙ lit "("

-- _{0,2}asm_{0,2}\s+_{0,2}volatile_{0,2}\s+\(
abbrev pub asm_volatile_re : Regex
asm_volatile_re =
    up_to 2 (lit "_")
    ⊙ lit "asm"
    ⊙ up_to 2 (lit "_")
    ⊙ plus space
    ⊙ up_to 2 (lit "_")
    ⊙ lit "volatile"
    ⊙ up_to 2 (lit "_")
    ⊙ plus space
    ⊙ lit "("

-- #\s*define|typedef|using\s+\w+\s*=
abbrev pub define_typedef_re : Regex
define_typedef_re =
    (lit "#" ⊙ spaces ⊙ lit "define")
    ∣∣ lit "typedef"
    ∣∣ (lit "using" ⊙ plus space ⊙ plus word ⊙ spaces ⊙ lit "=")

-- \w\s+\((\w+::)*\*\w+\)\(
abbrev pub member_pointer_re : Regex
member_pointer_re =
    word
    ⊙ plus space
    ⊙ lit "("
    ⊙ star (group 1 (plus word ⊙ lit "::"))
    ⊙ lit "*"
    ⊙ plus word
    ⊙ lit ")("

-- \bcase\s+\(
abbrev pub case_re : Regex
case_re = word_boundary ⊙ lit "case" ⊙ plus space ⊙ lit "("

-- \boperator_*\b
abbrev pub operator_re : Regex
operator_re = word_boundary ⊙ lit "operator" ⊙ star (lit "_") ⊙ word_boundary

-- [^)]\s+\)\s*[^{\s]
abbrev pub space_before_close_re : Regex
space_before_close_re =
    none_of ")" ⊙ plus space ⊙ lit ")" ⊙ spaces ⊙ char_in (λ c. not (in_set "{" c || is_space c))

-- ^\s+\)
abbrev pub only_close_re : Regex
only_close_re = bol ⊙ plus space ⊙ lit ")"

-- The patterns of the loop, in order.
abbrev pub head_patterns : List Regex
head_patterns = if_head_re ∷ for_head_re ∷ while_head_re ∷ switch_head_re ∷ []

-- The text between the parentheses of a control structure, or the whole line.
unfoldable pub function_call_text : List Regex → Text → Text
unfolding search_re group_text
function_call_text [] line = line
function_call_text (r ∷ rs) line = elim (search_re r line) [
  | some m ↦ group_or_empty 1 m
  | none ↦ function_call_text rs line
]

abbrev paren_says : Text → ℕ → ℕ → String → List Report
paren_says filename linenum confidence message =
    say filename linenum "whitespace/parens" confidence (codes message)

unfoldable pub after_paren_calls : Text → ℕ → Text → List Report
unfolding searches
after_paren_calls filename linenum fncall =
    if searches space_in_call_re fncall
    then paren_says filename linenum 4 "Extra space after ( in function call"
    else if searches space_after_paren_re fncall
    then paren_says filename linenum 2 "Extra space after ("
    else []

unfoldable pub before_paren_calls : Text → ℕ → Text → Text → List Report
unfolding searches
before_paren_calls filename linenum line fncall =
    if searches space_before_paren_re fncall
      && not (searches asm_volatile_re fncall)
      && not (searches define_typedef_re fncall)
      && not (searches member_pointer_re fncall)
      && not (searches case_re fncall)
    then paren_says filename linenum (if searches operator_re line then 0 else 4)
        "Extra space before ( in function call"
    else []

unfoldable pub close_paren_calls : Text → ℕ → Text → List Report
unfolding searches
close_paren_calls filename linenum fncall =
    if searches space_before_close_re fncall
    then if searches only_close_re fncall
      then paren_says filename linenum 2 "Closing ) should be moved to the previous line"
      else paren_says filename linenum 2 "Extra space before )"
    else []

-- CheckSpacingForFunctionCall
unfoldable pub check_spacing_for_function_call : Text → CleansedLines → ℕ → List Report
unfolding searches function_call_text after_paren_calls before_paren_calls close_paren_calls
check_spacing_for_function_call filename clean linenum =
    let line = get_or clean.elided linenum [] in
    let fncall = function_call_text head_patterns line in
    if not (searches control_re fncall)
      && not (searches function_pointer_re fncall)
      && not (searches array_pointer_re fncall)
    then after_paren_calls filename linenum fncall
      ++ before_paren_calls filename linenum line fncall
      ++ close_paren_calls filename linenum fncall
    else []
