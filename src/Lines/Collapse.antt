-- ===== src/Lines/Collapse.antt =====
-- build_support/cpplint.py: IsCppString, CleanseComments and CleansedLines._CollapseStrings.
use concurrency_tcp_server.Base.{
  ℕ, zero, suc, ◌+◌, ◌%◌, Bool, false, not, ◌&&◌, Option, none, some, [], ◌∷◌, ◌++◌, Text,
  if◌then◌else◌, codes, length, drop, take, find, rstrip, replace, count, ◌==◌, is_digit, leb, ◌||◌,
}
use concurrency_tcp_server.Regex.{
  Regex, bol, eol, word_boundary, char_in, group, star, ahead, not_ahead, Found, match_re, matches,
  searches, group_text, sub,
}
use concurrency_tcp_server.Regex.Forms.{
  ◌⊙◌, ◌∣∣◌, lit, set_of, none_of, dot, space, spaces, non_word, digit, plus, opt,
}
use concurrency_tcp_server.Lines.RawStrings.{group_or_empty}

abbrev is_hex : ℕ → Bool
is_hex c = is_digit c || (leb b'a' c && leb c b'f') || (leb b'A' c && leb c b'F')

-- [0-9a-zA-Z_]
abbrev is_ascii_word : ℕ → Bool
is_ascii_word c =
    is_digit c || (leb b'a' c && leb c b'z') || (leb b'A' c && leb c b'Z') || c == b'_'

abbrev pub is_double : Text → Bool
is_double [] = false
is_double (c ∷ _) = c == b'"'

-- _RE_PATTERN_CLEANSE_LINE_ESCAPES: \\([abfnrtv?"\\\']|\d+|x[0-9a-fA-F]+)
abbrev pub escapes_re : Regex
escapes_re =
    lit "\\" ⊙ group 1 (set_of "abfnrtv?\"\\'" ∣∣ plus digit ∣∣ (lit "x" ⊙ plus (char_in is_hex)))

-- _RE_PATTERN_C_COMMENTS: /\*(?:[^*]|\*(?!/))*\*/
abbrev pub c_comments_re : Regex
c_comments_re = lit "/*" ⊙ star (none_of "*" ∣∣ (lit "*" ⊙ not_ahead (lit "/"))) ⊙ lit "*/"

-- _RE_PATTERN_CLEANSE_LINE_C_COMMENTS
abbrev pub line_comments_re : Regex
line_comments_re = group 1 (
    (spaces ⊙ c_comments_re ⊙ spaces ⊙ eol)
    ∣∣ (c_comments_re ⊙ plus space)
    ∣∣ (plus space ⊙ c_comments_re ⊙ ahead non_word)
    ∣∣ c_comments_re)

-- a == b + 1 modulo 2, for the difference of counts that may be negative
abbrev is_odd : ℕ → Bool
is_odd n = n % 2 == 1

-- IsCppString; the difference of the counts is odd exactly if their sum is
unfoldable pub is_cpp_string : Text → Bool
unfolding count replace
is_cpp_string line =
    let plain = replace (codes "\\\\") (codes "XX") line in
    is_odd (count (codes "\"") plain + count (codes "\\\"") plain + count (codes "'\"'") plain)

-- The line without its // comment.
unfoldable pub cut_comment : Text → Text
unfolding is_cpp_string find rstrip
cut_comment line = elim (find (codes "//") line) [
  | none ↦ line
  | some pos ↦ if not (is_cpp_string (take pos line)) then rstrip (take pos line) else line
]

-- CleanseComments
unfoldable pub cleanse_comments : Text → Text
unfolding cut_comment sub
cleanse_comments line = sub line_comments_re [] (cut_comment line)

-- _RE_PATTERN_INCLUDE
abbrev pub include_re : Regex
include_re =
    bol
    ⊙ spaces
    ⊙ lit "#"
    ⊙ spaces
    ⊙ lit "include"
    ⊙ spaces
    ⊙ group 1 (set_of "<\"")
    ⊙ group 2 (star (none_of ">\""))
    ⊙ set_of ">\""
    ⊙ star dot
    ⊙ eol

-- ^([^\'"]*)([\'"])(.*)$
abbrev pub quote_re : Regex
quote_re = bol ⊙ group 1 (star (none_of "'\"")) ⊙ group 2 (set_of "'\"") ⊙ group 3 (star dot) ⊙ eol

-- \b(?:0[bBxX]?|[1-9])[0-9a-fA-F]*$
abbrev pub number_end_re : Regex
number_end_re =
    word_boundary
    ⊙ ((lit "0" ⊙ opt (set_of "bBxX")) ∣∣ set_of "123456789")
    ⊙ star (char_in is_hex)
    ⊙ eol

-- ^((?:\'?[0-9a-zA-Z_])*)(.*)$
abbrev pub digits_re : Regex
digits_re = bol ⊙ group 1 (star (opt (lit "'") ⊙ char_in is_ascii_word)) ⊙ group 2 (star dot) ⊙ eol

-- One round of the loop: text that is collapsed, and what is left of the line, `none` at the end.
pub record Step : Type 0 where
  pub collapsed : Text
  pub left : Option Text

-- A quoted part, up to the next quote of its kind.
unfoldable pub collapse_quoted : Text → Text → Text → Text → Text → Step
unfolding find
collapse_quoted quote empty elided head tail = elim (find quote tail) [
  | some second_quote ↦ record {
    collapsed = head ++ empty;
    left = some (drop (second_quote + 1) tail);
  }
  | none ↦ record { collapsed = elided; left = none }
]

-- A digit separator: the quotes inside the number are dropped. Without a match, match_literal.group raises
-- an AttributeError: none.
unfoldable pub collapse_number : Text → Option Found → Option Step
unfolding replace group_text
collapse_number head none = none
collapse_number head (some match_literal) = some (record {
  collapsed = head ++ replace (codes "'") [] (group_or_empty 1 match_literal);
  left = some (group_or_empty 2 match_literal);
})

unfoldable pub collapse_round : Text → Found → Option Step
unfolding collapse_quoted collapse_number match_re searches
collapse_round elided m =
    let head = group_or_empty 1 m in
    let quote = group_or_empty 2 m in
    let tail = group_or_empty 3 m in
    if is_double quote
    then some (collapse_quoted (codes "\"") (codes "\"\"") elided head tail)
    else if searches number_end_re head
    then collapse_number head (match_re digits_re (b'\'' ∷ tail))
    else some (collapse_quoted (codes "'") (codes "''") elided head tail)

-- The loop on fuel; `none` means that the fuel ran out, or the AttributeError.
unfoldable pub collapse_go : ℕ → Text → Text → Option Text
unfolding match_re collapse_round
collapse_go zero collapsed elided = none
collapse_go (suc fuel) collapsed elided = elim (match_re quote_re elided) [
  | none ↦ some (collapsed ++ elided)
  | some m ↦ elim (collapse_round elided m) [
    | none ↦ none
    | some step ↦ elim step.left [
      | none ↦ some (collapsed ++ step.collapsed)
      | some left ↦ collapse_go fuel (collapsed ++ step.collapsed) left
    ]
  ]
]

-- _CollapseStrings; each round shortens what is left of the line
unfoldable pub collapse_strings : Text → Option Text
unfolding collapse_go collapse_round
collapse_strings elided =
    if matches include_re elided
    then some elided
    else let plain = sub escapes_re [] elided in collapse_go (length plain + 1) [] plain
