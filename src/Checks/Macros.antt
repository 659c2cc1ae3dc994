-- ===== src/Checks/Macros.antt =====
-- build_support/cpplint.py: FindCheckMacro and CheckCheck.
use concurrency_tcp_server.Base.{
  Bool, List, Option, Text, [], codes, drop, false, get_or, if◌then◌else◌, is_digit, length, ltb,
  none, not, one_of, some, strip, suc, take, text_eq, true, zero, ℕ, ◌&&◌, ◌++◌, ◌+◌, ◌-◌, ◌==◌,
  ◌||◌, ◌∷◌,
}
use concurrency_tcp_server.Regex.{
  Found, Regex, bol, char_in, eol, group, group_text, match_re, matches, star, word_boundary,
}
use concurrency_tcp_server.Regex.Forms.{
  any_lit, digit, dot, in_range, lit, literal, non_space, none_of, opt, plus, set_of, spaces, up_to,
  ◌∣∣◌, ◌⊙◌,
}
use concurrency_tcp_server.Lines.Cleansed.{CleansedLines}
use concurrency_tcp_server.Lines.RawStrings.{group_or_empty}
use concurrency_tcp_server.Lint.Report.{Report, say, say_if}
use concurrency_tcp_server.Expression.{find_end_of_expression_in_line, found, gave_up, pending}
use concurrency_tcp_server.Checks.Places.{closing_place, contains}

-- A row of _CHECK_REPLACEMENT.
abbrev pub comparison_names : List (Text × Text × Text)
comparison_names =
    (codes "==", codes "EQ", codes "NE")
    ∷ (codes "!=", codes "NE", codes "EQ")
    ∷ (codes ">=", codes "GE", codes "LT")
    ∷ (codes ">", codes "GT", codes "LE")
    ∷ (codes "<=", codes "LE", codes "GT")
    ∷ (codes "<", codes "LT", codes "GE")
    ∷ []

-- _CHECK_MACROS, each with the word that its replacements begin with, and whether they are inverse.
abbrev pub check_macros : List (Text × Text × Bool)
check_macros =
    (codes "DCHECK", codes "DCHECK_", false)
    ∷ (codes "CHECK", codes "CHECK_", false)
    ∷ (codes "EXPECT_TRUE", codes "EXPECT_", false)
    ∷ (codes "ASSERT_TRUE", codes "ASSERT_", false)
    ∷ (codes "EXPECT_FALSE", codes "EXPECT_", true)
    ∷ (codes "ASSERT_FALSE", codes "ASSERT_", true)
    ∷ []

find_name : Text → List (Text × Text × Text) → Bool → Text
unfolding text_eq
find_name operator [] inverse = []
find_name operator ((op, name, inverse_name) ∷ rest) inverse =
    let later = find_name operator rest inverse in
    if text_eq op operator then if inverse then inverse_name else name else later

-- _CHECK_REPLACEMENT[macro][operator]
unfoldable pub check_replacement : Text × Text × Bool → Text → Text
unfolding find_name
check_replacement (macro, prefix, inverse) operator =
    prefix ++ find_name operator comparison_names inverse

-- ^(.*\bmacro\s*)\(
abbrev pub macro_call_re : Text → Regex
macro_call_re macro = bol ⊙ group 1 (star dot ⊙ word_boundary ⊙ literal macro ⊙ spaces) ⊙ lit "("

-- The loop of FindCheckMacro: a row of the table and the position of the parenthesis.
unfoldable pub find_in_macros : List (Text × Text × Bool) → Text → Option ((Text × Text × Bool) × ℕ)
unfolding contains match_re group_text
find_in_macros [] line = none
find_in_macros (row ∷ rows) line =
    let later = find_in_macros rows line in
    if contains row.0 line
    then elim (match_re (macro_call_re row.0) line) [
      | none ↦ later
      | some m ↦ some (row, length (group_or_empty 1 m))
    ]
    else later

-- FindCheckMacro
unfoldable pub find_check_macro : Text → Option ((Text × Text × Bool) × ℕ)
unfolding find_in_macros
find_check_macro line = find_in_macros check_macros line

-- \s*;
abbrev pub statement_end_re : Regex
statement_end_re = spaces ⊙ lit ";"

-- ^\s*(<<|<<=|>>|>>=|->\*|->|&&|\|\||==|!=|>=|>|<=|<|\()(.*)$
abbrev pub check_token_re : Regex
check_token_re =
    bol
    ⊙ spaces
    ⊙ group 1 (
        any_lit (
          codes "<<"
          ∷ codes "<<="
          ∷ codes ">>"
          ∷ codes ">>="
          ∷ codes "->*"
          ∷ codes "->"
          ∷ codes "&&"
          ∷ codes "||"
          ∷ codes "=="
          ∷ codes "!="
          ∷ codes ">="
          ∷ codes ">"
          ∷ codes "<="
          ∷ codes "<"
          ∷ codes "("
          ∷ []))
    ⊙ group 2 (star dot)
    ⊙ eol

-- ^([^-=!<>()&|]+)(.*)$
abbrev pub operand_re : Regex
operand_re = bol ⊙ group 1 (plus (none_of "-=!<>()&|")) ⊙ group 2 (star dot) ⊙ eol

-- ^(\s*\S)(.*)$
abbrev pub one_char_re : Regex
one_char_re = bol ⊙ group 1 (spaces ⊙ non_space) ⊙ group 2 (star dot) ⊙ eol

-- ^([-+]?(\d+|0[xX][0-9a-fA-F]+)[lLuU]{0,3}|".*"|\'.*\')$
abbrev pub constant_re : Regex
constant_re =
    bol
    ⊙ group 1 (
        (opt (set_of "-+")
          ⊙ group 2 (
              plus digit
              ∣∣ (lit "0"
                  ⊙ set_of "xX"
                  ⊙ plus
                      (char_in (λ c. is_digit c || in_range b'a' b'f' c || in_range b'A' b'F' c))))
          ⊙ up_to 3 (set_of "lLuU"))
        ∣∣ (lit "\"" ⊙ star dot ⊙ lit "\"")
        ∣∣ (lit "'" ⊙ star dot ⊙ lit "'"))
    ⊙ eol

-- How the loop over the expression ends: at a relational operator, with the texts on both sides; without
-- one; or by a return.
pub data Sides : Type 0 where
  compared : Text → Text → Text → Sides
  no_operator : Sides
  returned : Sides

-- A round goes on with lhs and what is left of the expression, or ends.
pub data CheckRound : Type 0 where
  next_part : Text → Text → CheckRound
  ends : Sides → CheckRound

-- Behind an opening parenthesis.
unfoldable pub parenthesized : Text → Text → CheckRound
unfolding find_end_of_expression_in_line
parenthesized lhs expression = elim (find_end_of_expression_in_line expression 0 (b'(' ∷ [])) [
  | found p ↦ next_part (lhs ++ codes "(" ++ take p expression) (drop p expression)
  | gave_up ↦ ends returned
  | pending _ ↦ ends returned
]

unfoldable pub token_round : Text → Text → Text → CheckRound
unfolding parenthesized text_eq
token_round lhs token rest =
    if text_eq token (codes "(")
    then parenthesized lhs rest
    else if one_of token (codes "&&" ∷ codes "||" ∷ [])
    then ends returned
    else if one_of token
        (codes "<<" ∷ codes "<<=" ∷ codes ">>" ∷ codes ">>=" ∷ codes "->*" ∷ codes "->" ∷ [])
    then next_part (lhs ++ token) rest
    else ends (compared lhs token rest)

operand_round : Text → Option Found → CheckRound
unfolding group_text
operand_round lhs none = ends no_operator
operand_round lhs (some m) = next_part (lhs ++ group_or_empty 1 m) (group_or_empty 2 m)

first_found : Option Found → Option Found → Option Found
first_found (some m) other = some m
first_found none other = other

unfoldable pub check_round : Text → Text → CheckRound
unfolding match_re group_text token_round operand_round first_found
check_round lhs expression = elim (match_re check_token_re expression) [
  | some m ↦ token_round lhs (group_or_empty 1 m) (group_or_empty 2 m)
  | none ↦
      operand_round lhs
        (first_found (match_re operand_re expression) (match_re one_char_re expression))
]

-- The loop, on fuel: each round takes a character away.
unfoldable pub split_sides : ℕ → Text → Text → Sides
unfolding check_round
split_sides n lhs [] = no_operator
split_sides zero lhs (c ∷ expression) = no_operator
split_sides (suc n) lhs (c ∷ expression) = elim (check_round lhs (c ∷ expression)) [
  | next_part lhs' rest ↦ split_sides n lhs' rest
  | ends r ↦ r
]

side_calls : Text → ℕ → Text × Text × Bool → Sides → List Report
unfolding contains strip matches check_replacement
side_calls filename linenum row no_operator = []
side_calls filename linenum row returned = []
side_calls filename linenum row (compared lhs operator rhs) =
    say_if
      (ltb 0 (length lhs)
        && ltb 0 (length rhs)
        && not (contains (codes "&&") rhs || contains (codes "||") rhs)
        && (matches constant_re (strip lhs) || matches constant_re (strip rhs)))
      (say filename linenum "readability/check" 2 (
        codes "Consider using "
        ++ check_replacement row operator
        ++ codes " instead of "
        ++ row.0
        ++ codes "(a "
        ++ operator
        ++ codes " b)"))

concat_lines : List Text → Text
concat_lines [] = []
concat_lines (line ∷ rest) = line ++ concat_lines rest

-- The expression between the parentheses.
unfoldable pub check_expression : List Text → ℕ → ℕ → Text → ℕ → ℕ → Text
unfolding concat_lines
check_expression lines linenum start_pos last_line end_line end_pos =
    let line = get_or lines linenum [] in
    if linenum == end_line
    then drop (start_pos + 1) (take (end_pos - 1) line)
    else drop (start_pos + 1) line
      ++ concat_lines (take (end_line - (linenum + 1)) (drop (linenum + 1) lines))
      ++ take (end_pos - 1) last_line

macro_calls : Text → List Text → ℕ → (Text × Text × Bool) × ℕ → Option (Text × ℕ × ℕ) → List Report
unfolding matches check_expression split_sides side_calls
macro_calls filename lines linenum found_macro none = []
macro_calls filename lines linenum (row, start_pos) (some (last_line, end_line, end_pos)) =
    let expression = check_expression lines linenum start_pos last_line end_line end_pos in
    if matches statement_end_re (drop end_pos last_line)
    then side_calls filename linenum row (split_sides (length expression) [] expression)
    else []

-- CheckCheck
unfoldable pub check_check : Text → CleansedLines → ℕ → List Report
unfolding find_check_macro closing_place macro_calls
check_check filename clean linenum = elim (find_check_macro (get_or clean.elided linenum [])) [
  | none ↦ []
  | some (row, start_pos) ↦
      macro_calls filename clean.elided linenum (row, start_pos)
        (closing_place clean.elided linenum start_pos)
]
