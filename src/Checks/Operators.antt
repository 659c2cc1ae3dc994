-- ===== src/Checks/Operators.antt =====
-- build_support/cpplint.py: CheckOperatorSpacing.
use concurrency_tcp_server.Base.{
  Bool, List, Text, [], all, codes, get_or, if◌then◌else◌, is_digit, is_some, is_space, is_upper,
  is_word, leb, length, none, not, replicate, some, suc, text_eq, zero, ℕ, ◌&&◌, ◌++◌, ◌||◌, ◌∷◌,
}
use concurrency_tcp_server.Regex.{
  Regex, bol, char_in, eol, group, group_text, match_re, matches, search_re, searches, star,
  word_boundary,
}
use concurrency_tcp_server.Regex.Forms.{
  any_lit, dot, in_range, in_set, lit, non_space, opt, plus, space, spaces, ◌∣∣◌, ◌⊙◌,
}
use concurrency_tcp_server.Lines.Cleansed.{CleansedLines}
use concurrency_tcp_server.Lines.RawStrings.{group_or_empty}
use concurrency_tcp_server.Lint.Report.{Report, say, say_if}
use concurrency_tcp_server.Checks.Places.{closing_place, opening_place}

-- ^(.*\boperator\b)(\S+)(\s*\(.*)$
abbrev pub operator_method_re : Regex
operator_method_re =
    bol
    ⊙ group 1 (star dot ⊙ word_boundary ⊙ lit "operator" ⊙ word_boundary)
    ⊙ group 2 (plus non_space)
    ⊙ group 3 (spaces ⊙ lit "(" ⊙ star dot)
    ⊙ eol

-- [\w.]=
abbrev pub assign_after_re : Regex
assign_after_re = char_in (λ c. in_set "." c || is_word c) ⊙ lit "="

-- =[\w.]
abbrev pub assign_before_re : Regex
assign_before_re = lit "=" ⊙ char_in (λ c. in_set "." c || is_word c)

-- \b(if|while|for)
abbrev pub control_space_re : Regex
control_space_re =
    word_boundary ⊙ group 1 (any_lit (codes "if" ∷ codes "while" ∷ codes "for" ∷ [])) ⊙ lit " "

-- (>=|<=|==|!=|&=|\^=|\|=|\+=|\*=|\/=|\%=)
abbrev pub compound_re : Regex
compound_re = group 1 (
    any_lit (
      codes ">="
      ∷ codes "<="
      ∷ codes "=="
      ∷ codes "!="
      ∷ codes "&="
      ∷ codes "^="
      ∷ codes "|="
      ∷ codes "+="
      ∷ codes "*="
      ∷ codes "/="
      ∷ codes "%="
      ∷ []))

-- operator=
abbrev pub operator_assign_re : Regex
operator_assign_re = lit "operator="

-- [^<>=!\s](==|!=|<=|>=|\|\|)[^<>=!\s,;\)]
abbrev pub comparison_re : Regex
comparison_re =
    char_in (λ c. not (in_set "<>=!" c || is_space c))
    ⊙ group 1 (any_lit (codes "==" ∷ codes "!=" ∷ codes "<=" ∷ codes ">=" ∷ codes "||" ∷ []))
    ⊙ char_in (λ c. not (in_set "<>=!,;)" c || is_space c))

-- #.*include
abbrev pub include_line_re : Regex
include_line_re = lit "#" ⊙ star dot ⊙ lit "include"

-- ^(.*[^\s<])<[^\s=<,]
abbrev pub less_re : Regex
less_re =
    bol
    ⊙ group 1 (star dot ⊙ char_in (λ c. not (in_set "<" c || is_space c)))
    ⊙ lit "<"
    ⊙ char_in (λ c. not (in_set "=<," c || is_space c))

-- ^(.*[^-\s>])>[^\s=>,]
abbrev pub greater_re : Regex
greater_re =
    bol
    ⊙ group 1 (star dot ⊙ char_in (λ c. not (in_set "->" c || is_space c)))
    ⊙ lit ">"
    ⊙ char_in (λ c. not (in_set "=>," c || is_space c))

-- (operator|[^\s(<])(?:L|UL|LL|ULL|l|ul|ll|ull)?<<([^\s,=<])
abbrev pub shift_left_re : Regex
shift_left_re =
    group 1 (lit "operator" ∣∣ char_in (λ c. not (in_set "(<" c || is_space c)))
    ⊙ opt (
        any_lit (
          codes "L"
          ∷ codes "UL"
          ∷ codes "LL"
          ∷ codes "ULL"
          ∷ codes "l"
          ∷ codes "ul"
          ∷ codes "ll"
          ∷ codes "ull"
          ∷ []))
    ⊙ lit "<<"
    ⊙ group 2 (char_in (λ c. not (in_set ",=<" c || is_space c)))

-- >>[a-zA-Z_]
abbrev pub shift_right_re : Regex
shift_right_re = lit ">>" ⊙ char_in (λ c. in_set "_" c || in_range b'a' b'z' c || is_upper c)

-- (!\s|~\s|[\s]--[\s;]|[\s]\+\+[\s;])
abbrev pub unary_re : Regex
unary_re = group 1 (
    (lit "!" ⊙ space)
    ∣∣ (lit "~" ⊙ space)
    ∣∣ (space ⊙ lit "--" ⊙ char_in (λ c. in_set ";" c || is_space c))
    ∣∣ (space ⊙ lit "++" ⊙ char_in (λ c. in_set ";" c || is_space c)))

-- The loop that replaces the characters of operator methods by underscores, on fuel: each
-- round leaves one `operator` fewer that ends at a word boundary, so there are no more rounds than
-- characters.
unfoldable pub blank_operators : ℕ → Text → Text
unfolding match_re group_text
blank_operators zero line = line
blank_operators (suc n) line = elim (match_re operator_method_re line) [
  | none ↦ line
  | some m ↦
      blank_operators n
        (group_or_empty 1 m ++ replicate (length (group_or_empty 2 m)) b'_' ++ group_or_empty 3 m)
]

abbrev operator_says : Text → ℕ → ℕ → Text → List Report
operator_says filename linenum confidence message =
    say filename linenum "whitespace/operators" confidence message

unfoldable pub assign_calls : Text → ℕ → Text → List Report
unfolding searches
assign_calls filename linenum line =
    say_if
      ((searches assign_after_re line || searches assign_before_re line)
        && not (searches control_space_re line)
        && not (searches compound_re line)
        && not (searches operator_assign_re line))
      (operator_says filename linenum 4 (codes "Missing spaces around ="))

unfoldable pub less_calls : Text → List Text → ℕ → Text → List Report
unfolding match_re group_text closing_place
less_calls filename elided linenum line = elim (match_re less_re line) [
  | none ↦ []
  | some m ↦
      say_if (not (is_some (closing_place elided linenum (length (group_or_empty 1 m)))))
        (operator_says filename linenum 3 (codes "Missing spaces around <"))
]

unfoldable pub greater_calls : Text → List Text → ℕ → Text → List Report
unfolding match_re group_text opening_place
greater_calls filename elided linenum line = elim (match_re greater_re line) [
  | none ↦ []
  | some m ↦
      say_if (not (is_some (opening_place elided linenum (length (group_or_empty 1 m)))))
        (operator_says filename linenum 3 (codes "Missing spaces around >"))
]

unfoldable pub comparison_calls : Text → List Text → ℕ → Text → List Report
unfolding search_re matches group_text less_calls greater_calls
comparison_calls filename elided linenum line = elim (search_re comparison_re line) [
  | some m ↦ operator_says filename linenum 3 (codes "Missing spaces around " ++ group_or_empty 1 m)
  | none ↦
      if matches include_line_re line
      then []
      else less_calls filename elided linenum line ++ greater_calls filename elided linenum line
]

-- match.group(1).isdigit(), for a text that is not empty
abbrev all_digits : Text → Bool
all_digits s = leb 1 (length s) && all is_digit s

unfoldable pub shift_left_calls : Text → ℕ → Text → List Report
unfolding search_re group_text is_digit text_eq
shift_left_calls filename linenum line = elim (search_re shift_left_re line) [
  | none ↦ []
  | some m ↦
      say_if
        (not (all_digits (group_or_empty 1 m) && all_digits (group_or_empty 2 m))
          && not (
              text_eq (group_or_empty 1 m) (codes "operator")
              && text_eq (group_or_empty 2 m) (codes ";")))
        (operator_says filename linenum 3 (codes "Missing spaces around <<"))
]

unfoldable pub unary_calls : Text → ℕ → Text → List Report
unfolding search_re group_text
unary_calls filename linenum line = elim (search_re unary_re line) [
  | none ↦ []
  | some m ↦
      operator_says filename linenum 4 (codes "Extra space for operator " ++ group_or_empty 1 m)
]

-- CheckOperatorSpacing
unfoldable pub check_operator_spacing : Text → CleansedLines → ℕ → List Report
unfolding blank_operators assign_calls comparison_calls shift_left_calls unary_calls searches
check_operator_spacing filename clean linenum =
    let elided = get_or clean.elided linenum [] in
    let line = blank_operators (suc (length elided)) elided in
    assign_calls filename linenum line
    ++ comparison_calls filename clean.elided linenum line
    ++ shift_left_calls filename linenum line
    ++ say_if (searches shift_right_re line)
        (operator_says filename linenum 3 (codes "Missing spaces around >>"))
    ++ unary_calls filename linenum line
