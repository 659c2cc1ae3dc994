-- ===== src/Checks/Classes.antt =====
-- build_support/cpplint.py: checks of classes, virtual functions and namespaces.
use concurrency_tcp_server.Base.{
  Bool, List, Option, Text, [], codes, drop, false, get_or, if◌then◌else◌, is_some, is_space,
  is_word, leb, length, ltb, none, not, some, suc, take, zero, ℕ, ◌&&◌, ◌++◌, ◌+◌, ◌-◌, ◌||◌, ◌∷◌,
}
use concurrency_tcp_server.Regex.{
  Found, Regex, bol, char_in, eol, group, group_text, match_re, matches, search_re, searches, star,
  word_boundary,
}
use concurrency_tcp_server.Regex.Forms.{any_lit, dot, lit, none_of, plus, space, spaces, ◌⊙◌}
use concurrency_tcp_server.Lines.Cleansed.{CleansedLines}
use concurrency_tcp_server.Lines.RawStrings.{group_or_empty}
use concurrency_tcp_server.Lint.Report.{Report, say, say_if}
use concurrency_tcp_server.Nesting.Block.{
  Block, ClassInfo, NestingState, in_namespace_body, is_namespace,
}
use concurrency_tcp_server.Files.{is_blank_line}
use concurrency_tcp_server.Checks.Places.{closing_place, previous_line, rfind}
use concurrency_tcp_server.Checks.Calls.{is_forward_class_declaration, is_macro_definition}

-- \s*(public|protected|private):
abbrev pub access_section_re : Regex
access_section_re =
    spaces ⊙ group 1 (any_lit (codes "public" ∷ codes "protected" ∷ codes "private" ∷ [])) ⊙ lit ":"

-- \b(class|struct)\b
abbrev pub class_word_re : Regex
class_word_re =
    word_boundary ⊙ group 1 (any_lit (codes "class" ∷ codes "struct" ∷ [])) ⊙ word_boundary

-- \\$
abbrev pub backslash_end_re : Regex
backslash_end_re = lit "\\" ⊙ eol

-- \{\s*$
abbrev pub head_end_re : Regex
head_end_re = lit "{" ⊙ spaces ⊙ eol

-- ^(.*)(\bvirtual\b)(.*)$
abbrev pub virtual_re : Regex
virtual_re =
    bol
    ⊙ group 1 (star dot)
    ⊙ group 2 (word_boundary ⊙ lit "virtual" ⊙ word_boundary)
    ⊙ group 3 (star dot)
    ⊙ eol

-- \b(public|protected|private)\s+$
abbrev pub access_before_re : Regex
access_before_re =
    word_boundary
    ⊙ group 1 (any_lit (codes "public" ∷ codes "protected" ∷ codes "private" ∷ []))
    ⊙ plus space
    ⊙ eol

-- ^\s+(public|protected|private)\b
abbrev pub access_behind_re : Regex
access_behind_re =
    bol
    ⊙ plus space
    ⊙ group 1 (any_lit (codes "public" ∷ codes "protected" ∷ codes "private" ∷ []))
    ⊙ word_boundary

-- ^.*[^:]:[^:].*$
abbrev pub single_colon_re : Regex
single_colon_re = bol ⊙ star dot ⊙ none_of ":" ⊙ lit ":" ⊙ none_of ":" ⊙ star dot ⊙ eol

-- ^([^(]*)\(
abbrev pub parameters_re : Regex
parameters_re = bol ⊙ group 1 (star (none_of "(")) ⊙ lit "("

-- \b(override|final)\b
abbrev pub override_final_re : Regex
override_final_re =
    word_boundary ⊙ group 1 (any_lit (codes "override" ∷ codes "final" ∷ [])) ⊙ word_boundary

-- [^\w]\s*$
abbrev pub non_word_end_re : Regex
non_word_end_re = char_in (λ c. not (is_word c)) ⊙ spaces ⊙ eol

-- \boverride\b
abbrev pub override_re : Regex
override_re = word_boundary ⊙ lit "override" ⊙ word_boundary

-- \bfinal\b
abbrev pub final_re : Regex
final_re = word_boundary ⊙ lit "final" ⊙ word_boundary

-- ^\s+
abbrev pub indented_re : Regex
indented_re = bol ⊙ plus space

-- \bmake_pair\s*<
abbrev pub make_pair_re : Regex
make_pair_re = word_boundary ⊙ lit "make_pair" ⊙ spaces ⊙ lit "<"

-- The first line, from the start of the class on, that ends with a brace; else the start.
unfoldable pub end_of_class_head : ℕ → ℕ → List Text → ℕ
unfolding searches
end_of_class_head start i [] = start
end_of_class_head start i (line ∷ rest) =
    let later = end_of_class_head start (i + 1) rest in
    if searches head_end_re line then i else later

-- The class is longer than 24 lines, and the line is behind its first one.
abbrev pub is_in_long_class : ClassInfo → ℕ → ℕ → Bool
is_in_long_class c start linenum = leb (start + 25) c.last_line && ltb start linenum

-- CheckSectionSpacing, for a class that began at line start
unfoldable pub check_section_spacing : Text → CleansedLines → ClassInfo → ℕ → ℕ → List Report
unfolding match_re group_text searches end_of_class_head is_space
check_section_spacing filename clean c start linenum =
    elim (match_re access_section_re (get_or clean.lines linenum [])) [
      | none ↦ []
      | some m ↦
          let prev_line = previous_line clean.lines linenum in
          let head =
            end_of_class_head start start (take (linenum - start) (drop start clean.lines)) in
          say_if
            (is_in_long_class c start linenum
              && not (is_blank_line prev_line)
              && not (searches class_word_re prev_line)
              && not (searches backslash_end_re prev_line)
              && ltb (head + 1) linenum)
            (say filename linenum "whitespace/blank_line" 3
              (codes "\"" ++ group_or_empty 1 m ++ codes ":\" should be preceded by a blank line"))
    ]

-- CheckMakePairUsesDeduction
unfoldable pub check_make_pair_uses_deduction : Text → CleansedLines → ℕ → List Report
unfolding searches
check_make_pair_uses_deduction filename clean linenum =
    say_if (searches make_pair_re (get_or clean.elided linenum [])) (
      say filename linenum "build/explicit_make_pair" 4 (
        codes
          "For C++11-compatibility, omit template arguments from make_pair OR use pair directly OR if appropriate, construct a pair directly"))

-- The loop over three lines for the parameter list: where it is closed. The lines are those from n on.
unfoldable pub parameter_list_end : List Text → ℕ → ℕ → ℕ → List Text → Option (ℕ × ℕ)
unfolding match_re group_text closing_place
parameter_list_end elided zero n start_col lines = none
parameter_list_end elided (suc k) n start_col [] = none
parameter_list_end elided (suc k) n start_col (line ∷ rest) =
    elim (match_re parameters_re (drop start_col line)) [
      | none ↦ parameter_list_end elided k (n + 1) 0 rest
      | some m ↦ elim (closing_place elided n (start_col + length (group_or_empty 1 m))) [
        | none ↦ none
        | some (_, end_line, end_col) ↦ some (end_line, end_col)
      ]
    ]

-- The loop over three lines for override or final.
unfoldable pub redundant_calls : Text → ℕ → ℕ → ℕ → List Text → List Report
unfolding search_re group_text searches
redundant_calls filename linenum zero end_col lines = []
redundant_calls filename linenum (suc k) end_col [] = []
redundant_calls filename linenum (suc k) end_col (line ∷ rest) =
    let text = drop end_col line in
    let later = redundant_calls filename linenum k 0 rest in
    elim (search_re override_final_re text) as (λ _. List Report) [
      | none ↦ []
      | some m ↦ say filename linenum "readability/inheritance" 4 (
          codes "\"virtual\" is redundant since function is already declared as \""
          ++ group_or_empty 1 m
          ++ codes "\"")
    ]
    ++ (if searches non_word_end_re text then [] else later)

virtual_calls : Text → CleansedLines → ℕ → Found → List Report
unfolding group_text searches matches parameter_list_end redundant_calls
virtual_calls filename clean linenum m =
    let line = get_or clean.elided linenum [] in
    if searches access_before_re (group_or_empty 1 m)
      || matches access_behind_re (group_or_empty 3 m)
      || matches single_colon_re line
    then []
    else elim (parameter_list_end clean.elided 3 linenum (length (group_or_empty 2 m))
        (drop linenum clean.elided)) [
          | none ↦ []
          | some (end_line, end_col) ↦
              redundant_calls filename linenum 3 end_col (drop end_line clean.elided)
        ]

-- CheckRedundantVirtual
unfoldable pub check_redundant_virtual : Text → CleansedLines → ℕ → List Report
unfolding match_re virtual_calls
check_redundant_virtual filename clean linenum =
    elim (match_re virtual_re (get_or clean.elided linenum [])) [
      | none ↦ []
      | some m ↦ virtual_calls filename clean linenum m
    ]

-- The text that is looked at: from the last ) on, or the line if the one above has a ).
unfoldable pub declarator_rest : CleansedLines → ℕ → Option Text
unfolding rfind
declarator_rest clean linenum =
    let line = get_or clean.elided linenum [] in
    elim (rfind b')' line) [
      | some i ↦ some (drop i line)
      | none ↦
          if ltb 1 linenum && is_some (rfind b')' (previous_line clean.elided linenum))
          then some line
          else none
    ]

-- CheckRedundantOverrideOrFinal
unfoldable pub check_redundant_override_or_final : Text → CleansedLines → ℕ → List Report
unfolding declarator_rest searches
check_redundant_override_or_final filename clean linenum = elim (declarator_rest clean linenum) [
  | none ↦ []
  | some fragment ↦ say_if (searches override_re fragment && searches final_re fragment) (
      say filename linenum "readability/inheritance" 4
        (codes "\"override\" is redundant since function is already declared as \"final\""))
]

second_is_namespace : List Block → Bool
second_is_namespace (a ∷ b ∷ _) = a.check_namespace_indentation && is_namespace b
second_is_namespace (a ∷ []) = false
second_is_namespace [] = false

-- IsBlockInNameSpace
unfoldable pub is_block_in_namespace : NestingState → Bool → Bool
unfolding second_is_namespace
is_block_in_namespace s is_forward_declaration =
    if is_forward_declaration then in_namespace_body s else second_is_namespace s.stack

-- ShouldCheckNamespaceIndentation
unfoldable pub should_check_namespace_indentation : NestingState → Bool → List Text → ℕ → Bool
unfolding is_forward_class_declaration is_macro_definition is_block_in_namespace
should_check_namespace_indentation s is_namespace_indent_item lines linenum =
    let forward = is_forward_class_declaration lines linenum in
    if not (is_namespace_indent_item || forward)
    then false
    else if is_macro_definition lines linenum
    then false
    else is_block_in_namespace s forward

-- CheckItemIndentationInNamespace
unfoldable pub check_item_indentation_in_namespace : Text → List Text → ℕ → List Report
unfolding matches
check_item_indentation_in_namespace filename lines linenum =
    say_if (matches indented_re (get_or lines linenum [])) (
      say filename linenum "runtime/indentation_namespace" 4
        (codes "Do not indent within a namespace"))
