-- ===== src/Nesting/Templates.antt =====
-- build_support/cpplint.py: NestingState.InTemplateArgumentList.
use concurrency_tcp_server.Base.{
  ℕ, zero, suc, ◌+◌, ◌-◌, Bool, true, false, not, Option, none, some, List, [], ◌∷◌, Text, leb, ltb,
  if◌then◌else◌, codes, length, drop, get_or, text_eq, one_of,
}
use concurrency_tcp_server.Regex.{Regex, bol, group, star, match_re, group_text, whole}
use concurrency_tcp_server.Regex.Forms.{◌⊙◌, none_of, dot}
use concurrency_tcp_server.Lines.Cleansed.{CleansedLines}
use concurrency_tcp_server.Lines.RawStrings.{group_or_empty}
use concurrency_tcp_server.Expression.{close_expression}

-- ^[^{};=\[\]\.<>]*(.)
abbrev pub template_re : Regex
template_re = bol ⊙ star (none_of "{};=[].<>") ⊙ group 1 dot

-- A round of the loop answers, or goes on at a line and a position.
pub data TemplateRound : Type 0 where
  answer : Bool → TemplateRound
  go_to : ℕ → ℕ → TemplateRound
  -- CloseExpression was called out of the line.
  fails : TemplateRound

-- What follows `<`: the place behind the bracket that closes it.
unfoldable pub behind_angle : CleansedLines → ℕ → ℕ → TemplateRound
behind_angle clean linenum pos = elim (close_expression clean.elided linenum (pos - 1)) [
  | none ↦ fails
  | some (_, end_line, none) ↦ answer false
  | some (_, end_line, some end_pos) ↦ go_to end_line end_pos
]

-- The branches on the character that ends the match.
unfoldable pub at_token : CleansedLines → ℕ → Text → ℕ → Text → TemplateRound
unfolding behind_angle
at_token clean linenum line pos token =
    if one_of token (codes "{" ∷ codes "}" ∷ codes ";" ∷ [])
    then answer false
    else if one_of token (codes ">" ∷ codes "=" ∷ codes "[" ∷ codes "]" ∷ codes "." ∷ [])
    then answer true
    else if not (text_eq token (codes "<"))
    then if leb (length line) (pos + 1) then go_to (linenum + 1) 0 else go_to linenum (pos + 1)
    else behind_angle clean linenum pos

unfoldable pub template_round : CleansedLines → ℕ → ℕ → TemplateRound
unfolding match_re group_text at_token
template_round clean linenum pos =
    let line = get_or clean.elided linenum [] in
    elim (match_re template_re (drop pos line)) [
      | none ↦ go_to (linenum + 1) 0
      | some m ↦ at_token clean linenum line (pos + length (whole m)) (group_or_empty 1 m)
    ]

-- The loop, on fuel. Out of fuel, and where CloseExpression fails, there is no answer.
unfoldable pub template_go : ℕ → CleansedLines → ℕ → ℕ → Option Bool
unfolding template_round
template_go zero clean linenum pos = none
template_go (suc n) clean linenum pos = elim (ltb linenum clean.num_lines) [
  | false ↦ some false
  | true ↦ elim (template_round clean linenum pos) [
    | answer b ↦ some b
    | go_to linenum' pos' ↦ template_go n clean linenum' pos'
    | fails ↦ none
  ]
]

-- Each round takes a character of a line, or a line, away.
abbrev pub text_size : List Text → ℕ
text_size [] = 0
text_size (line ∷ rest) = suc (length line) + text_size rest

-- InTemplateArgumentList
unfoldable pub in_template_argument_list : CleansedLines → ℕ → ℕ → Option Bool
unfolding template_go
in_template_argument_list clean linenum pos =
    template_go (suc (text_size clean.elided)) clean linenum pos
