-- ===== src/Lines/RawStrings.antt =====
-- build_support/cpplint.py: CleanseRawStrings, which blanks C++11 raw strings.
use mathlib.Core.Option
use concurrency_tcp_server.Base.{
  ℕ, zero, suc, ◌+◌, not, ◌&&◌, Option, none, some, List, [], ◌∷◌, ◌++◌, Text, if◌then◌else◌, codes,
  length, drop, find, or_default,
}
use concurrency_tcp_server.Regex.{
  Regex, bol, eol, word_boundary, char_in, group, star, lazy_star, Found, match_re, matches,
  group_text,
}
use concurrency_tcp_server.Regex.Forms.{
  ◌⊙◌, ◌∣∣◌, lit, any_lit, none_of, dot, non_space, spaces, in_set,
}
use concurrency_tcp_server.Base.{is_space}

-- ^(.*?)\b(?:R|u8R|uR|UR|LR)"([^\s\\()]*)\((.*)$
abbrev pub raw_string_re : Regex
raw_string_re =
    bol
    ⊙ group 1 (lazy_star dot)
    ⊙ word_boundary
    ⊙ any_lit (codes "R" ∷ codes "u8R" ∷ codes "uR" ∷ codes "UR" ∷ codes "LR" ∷ [])
    ⊙ lit "\""
    ⊙ group 2 (star (char_in (λ c. not (is_space c) && not (in_set "\\()" c))))
    ⊙ lit "("
    ⊙ group 3 (star dot)
    ⊙ eol

-- ^([^\'"]|\'(\\.|[^\'])*\'|"(\\.|[^"])*")*//
abbrev pub comment_prefix_re : Regex
comment_prefix_re =
    bol
    ⊙ star (
        none_of "'\""
        ∣∣ (lit "'" ⊙ star ((lit "\\" ⊙ dot) ∣∣ none_of "'") ⊙ lit "'")
        ∣∣ (lit "\"" ⊙ star ((lit "\\" ⊙ dot) ∣∣ none_of "\"") ⊙ lit "\""))
    ⊙ lit "//"

-- ^(\s*)\S
abbrev pub leading_space_re : Regex
leading_space_re = bol ⊙ group 1 spaces ⊙ non_space

abbrev pub group_or_empty : ℕ → Found → Text
group_or_empty n m = or_default [] (group_text n m)

abbrev pub two_quotes : Text
two_quotes = codes "\"\""

-- A raw string that begins on the line: the text before it, its delimiter, the text behind.
pub record Opening : Type 0 where
  pub prefix : Text
  pub delimiter : Text
  pub tail : Text

unfoldable pub opening_of : Found → Option Opening
opening_of m =
    if matches comment_prefix_re (group_or_empty 1 m)
    then none
    else some (record {
      prefix = group_or_empty 1 m;
      delimiter = codes ")" ++ (group_or_empty 2 m ++ codes "\"");
      tail = group_or_empty 3 m;
    })

-- The search for the beginning of a raw string, outside comments.
unfoldable pub find_opening : Text → Option Opening
unfolding opening_of
find_opening line = elim (match_re raw_string_re line) [ none ↦ none | some m ↦ opening_of m ]

-- The loop `while delimiter is None` on fuel: the line, and the delimiter if a raw string stays open.
unfoldable pub open_go : ℕ → Text → Option (Text × Option Text)
open_go zero line = none
open_go (suc fuel) line = elim (find_opening line) [
  | none ↦ some (line, none)
  | some o ↦ elim (find o.delimiter o.tail) [
    | none ↦ some (o.prefix ++ two_quotes, some o.delimiter)
    | some stop ↦ open_go fuel (o.prefix ++ (two_quotes ++ drop (stop + length o.delimiter) o.tail))
  ]
]

-- Each round shortens the line by one character at least.
unfoldable pub open_raw : Text → Option (Text × Option Text)
unfolding open_go find_opening match_re matches group_text
open_raw line = open_go (length line + 1) line

-- The line that ends a raw string; `none` where leading_space.group(1) raises, as there is no match.
unfoldable pub close_raw : Text → Text → ℕ → Option Text
unfolding match_re group_text
close_raw delimiter line stop =
    Option.map (λ m. group_or_empty 1 m ++ (two_quotes ++ drop (stop + length delimiter) line))
      (match_re leading_space_re line)

-- One line: the line that is copied, and the delimiter that is looked for afterwards.
unfoldable pub cleanse_line : Option Text → Text → Option (Text × Option Text)
unfolding open_raw close_raw
cleanse_line none line = open_raw line
cleanse_line (some delimiter) line = elim (find delimiter line) [
  | none ↦ some (two_quotes, some delimiter)
  | some stop ↦ elim (close_raw delimiter line stop) [ none ↦ none | some l ↦ open_raw l ]
]

unfoldable pub cleanse_go : Option Text → List Text → Option (List Text)
cleanse_go delimiter [] = some []
cleanse_go delimiter (line ∷ lines) = elim (cleanse_line delimiter line) [
  | none ↦ none
  | some (out, delimiter') ↦ Option.map (λ outs. out ∷ outs) (cleanse_go delimiter' lines)
]

-- CleanseRawStrings
unfoldable pub cleanse_raw_strings : List Text → Option (List Text)
unfolding cleanse_go cleanse_line
cleanse_raw_strings raw_lines = cleanse_go none raw_lines
