-- ===== src/Checks/Tokens.antt =====
-- build_support/cpplint.py: CheckAltTokens.
use concurrency_tcp_server.Base.{
  List, Text, [], codes, get_or, if◌then◌else◌, length, map, none, some, suc, text_eq, zero, ℕ,
  ◌++◌, ◌||◌, ◌∷◌,
}
use concurrency_tcp_server.Regex.{
  Found, Regex, ahead, bol, eol, group, group_text, matches, search_at,
}
use concurrency_tcp_server.Regex.Forms.{any_lit, lit, set_of, spaces, ◌∣∣◌, ◌⊙◌}
use concurrency_tcp_server.Lines.Cleansed.{CleansedLines}
use concurrency_tcp_server.Lines.RawStrings.{group_or_empty}
use concurrency_tcp_server.Lint.Report.{Report, say}
use concurrency_tcp_server.Checks.Places.{contains}

-- _ALT_TOKEN_REPLACEMENT
abbrev pub alt_token_replacement : List (Text × Text)
alt_token_replacement =
    (codes "and", codes "&&")
    ∷ (codes "bitor", codes "|")
    ∷ (codes "or", codes "||")
    ∷ (codes "xor", codes "^")
    ∷ (codes "compl", codes "~")
    ∷ (codes "bitand", codes "&")
    ∷ (codes "and_eq", codes "&=")
    ∷ (codes "or_eq", codes "|=")
    ∷ (codes "xor_eq", codes "^=")
    ∷ (codes "not", codes "!")
    ∷ (codes "not_eq", codes "!=")
    ∷ []

-- [ =()](and|bitor|...)(?=[ (]|$)
abbrev pub alt_token_re : Regex
alt_token_re =
    set_of " =()"
    ⊙ group 1 (any_lit (map (λ (r : Text × Text). r.0) alt_token_replacement))
    ⊙ ahead (set_of " (" ∣∣ eol)

-- pattern.finditer(s), for a pattern that matches no empty text: each search begins where the match
-- before it ends. The fuel is the length of the text.
unfoldable pub find_all : ℕ → Regex → Text → Text → List Found
unfolding search_at
find_all zero r before s = []
find_all (suc n) r before s = elim (search_at r before s) [
  | none ↦ []
  | some m ↦ m ∷ find_all n r m.stop.before m.stop.after
]

replacement_of : Text → List (Text × Text) → Text
unfolding text_eq
replacement_of token [] = []
replacement_of token ((t, r) ∷ rest) =
    let later = replacement_of token rest in if text_eq t token then r else later

alt_token_calls : Text → ℕ → List Found → List Report
unfolding replacement_of group_text
alt_token_calls filename linenum [] = []
alt_token_calls filename linenum (m ∷ ms) =
    say filename linenum "readability/alt_tokens" 2 (
      codes "Use operator "
      ++ replacement_of (group_or_empty 1 m) alt_token_replacement
      ++ codes " instead of "
      ++ group_or_empty 1 m)
    ++ alt_token_calls filename linenum ms

-- ^\s*#
abbrev pub hash_line_re : Regex
hash_line_re = bol ⊙ spaces ⊙ lit "#"

-- CheckAltTokens
unfoldable pub check_alt_tokens : Text → CleansedLines → ℕ → List Report
unfolding matches contains find_all alt_token_calls
check_alt_tokens filename clean linenum =
    let line = get_or clean.elided linenum [] in
    if matches hash_line_re line || contains (codes "/*") line || contains (codes "*/") line
    then []
    else alt_token_calls filename linenum (find_all (length line) alt_token_re [] line)
