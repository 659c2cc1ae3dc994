-- ===== src/Names/HeaderGuard.antt =====
-- build_support/cpplint.py: CheckForHeaderGuard.
use mathlib.Core.Option
use concurrency_tcp_server.Base.{
  Bool, List, Option, String, Text, [], any, codes, drop, false, get_or, if◌then◌else◌, is_space,
  length, none, not, reverse, some, starts_with, take, text_eq, true, ℕ, ◌&&◌, ◌++◌, ◌+◌, ◌-◌, ◌||◌,
  ◌∷◌,
}
use concurrency_tcp_server.Regex.{
  Found, Regex, bol, group, group_text, match_re, matches, searches, star, word_boundary,
}
use concurrency_tcp_server.Regex.Forms.{
  lit, literal, none_of, opt, plus, space, spaces, word, ◌∣∣◌, ◌⊙◌,
}
use concurrency_tcp_server.Lines.Cleansed.{CleansedLines}
use concurrency_tcp_server.Lines.RawStrings.{group_or_empty}
use concurrency_tcp_server.Lint.Report.{Linter, Report, error}
use concurrency_tcp_server.Lint.Nolint.{parse_nolint_suppressions}
use concurrency_tcp_server.Names.{FileSystem}
use concurrency_tcp_server.Names.Guard.{get_header_guard_cpp_variable}

-- line.split(): the words between white space; the word being read is given from its end.
abbrev flush : Text → List Text → List Text
flush [] ws = ws
flush (c ∷ w) ws = reverse (c ∷ w) ∷ ws

unfoldable pub words_from : Text → Text → List Text
unfolding is_space
words_from word [] = flush word []
words_from word (c ∷ s) = elim (is_space c) [
  | true ↦ flush word (words_from [] s)
  | false ↦ words_from (c ∷ word) s
]

abbrev pub words : Text → List Text
words line = words_from [] line

-- The variables that the loop of CheckForHeaderGuard sets.
pub record Guards : Type 0 where
  pub ifndef : Text
  pub ifndef_linenum : ℕ
  pub define : Text
  pub endif : Text
  pub endif_linenum : ℕ

abbrev pub no_guards : Guards
no_guards = record { ifndef = []; ifndef_linenum = 0; define = []; endif = []; endif_linenum = 0 }

unfoldable pub see_ifndef : ℕ → Text → Text → Guards → Guards
unfolding text_eq
see_ifndef linenum first second g =
    if text_eq g.ifndef [] && text_eq first (codes "#ifndef")
    then record g { ifndef = second; ifndef_linenum = linenum }
    else g

unfoldable pub see_define : Text → Text → Guards → Guards
unfolding text_eq
see_define first second g =
    if text_eq g.define [] && text_eq first (codes "#define")
    then record g { define = second }
    else g

unfoldable pub see_words : ℕ → List Text → Guards → Guards
unfolding see_ifndef see_define
see_words linenum (first ∷ second ∷ _) g =
    see_define first second (see_ifndef linenum first second g)
see_words linenum _ g = g

unfoldable pub see_endif : ℕ → Text → Guards → Guards
unfolding starts_with
see_endif linenum line g =
    if starts_with (codes "#endif") line
    then record g { endif = line; endif_linenum = linenum }
    else g

-- The loop over the lines, from the line `linenum` on.
unfoldable pub find_guards : ℕ → List Text → Guards → Guards
unfolding words_from see_words see_endif
find_guards linenum [] g = g
find_guards linenum (line ∷ lines) g =
    find_guards (linenum + 1) lines (see_endif linenum line (see_words linenum (words line) g))

-- //\s*NOLINT\(build/header_guard\)
abbrev pub nolint_guard_re : Regex
nolint_guard_re = lit "//" ⊙ spaces ⊙ lit "NOLINT(build/header_guard)"

-- ^\s*#pragma\s+once
abbrev pub pragma_once_re : Regex
pragma_once_re = bol ⊙ spaces ⊙ lit "#pragma" ⊙ plus space ⊙ lit "once"

-- #endif\s*//\s*CPPVAR(_)?\b
abbrev pub line_comment_re : Text → Regex
line_comment_re cppvar =
    lit "#endif"
    ⊙ spaces
    ⊙ lit "//"
    ⊙ spaces
    ⊙ literal cppvar
    ⊙ opt (group 1 (lit "_"))
    ⊙ word_boundary

-- #endif\s*/\*\s*CPPVAR(_)?\s*\*/
abbrev pub block_comment_re : Text → Regex
block_comment_re cppvar =
    lit "#endif"
    ⊙ spaces
    ⊙ lit "/*"
    ⊙ spaces
    ⊙ literal cppvar
    ⊙ opt (group 1 (lit "_"))
    ⊙ spaces
    ⊙ lit "*/"

-- ^(?:(?:\'(?:\.|[^\'])*\')|(?:"(?:\.|[^"])*")|[^\'"])*//
abbrev pub single_line_comment_re : Regex
single_line_comment_re =
    bol
    ⊙ star (
        (lit "'" ⊙ star (lit "." ∣∣ none_of "'") ⊙ lit "'")
        ∣∣ (lit "\"" ⊙ star (lit "." ∣∣ none_of "\"") ⊙ lit "\"")
        ∣∣ none_of "'\"")
    ⊙ lit "//"

abbrev pub guard_report : Text → ℕ → ℕ → Text → Report
guard_report filename linenum confidence message = record {
  filename = filename;
  linenum = linenum;
  category = codes "build/header_guard";
  confidence = confidence;
  message = message;
}

-- if ifndef != cppvar
unfoldable pub check_ifndef : Text → List Text → Text → Guards → Linter → Linter
unfolding text_eq parse_nolint_suppressions error
check_ifndef filename raw_lines cppvar g l =
    let error_level = if text_eq g.ifndef (cppvar ++ codes "_") then 0 else 5 in
    if text_eq g.ifndef cppvar
    then l
    else error
        (guard_report filename g.ifndef_linenum error_level
          (codes "#ifndef header guard has wrong style, please use: " ++ cppvar))
        (parse_nolint_suppressions filename (get_or raw_lines g.ifndef_linenum []) g.ifndef_linenum
          l)

-- A comment that was found behind #endif: a report of low severity if it has a second underscore.
unfoldable pub accept_comment : Report → Found → Linter → Linter
unfolding text_eq group_text error
accept_comment r m l = if text_eq (group_or_empty 1 m) (codes "_") then error r l else l

unfoldable pub endif_message : String → String → Text → Text
endif_message opening closing cppvar =
    codes "#endif line should be \"#endif  "
    ++ codes opening
    ++ cppvar
    ++ codes closing
    ++ codes "\""

-- no_single_line_comments
unfoldable pub no_single_line_comments : List Text → Bool
unfolding matches
no_single_line_comments raw_lines =
    not (any (matches single_line_comment_re) (take (length raw_lines - 2) (drop 1 raw_lines)))

unfoldable pub check_endif : Text → List Text → Text → Guards → Linter → Linter
unfolding match_re no_single_line_comments accept_comment endif_message error
check_endif filename raw_lines cppvar g l =
    let low = λ (message : Text). guard_report filename g.endif_linenum 0 message in
    let slashes = endif_message "// " "" cppvar in
    let missing = error (guard_report filename g.endif_linenum 5 slashes) l in
    elim (match_re (line_comment_re cppvar) g.endif) [
      | some m ↦ accept_comment (low slashes) m l
      | none ↦
          if no_single_line_comments raw_lines
          then elim (match_re (block_comment_re cppvar) g.endif) [
            | some m ↦ accept_comment (low (endif_message "/* " " */" cppvar)) m l
            | none ↦ missing
          ]
          else missing
    ]

unfoldable pub has_guard : Guards → Bool
unfolding text_eq
has_guard g = not (text_eq g.ifndef []) && not (text_eq g.define []) && text_eq g.ifndef g.define

-- CheckForHeaderGuard behind its early returns, for the name that the guard should have
unfoldable pub check_guard : Text → List Text → Text → Linter → Linter
unfolding find_guards has_guard check_ifndef parse_nolint_suppressions check_endif error
check_guard filename raw_lines cppvar l =
    let g = find_guards 0 raw_lines no_guards in
    if has_guard g
    then check_endif filename raw_lines cppvar g (
        parse_nolint_suppressions filename (get_or raw_lines g.endif_linenum []) g.endif_linenum
          (check_ifndef filename raw_lines cppvar g l))
    else error
        (guard_report filename 0 5
          (codes "No #ifndef header guard found, suggested CPP variable is: " ++ cppvar))
        l

-- CheckForHeaderGuard
unfoldable pub check_for_header_guard :
    FileSystem → Text → Text → Text → CleansedLines → Linter → Option Linter
unfolding searches get_header_guard_cpp_variable check_guard
check_for_header_guard fs repository root filename clean_lines l =
    let raw_lines = clean_lines.lines_without_raw_strings in
    if any (searches nolint_guard_re) raw_lines || any (searches pragma_once_re) raw_lines
    then some l
    else Option.map (λ cppvar. check_guard filename raw_lines cppvar l)
        (get_header_guard_cpp_variable fs repository root filename)
