-- ===== src/Lint/Nolint.antt =====
-- build_support/cpplint.py: ParseNolintSuppressions and ProcessGlobalSuppresions.
use concurrency_tcp_server.Base.{
  ℕ, ◌+◌, ◌-◌, not, ◌&&◌, Option, none, some, List, [], ◌∷◌, ◌++◌, Text, if◌then◌else◌, codes,
  text_eq, starts_with, ends_with, drop, take, length, is_some,
}
use concurrency_tcp_server.Regex.{
  Regex, star, group, eol, word_boundary, Found, search_re, searches, group_text,
}
use concurrency_tcp_server.Regex.Forms.{◌⊙◌, ◌∣∣◌, lit, opt, plus, none_of, spaces, dot}
use concurrency_tcp_server.Lint.Categories.{
  is_known, is_legacy, default_c_suppressed_categories, default_kernel_suppressed_categories,
}
use concurrency_tcp_server.Lint.Suppress.{Suppressions, suppress_everywhere, suppress_category}
use concurrency_tcp_server.Lint.Report.{Linter, error}

-- \bNOLINT(NEXTLINE)?\b(\([^)]+\))?
abbrev pub nolint_re : Regex
nolint_re =
    word_boundary
    ⊙ lit "NOLINT"
    ⊙ opt (group 1 (lit "NEXTLINE"))
    ⊙ word_boundary
    ⊙ opt (group 2 (lit "(" ⊙ plus (none_of ")") ⊙ lit ")"))

-- s[1:-1]
abbrev pub inner : Text → Text
inner s = take (length s - 2) (drop 1 s)

-- The branches on the category, which is given in parentheses.
unfoldable pub suppress_named : Text → ℕ → ℕ → Text → Linter → Linter
suppress_named filename linenum line category l =
    if is_known category
    then record l { suppressions = suppress_category category line l.suppressions }
    else if not (is_legacy category)
    then error
        (record {
          filename = filename;
          linenum = linenum;
          category = codes "readability/nolint";
          confidence = 5;
          message = codes "Unknown NOLINT error category: " ++ category;
        })
        l
    else l

unfoldable pub suppress_group : Text → ℕ → ℕ → Option Text → Linter → Linter
suppress_group filename linenum line none l = record l {
  suppressions = suppress_everywhere line l.suppressions;
}
suppress_group filename linenum line (some category) l =
    if text_eq category (codes "(*)")
    then record l { suppressions = suppress_everywhere line l.suppressions }
    else if starts_with (codes "(") category && ends_with (codes ")") category
    then suppress_named filename linenum line (inner category) l
    else l

unfoldable pub suppress_match : Text → ℕ → Option Found → Linter → Linter
unfolding suppress_group
suppress_match filename linenum none l = l
suppress_match filename linenum (some m) l =
    suppress_group filename linenum (if is_some (group_text 1 m) then linenum + 1 else linenum)
      (group_text 2 m) l

-- ParseNolintSuppressions
unfoldable pub parse_nolint_suppressions : Text → Text → ℕ → Linter → Linter
unfolding suppress_match
parse_nolint_suppressions filename raw_line linenum l =
    suppress_match filename linenum (search_re nolint_re raw_line) l

-- _SEARCH_C_FILE
abbrev pub search_c_file : Regex
search_c_file =
    word_boundary
    ⊙ (lit "LINT_C_FILE"
        ∣∣ (lit "vi"
            ⊙ opt (lit "m")
            ⊙ lit ":"
            ⊙ spaces
            ⊙ star dot
            ⊙ (spaces ∣∣ lit ":")
            ⊙ lit "filetype=c"
            ⊙ (spaces ∣∣ lit ":" ∣∣ eol)))

-- _SEARCH_KERNEL_FILE
abbrev pub search_kernel_file : Regex
search_kernel_file = word_boundary ⊙ lit "LINT_KERNEL_FILE"

-- _global_error_suppressions[category] = True, for each category
abbrev suppress_globally : List Text → Suppressions → Suppressions
suppress_globally categories s = record s { global_categories = categories ++ s.global_categories }

global_line : Text → Suppressions → Suppressions
global_line line s =
    let c =
      if searches search_c_file line
      then suppress_globally default_c_suppressed_categories s
      else s in
    if searches search_kernel_file line
    then suppress_globally default_kernel_suppressed_categories c
    else c

-- ProcessGlobalSuppresions
unfoldable pub process_global_suppressions : List Text → Suppressions → Suppressions
unfolding global_line
process_global_suppressions [] s = s
process_global_suppressions (line ∷ lines) s =
    process_global_suppressions lines (global_line line s)
