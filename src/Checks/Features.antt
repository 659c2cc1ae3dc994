-- ===== src/Checks/Features.antt =====
-- build_support/cpplint.py: FlagCxx11Features, FlagCxx14Features, CheckPrintf and tests of functions.
use concurrency_tcp_server.Base.{
  Bool, List, Option, Text, [], codes, drop, false, get_or, if◌then◌else◌, length, ltb, none, not,
  one_of, some, starts_with, suc, text_eq, true, zero, ℕ, ◌&&◌, ◌++◌, ◌+◌, ◌-◌, ◌∷◌,
}
use concurrency_tcp_server.Regex.{
  Found, Regex, group_text, match_re, matches, search_re, searches, word_boundary,
}
use concurrency_tcp_server.Regex.Forms.{lit, literal, ◌⊙◌}
use concurrency_tcp_server.Lines.Cleansed.{CleansedLines}
use concurrency_tcp_server.Lines.RawStrings.{group_or_empty}
use concurrency_tcp_server.Lint.Report.{Report, say, say_if}
use concurrency_tcp_server.Checks.Places.{closing_place}
use concurrency_tcp_server.Checks.FeaturePatterns.{
  header_re, hash_re, hash_define_re, snprintf_re, sprintf_re, strcpy_re, function_head_re,
  method_head_re, override_word_re, body_start_re, initializer_start_re, initializer_end_re,
  statement_last_re,
}

-- include.group(1), if the line includes a header
unfoldable pub included_header : Text → Option Text
unfolding match_re group_text
included_header line = elim (match_re header_re line) [
  | none ↦ none
  | some m ↦ some (group_or_empty 1 m)
]

abbrev pub cpp11_headers : List Text
cpp11_headers =
    codes "cfenv"
    ∷ codes "condition_variable"
    ∷ codes "fenv.h"
    ∷ codes "future"
    ∷ codes "mutex"
    ∷ codes "thread"
    ∷ codes "chrono"
    ∷ codes "ratio"
    ∷ codes "regex"
    ∷ codes "system_error"
    ∷ []

header_calls : Text → ℕ → Option Text → List Report
unfolding starts_with text_eq
header_calls filename linenum none = []
header_calls filename linenum (some header) =
    say_if (starts_with (codes "tr1/") header) (
      say filename linenum "build/c++tr1" 5
        (codes "C++ TR1 headers such as <" ++ header ++ codes "> are unapproved."))
    ++ say_if (one_of header cpp11_headers) (
        say filename linenum "build/c++11" 5
          (codes "<" ++ header ++ codes "> is an unapproved C++11 header."))

-- \bstd::name\b
abbrev pub std_re : Text → Regex
std_re name = word_boundary ⊙ lit "std::" ⊙ literal name ⊙ word_boundary

std_calls : Text → ℕ → Text → List Text → List Report
unfolding searches
std_calls filename linenum line [] = []
std_calls filename linenum line (name ∷ names) =
    say_if (searches (std_re name) line) (
      say filename linenum "build/c++11" 5 (
        codes "std::"
        ++ name
        ++ codes
            " is an unapproved C++11 class or function.  Send c-style an example of where it would make your code more readable, and they may let you use it."))
    ++ std_calls filename linenum line names

-- FlagCxx11Features
unfoldable pub flag_cxx11_features : Text → CleansedLines → ℕ → List Report
unfolding included_header header_calls std_calls matches
flag_cxx11_features filename clean linenum =
    let line = get_or clean.elided linenum [] in
    header_calls filename linenum (included_header line)
    ++ (if matches hash_re line && not (matches hash_define_re line)
        then []
        else std_calls filename linenum line (codes "alignment_of" ∷ codes "aligned_union" ∷ []))

cpp14_calls : Text → ℕ → Option Text → List Report
unfolding text_eq
cpp14_calls filename linenum none = []
cpp14_calls filename linenum (some header) =
    say_if (one_of header (codes "scoped_allocator" ∷ codes "shared_mutex" ∷ [])) (
      say filename linenum "build/c++14" 5
        (codes "<" ++ header ++ codes "> is an unapproved C++14 header."))

-- FlagCxx14Features
unfoldable pub flag_cxx14_features : Text → CleansedLines → ℕ → List Report
unfolding included_header cpp14_calls
flag_cxx14_features filename clean linenum =
    cpp14_calls filename linenum (included_header (get_or clean.elided linenum []))

unfoldable pub snprintf_calls : Text → ℕ → Option Found → List Report
unfolding group_text text_eq
snprintf_calls filename linenum none = []
snprintf_calls filename linenum (some m) = say_if (not (text_eq (group_or_empty 2 m) (codes "0"))) (
    say filename linenum "runtime/printf" 3 (
      codes "If you can, use sizeof("
      ++ group_or_empty 1 m
      ++ codes ") instead of "
      ++ group_or_empty 2 m
      ++ codes " as the 2nd arg to snprintf."))

unfoldable pub strcpy_calls : Text → ℕ → Option Found → List Report
unfolding group_text
strcpy_calls filename linenum none = []
strcpy_calls filename linenum (some m) =
    say filename linenum "runtime/printf" 4
      (codes "Almost always, snprintf is better than " ++ group_or_empty 1 m)

-- CheckPrintf
unfoldable pub check_printf : Text → CleansedLines → ℕ → List Report
unfolding search_re searches snprintf_calls strcpy_calls
check_printf filename clean linenum =
    let line = get_or clean.elided linenum [] in
    snprintf_calls filename linenum (search_re snprintf_re line)
    ++ say_if (searches sprintf_re line)
        (say filename linenum "runtime/printf" 5 (codes "Never use sprintf. Use snprintf instead."))
    ++ strcpy_calls filename linenum (search_re strcpy_re line)

-- The loop of IsDerivedFunction over k lines, from line n up.
unfoldable pub derived_go : List Text → ℕ → ℕ → Bool
unfolding match_re group_text closing_place searches
derived_go elided zero n = false
derived_go elided (suc k) n = elim (match_re function_head_re (get_or elided n [])) [
  | none ↦ derived_go elided k (n - 1)
  | some m ↦ elim (closing_place elided n (length (group_or_empty 1 m))) [
    | none ↦ false
    | some (line, _, closing_paren) ↦ searches override_word_re (drop closing_paren line)
  ]
]

-- The number of lines from linenum up, ten at most.
abbrev pub up_to_ten : ℕ → ℕ
up_to_ten linenum = if ltb linenum 9 then linenum + 1 else 10

-- IsDerivedFunction
unfoldable pub is_derived_function : CleansedLines → ℕ → Bool
unfolding derived_go
is_derived_function clean linenum = derived_go clean.elided (up_to_ten linenum) linenum

unfoldable pub out_of_line_go : List Text → ℕ → ℕ → Bool
unfolding matches
out_of_line_go elided zero n = false
out_of_line_go elided (suc k) n =
    let further = out_of_line_go elided k (n - 1) in
    let line = get_or elided n [] in
    if matches function_head_re line then matches method_head_re line else further

-- IsOutOfLineMethodDefinition
unfoldable pub is_out_of_line_method_definition : CleansedLines → ℕ → Bool
unfolding out_of_line_go
is_out_of_line_method_definition clean linenum =
    out_of_line_go clean.elided (up_to_ten linenum) linenum

without_body : Text → Text
unfolding match_re group_text
without_body line = elim (match_re body_start_re line) [ none ↦ line | some m ↦ group_or_empty 1 m ]

-- One line of the loop of IsInitializerList: an answer, or none to go on.
unfoldable pub initializer_line : Text → Option Bool
unfolding searches
initializer_line line =
    if searches initializer_start_re line
    then some true
    else if searches initializer_end_re line
    then some true
    else if searches statement_last_re line
    then some false
    else none

-- The lines from n down to 2.
unfoldable pub initializer_go : List Text → ℕ → Bool
unfolding initializer_line
initializer_go elided zero = false
initializer_go elided (suc n) = elim (initializer_line (get_or elided (suc n) [])) [
  | some answer ↦ answer
  | none ↦ elim n [ zero ↦ false | suc zero ↦ false | suc (suc _) ↦ initializer_go elided n ]
]

-- IsInitializerList
unfoldable pub is_initializer_list : CleansedLines → ℕ → Bool
unfolding without_body initializer_line initializer_go
is_initializer_list clean linenum =
    if ltb 1 linenum
    then elim (initializer_line (without_body (get_or clean.elided linenum []))) [
      | some answer ↦ answer
      | none ↦ if ltb 2 linenum then initializer_go clean.elided (linenum - 1) else false
    ]
    else false
