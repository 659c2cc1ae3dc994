-- ===== src/Checks/Tests.antt =====
-- Runs of the models of the checks at concrete lines.
use concurrency_tcp_server.Base.{
  ◌≡◌, ◌↔◌, ◌⊎◌, refl, true, false, none, some, List, [], ◌∷◌, map, Text, codes,
}
use concurrency_tcp_server.Regex.{matches, searches}
use concurrency_tcp_server.Checks.Spacing.{bracket_word_re}
use concurrency_tcp_server.Checks.BracePatterns.{else_re}
use concurrency_tcp_server.Checks.BraceSpacing.{types_re}
use concurrency_tcp_server.Lines.Cleansed.{CleansedLines}
use concurrency_tcp_server.Lint.Report.{Report}
use concurrency_tcp_server.Checks.Nonstandard.{collapse_args, constructor_calls}
use concurrency_tcp_server.Checks.Arguments.{Collapses, NeverCloses, collapse_args_lem}
use concurrency_tcp_server.Checks.Features.{check_printf}
use concurrency_tcp_server.Checks.Printf.{has_certain, CallsSprintf, check_printf_iff}
use concurrency_tcp_server.Checks.FunctionSpacing.{check_spacing_for_function_call}
use concurrency_tcp_server.Checks.Macros.{check_check}
use concurrency_tcp_server.Checks.EmptyBodies.{check_empty_block_body}
use concurrency_tcp_server.Checks.Tokens.{check_alt_tokens}

abbrev file : CleansedLines
file = record {
  elided =
      codes "  sprintf (buf, \"\");"
      ∷ codes "  f( a);"
      ∷ codes "  CHECK(a == 42);"
      ∷ codes "  if (a) {}"
      ∷ codes "  if (not a or b) {"
      ∷ [];
  lines = [];
  raw_lines =
      codes "  sprintf (buf, \"\");"
      ∷ codes "  f( a);"
      ∷ codes "  CHECK(a == 42);"
      ∷ codes "  if (a) {}"
      ∷ codes "  if (not a or b) {"
      ∷ [];
  num_lines = 5;
  lines_without_raw_strings = [];
}

abbrev name : Text
name = codes "a.cc"

abbrev messages : List Report → List Text
messages calls = map (λ (r : Report). r.message) calls

space_in_call :
    messages (check_spacing_for_function_call name file 1)
    ≡ codes "Extra space after ( in function call" ∷ []
unfolding check_spacing_for_function_call
space_in_call = refl

check_macro :
    messages (check_check name file 2)
    ≡ codes "Consider using CHECK_EQ instead of CHECK(a == b)" ∷ []
unfolding check_check concurrency_tcp_server.Expression.close_expression
check_macro = refl

empty_body :
    messages (check_empty_block_body name file 3)
    ≡ codes "If statement had no body and no else clause" ∷ []
unfolding check_empty_block_body concurrency_tcp_server.Expression.close_expression
    concurrency_tcp_server.Regex.matches
empty_body = refl

alt_tokens :
    messages (check_alt_tokens name file 4)
    ≡ codes "Use operator ! instead of not" ∷ codes "Use operator || instead of or" ∷ []
unfolding check_alt_tokens
alt_tokens = refl

-- A comparison in a default argument raises the IndexError.
default_raises : constructor_calls name 3 (codes "Foo") (codes "  Foo(bool b = x < y);") ≡ none
unfolding constructor_calls
default_raises = refl

collapse_args_lem_example :
    ((r : List Text) × (collapse_args (codes "Map<int" ∷ codes " int> m" ∷ []) ≡ some r)
      × Collapses (codes "Map<int") (codes " int> m" ∷ []) r)
    ⊎ ((collapse_args (codes "Map<int" ∷ codes " int> m" ∷ []) ≡ none)
        × NeverCloses (codes "Map<int") (codes " int> m" ∷ []))
collapse_args_lem_example = collapse_args_lem (codes "Map<int") (codes " int> m" ∷ [])

check_printf_iff_example :
    (has_certain (check_printf name file 0) ≡ true) ↔ CallsSprintf (codes "  sprintf (buf, \"\");")
check_printf_iff_example = check_printf_iff name file 0

-- The bracket has to follow the word.
auto_elsewhere : searches bracket_word_re (codes "auto y = a [1];") ≡ false
unfolding searches
auto_elsewhere = refl

auto_binding : searches bracket_word_re (codes "auto [x, y] = z;") ≡ true
unfolding searches
auto_binding = refl

-- A brace alone is no else, and a word that begins with int is no type.
brace_alone : matches else_re (codes "{") ≡ false
unfolding matches
brace_alone = refl

internal_word : matches types_re (codes "internal") ≡ false
unfolding matches
internal_word = refl

long_int : matches types_re (codes "uint_fast32_t") ≡ true
unfolding matches
long_int = refl
