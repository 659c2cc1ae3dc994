-- ===== src/Lint/Tests.antt =====
-- Reports, filters and suppressions on concrete data, and instances of the theorems about them.
use concurrency_tcp_server.Base.{
  ap, length, arith, ◌==◌, decimal, ends_with, ◌+◌, ◌≡◌, ◌↔◌, refl, true, false, ◌&&◌, ◌||◌, none,
  some, inr, List, [], ◌∷◌, ◌++◌, Text, codes, all, reverse, split, or_default, if◌then◌else◌,
  text_eq, split, starts_with, text_eq,
}
use concurrency_tcp_server.Regex.{search_re, group_text}
use concurrency_tcp_server.Lint.Categories.{default_filters, is_known}
use concurrency_tcp_server.Lint.State.{
  CppLintState, new_state, has_sign, clean_filters, set_filters, add_filters, reset_error_counts,
  increment_error_count,
}
use concurrency_tcp_server.Lint.Suppress.{
  add_line, lines_of, no_suppressions, is_error_suppressed_by_nolint, Suppressions,
}
use concurrency_tcp_server.Lint.Report.{
  Linter, Report, is_filtered, apply_filter, should_print_error, emit, error,
}
use concurrency_tcp_server.Lint.Nolint.{suppress_named, parse_nolint_suppressions}
use concurrency_tcp_server.Lint.Filters.{
  first_verdict, is_filtered-last, set_filters-none, add_filters-comma, Joins,
}
use concurrency_tcp_server.Lint.Counts.{
  IsBalanced, report_all, count_of, counts_categories, printed, report_all-IsBalanced, error-counts,
}
use concurrency_tcp_server.Lint.Comments.{IsNolint, parse_nolint-silences}

abbrev detailed : CppLintState
detailed = record new_state { counting = codes "detailed" }

abbrev fresh : Linter
fresh = record { state = detailed; suppressions = no_suppressions }

abbrev tab : Report
tab = record {
  filename = codes "a.cc";
  linenum = 3;
  category = codes "whitespace/tab";
  confidence = 1;
  message = codes "Tab found";
}

tab_text : (error tab fresh).state.stderr ≡ codes "a.cc:3:  Tab found  [whitespace/tab] [1]\n" ∷ []
unfolding error should_print_error is_error_suppressed_by_nolint is_filtered apply_filter
    starts_with emit increment_error_count text_eq decimal
    concurrency_tcp_server.Lint.Suppress.lines_of
tab_text = refl

abbrev silent_line : Text
silent_line = codes "int\tx;  // NOLINT(whitespace/tab)"

silenced :
    is_error_suppressed_by_nolint
      (codes "whitespace/tab")
      3
      (parse_nolint_suppressions (codes "a.cc") silent_line 3 fresh).suppressions
    ≡ true
unfolding parse_nolint_suppressions search_re suppress_named is_known is_error_suppressed_by_nolint
    group_text text_eq starts_with ends_with add_line lines_of
silenced = refl

abbrev some_filters : List Text
some_filters = codes "-whitespace" ∷ codes "+whitespace/tab" ∷ []

is_filtered-last_example : is_filtered (codes "whitespace/tab") some_filters false ≡ (
    if all has_sign some_filters
    then some (or_default false (first_verdict (codes "whitespace/tab") (reverse some_filters)))
    else none)
is_filtered-last_example = is_filtered-last (codes "whitespace/tab") some_filters false

set_filters-none_example :
    (((set_filters (codes "-a, +b") detailed).1 ≡ none)
      ↔ (all has_sign (clean_filters (split b',' (codes "-a, +b"))) ≡ true))
    × (((set_filters (codes "-a, +b") detailed).1 ≡ none)
        ↔ (all has_sign (set_filters (codes "-a, +b") detailed).0.filters ≡ true))
    × ((set_filters (codes "-a, +b") detailed).0.filters
        ≡ default_filters ++ clean_filters (split b',' (codes "-a, +b")))
set_filters-none_example = set_filters-none (codes "-a, +b") detailed

add_filters-comma_example :
    Joins
      (codes "b")
      (add_filters (codes "-a") detailed)
      (add_filters (codes "-a" ++ (b',' ∷ codes "b")) detailed)
add_filters-comma_example = add_filters-comma (codes "-a") (codes "b") detailed

detailed_counts : counts_categories detailed ≡ true
unfolding text_eq
detailed_counts = refl

report_all-IsBalanced_example :
    IsBalanced
      (report_all (tab ∷ tab ∷ []) (record fresh { state = reset_error_counts fresh.state })).state
report_all-IsBalanced_example = report_all-IsBalanced (tab ∷ tab ∷ []) fresh detailed_counts

abbrev by_part : Linter
by_part = record fresh { state = record detailed { counting = codes "toplevel" } }

error-counts_example :
    ((error tab by_part).state.error_count ≡ 0 + (if printed tab by_part then 1 else 0))
    × (count_of (codes "whitespace") (error tab by_part).state.errors_by_category
        ≡ count_of (codes "whitespace") []
          + (if printed tab by_part && text_eq (codes "whitespace") (codes "whitespace")
              then 1
              else 0))
error-counts_example =
    error-counts tab by_part (codes "whitespace") (codes "whitespace")
      (inr (refl, codes "/tab", refl, refl, refl))

silent-IsNolint : IsNolint silent_line false (codes "whitespace/tab")
unfolding concurrency_tcp_server.Base.find concurrency_tcp_server.Base.is_word
silent-IsNolint = record {
  before = codes "int\tx;  // ";
  behind = [];
  line_is = refl;
  is_first = refl;
  new_word = refl;
  filled = λ e. ground (arith, ap length e);
  inside = refl;
}

parse_nolint-silences_example :
    is_error_suppressed_by_nolint
      (codes "whitespace/tab")
      3
      (parse_nolint_suppressions (codes "a.cc") silent_line 3 fresh).suppressions
    ≡ ((text_eq (codes "whitespace/tab") (codes "*")
            || (is_known (codes "whitespace/tab")
                && text_eq (codes "whitespace/tab") (codes "whitespace/tab")))
          && 3 == 3
        || is_error_suppressed_by_nolint (codes "whitespace/tab") 3 no_suppressions)
parse_nolint-silences_example =
    parse_nolint-silences (codes "a.cc") silent_line 3 false (codes "whitespace/tab")
      (codes "whitespace/tab") 3 fresh silent-IsNolint
