-- ===== src/Lint/State.antt =====
-- build_support/cpplint.py: the class _CppLintState. A method returns the new state; what it prints is
-- appended to the two output streams, which are kept beside the fields of the class.
use concurrency_tcp_server.Base.{
  ℕ, ◌+◌, Bool, false, not, ◌||◌, Option, none, some, List, [], ◌∷◌, ◌++◌, Text, ◌==◌, ltb,
  if◌then◌else◌, codes, text_eq, text_lt, one_of, split, strip, decimal,
}
use concurrency_tcp_server.Lint.Categories.{default_filters}

-- An entry of _junit_failures.
pub record Failure : Type 0 where
  pub filename : Text
  pub linenum : ℕ
  pub message : Text
  pub category : Text
  pub confidence : ℕ

pub record CppLintState : Type 0 where
  pub verbose_level : ℕ
  pub error_count : ℕ
  pub filters : List Text
  pub filters_backup : List Text
  pub counting : Text
  pub errors_by_category : List (Text × ℕ)
  pub quiet : Bool
  pub output_format : Text
  pub junit_errors : List Text
  pub junit_failures : List Failure
  pub stdout : List Text
  pub stderr : List Text

-- __init__
abbrev pub new_state : CppLintState
new_state = record {
  verbose_level = 1;
  error_count = 0;
  filters = default_filters;
  filters_backup = default_filters;
  counting = codes "total";
  errors_by_category = [];
  quiet = false;
  output_format = codes "emacs";
  junit_errors = [];
  junit_failures = [];
  stdout = [];
  stderr = [];
}

abbrev pub set_output_format : Text → CppLintState → CppLintState
set_output_format format s = record s { output_format = format }

-- SetQuiet and SetVerboseLevel also return the setting before.
abbrev pub set_quiet : Bool → CppLintState → CppLintState × Bool
set_quiet quiet s = (record s { quiet = quiet }, s.quiet)

abbrev pub set_verbose_level : ℕ → CppLintState → CppLintState × ℕ
set_verbose_level level s = (record s { verbose_level = level }, s.verbose_level)

abbrev pub set_counting_style : Text → CppLintState → CppLintState
set_counting_style style s = record s { counting = style }

-- if clean_filt: the list with the filter in front
unfoldable pub add_filter : Text → List Text → List Text
add_filter [] fs = fs
add_filter (c ∷ f) fs = (c ∷ f) ∷ fs

-- The filters that a comma-separated list names.
unfoldable pub clean_filters : List Text → List Text
clean_filters [] = []
clean_filters (filt ∷ rest) = add_filter (strip filt) (clean_filters rest)

-- filt.startswith('+') or filt.startswith('-')
abbrev pub has_sign : Text → Bool
has_sign [] = false
has_sign (c ∷ _) = c == b'+' || c == b'-'

-- The first filter that has no sign.
unfoldable pub first_bad : List Text → Option Text
first_bad [] = none
first_bad (f ∷ fs) = if has_sign f then first_bad fs else some f

-- AddFilters: the state, and the filter for which ValueError is raised. The list has been extended
-- when the error is raised.
unfoldable pub add_filters : Text → CppLintState → CppLintState × Option Text
unfolding clean_filters add_filter first_bad
add_filters filters s =
    let all_filters = s.filters ++ clean_filters (split b',' filters) in
    (record s { filters = all_filters }, first_bad all_filters)

-- SetFilters
unfoldable pub set_filters : Text → CppLintState → CppLintState × Option Text
unfolding add_filters
set_filters filters s = add_filters filters (record s { filters = default_filters })

abbrev pub backup_filters : CppLintState → CppLintState
backup_filters s = record s { filters_backup = s.filters }

abbrev pub restore_filters : CppLintState → CppLintState
restore_filters s = record s { filters = s.filters_backup }

abbrev pub reset_error_counts : CppLintState → CppLintState
reset_error_counts s = record s { error_count = 0; errors_by_category = [] }

-- if category not in d: d[category] = 0; d[category] += 1
unfoldable pub bump : Text → List (Text × ℕ) → List (Text × ℕ)
bump category [] = (category, 1) ∷ []
bump category ((c, n) ∷ rest) =
    if text_eq c category then (c, n + 1) ∷ rest else (c, n) ∷ bump category rest

-- category.split('/')[0]
abbrev pub first_part : List Text → Text
first_part [] = []
first_part (p ∷ _) = p

unfoldable pub counted_category : Text → Text → Text
counted_category counting category =
    if not (text_eq counting (codes "detailed")) then first_part (split b'/' category) else category

-- IncrementErrorCount
unfoldable pub increment_error_count : Text → CppLintState → CppLintState
unfolding bump counted_category
increment_error_count category s =
    let counted = record s { error_count = s.error_count + 1 } in
    if one_of s.counting (codes "toplevel" ∷ codes "detailed" ∷ [])
    then record counted {
      errors_by_category = bump (counted_category s.counting category) s.errors_by_category;
    }
    else counted

-- PrintInfo; the module's variable _quiet, which nothing in the file sets, is False
unfoldable pub print_info : Text → CppLintState → CppLintState
print_info message s =
    if not (text_eq s.output_format (codes "junit"))
    then record s { stdout = s.stdout ++ (message ∷ []) }
    else s

-- PrintError
unfoldable pub print_error : Text → CppLintState → CppLintState
print_error message s =
    if text_eq s.output_format (codes "junit")
    then record s { junit_errors = s.junit_errors ++ (message ∷ []) }
    else record s { stderr = s.stderr ++ (message ∷ []) }

abbrev pub add_junit_failure : Failure → CppLintState → CppLintState
add_junit_failure failure s = record s { junit_failures = s.junit_failures ++ (failure ∷ []) }

-- sorted(...) on the items of a dict: by key, the keys being different
insert_item : Text × ℕ → List (Text × ℕ) → List (Text × ℕ)
insert_item (c, n) [] = (c, n) ∷ []
insert_item (c, n) ((d, m) ∷ rest) =
    if text_lt c d then (c, n) ∷ (d, m) ∷ rest else (d, m) ∷ insert_item (c, n) rest

unfoldable pub sort_items : List (Text × ℕ) → List (Text × ℕ)
unfolding insert_item
sort_items [] = []
sort_items (item ∷ items) = insert_item item (sort_items items)

print_categories_go : List (Text × ℕ) → CppLintState → CppLintState
unfolding print_info
print_categories_go [] s = s
print_categories_go ((category, n) ∷ rest) s = print_categories_go rest (
    print_info
      (codes "Category '" ++ (category ++ (codes "' errors found: " ++ (decimal n ++ codes "\n"))))
      s)

-- PrintErrorCounts
unfoldable pub print_error_counts : CppLintState → CppLintState
unfolding print_categories_go sort_items print_info
print_error_counts s =
    let listed = print_categories_go (sort_items s.errors_by_category) s in
    if ltb 0 s.error_count
    then print_info (codes "Total errors found: " ++ (decimal s.error_count ++ codes "\n")) listed
    else listed
