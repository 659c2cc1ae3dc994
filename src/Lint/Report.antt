-- ===== src/Lint/Report.antt =====
-- build_support/cpplint.py: _ShouldPrintError and Error, the report of an error.
use concurrency_tcp_server.Base.{
  ℕ, Bool, true, false, Option, none, some, List, [], ◌∷◌, ◌++◌, Text, ◌==◌, ltb, if◌then◌else◌,
  codes, String, text_eq, starts_with, decimal,
}
use concurrency_tcp_server.Lint.State.{
  CppLintState, increment_error_count, print_error, add_junit_failure,
}
use concurrency_tcp_server.Lint.Suppress.{Suppressions, is_error_suppressed_by_nolint}

-- The module's variables that an error report reads or writes.
pub record Linter : Type 0 where
  pub state : CppLintState
  pub suppressions : Suppressions

-- One round of the loop over the filters; none is the AssertionError for a filter with no sign.
unfoldable pub apply_filter : Text → Text → Bool → Option Bool
apply_filter category [] filtered = none
apply_filter category (sign ∷ prefix) filtered =
    if sign == b'-'
    then some (if starts_with prefix category then true else filtered)
    else if sign == b'+'
    then some (if starts_with prefix category then false else filtered)
    else none

unfoldable pub is_filtered : Text → List Text → Bool → Option Bool
unfolding apply_filter
is_filtered category [] filtered = some filtered
is_filtered category (f ∷ fs) filtered = elim (apply_filter category f filtered) [
  | none ↦ none
  | some next ↦ is_filtered category fs next
]

-- A report is held back by the filters, or the assertion fails: that ends the run, so nothing is printed.
abbrev pub is_held_back : Option Bool → Bool
is_held_back none = true
is_held_back (some filtered) = filtered

-- _ShouldPrintError
unfoldable pub should_print_error : Text → ℕ → ℕ → Linter → Bool
unfolding is_filtered
should_print_error category confidence linenum l =
    if is_error_suppressed_by_nolint category linenum l.suppressions
    then false
    else if ltb confidence l.state.verbose_level
    then false
    else if is_held_back (is_filtered category l.state.filters false)
    then false
    else true

pub record Report : Type 0 where
  pub filename : Text
  pub linenum : ℕ
  pub category : Text
  pub confidence : ℕ
  pub message : Text

abbrev write_stderr : Text → CppLintState → CppLintState
write_stderr message s = record s { stderr = s.stderr ++ (message ∷ []) }

infixr 60 ◌⋯◌
abbrev ◌⋯◌ : Text → Text → Text
a ⋯ b = a ++ b

-- The ladder of output formats.
unfoldable pub emit : Report → CppLintState → CppLintState
emit r s =
    if text_eq s.output_format (codes "vs7")
    then print_error
        (r.filename
          ⋯ codes "("
          ⋯ decimal r.linenum
          ⋯ codes "): error cpplint: ["
          ⋯ r.category
          ⋯ codes "] "
          ⋯ r.message
          ⋯ codes " ["
          ⋯ decimal r.confidence
          ⋯ codes "]\n")
        s
    else if text_eq s.output_format (codes "eclipse")
    then write_stderr
        (r.filename
          ⋯ codes ":"
          ⋯ decimal r.linenum
          ⋯ codes ": warning: "
          ⋯ r.message
          ⋯ codes "  ["
          ⋯ r.category
          ⋯ codes "] ["
          ⋯ decimal r.confidence
          ⋯ codes "]\n")
        s
    else if text_eq s.output_format (codes "junit")
    then add_junit_failure
        (record {
          filename = r.filename;
          linenum = r.linenum;
          message = r.message;
          category = r.category;
          confidence = r.confidence;
        })
        s
    else write_stderr
        (r.filename
          ⋯ codes ":"
          ⋯ decimal r.linenum
          ⋯ codes ":  "
          ⋯ r.message
          ⋯ codes "  ["
          ⋯ r.category
          ⋯ codes "] ["
          ⋯ decimal r.confidence
          ⋯ codes "]\n")
        s

-- Error
unfoldable pub error : Report → Linter → Linter
error r l =
    if should_print_error r.category r.confidence r.linenum l
    then record l { state = emit r (increment_error_count r.category l.state) }
    else l

-- A call of the argument `error` that the checks are given. A check is modelled as the list of the calls
-- that it makes, in order.
abbrev pub say : Text → ℕ → String → ℕ → Text → List Report
say filename linenum category confidence message =
    record {
      filename = filename;
      linenum = linenum;
      category = codes category;
      confidence = confidence;
      message = message;
    }
    ∷ []

abbrev pub say_if : Bool → List Report → List Report
say_if b calls = if b then calls else []
