-- ===== src/Lint/Silence.antt =====
-- What a NOLINT comment suppresses: ParseNolintSuppressions of build_support/cpplint.py against
-- IsErrorSuppressedByNolint.
use concurrency_tcp_server.Base.{
  ℕ, ◌+◌, ◌≡◌, refl, ap, Bool, true, false, ◌&&◌, ◌||◌, Option, none, some, List, [], ◌∷◌, Text,
  ◌==◌, if◌then◌else◌, arith, codes, text_eq, text_eq_iff, is_some, inl, inr, Bool-cases,
  starts_with, ends_with,
}
use concurrency_tcp_server.Regex.{Found, search_re, group_text}
use concurrency_tcp_server.Lint.Suppress.{
  Suppressions, add_line, lines_of, is_line, suppress_everywhere, suppress_category,
  is_error_suppressed_by_nolint,
}
use concurrency_tcp_server.Lint.Categories.{is_known, is_legacy}
use concurrency_tcp_server.Lint.Report.{Linter, Report, error}
use concurrency_tcp_server.Lint.Nolint.{
  nolint_re, inner, suppress_named, suppress_group, suppress_match, parse_nolint_suppressions,
}

-- One more line, for every category.
suppressed-everywhere :
    (category : Text) (n line : ℕ) (s : Suppressions)
    → is_error_suppressed_by_nolint category n (suppress_everywhere line s)
      ≡ (line == n || is_error_suppressed_by_nolint category n s)
unfolding is_error_suppressed_by_nolint is_line
suppressed-everywhere category n line s = ground arith

lines_of-add_line :
    (category c : Text) (n line : ℕ) (d : List (Text × List ℕ))
    → is_line n (lines_of c (add_line category line d))
      ≡ (text_eq category c && line == n || is_line n (lines_of c d))
unfolding lines_of add_line is_line
lines_of-add_line category c n line [] = ground arith
lines_of-add_line category c n line ((b, ls) ∷ rest) = ground (
  arith,
  lines_of-add_line category c n line rest,
  text_eq_iff b c,
  text_eq_iff b category,
  text_eq_iff category c,
)

-- One more line, for one category.
suppressed-category :
    (category c : Text) (n line : ℕ) (s : Suppressions)
    → is_error_suppressed_by_nolint c n (suppress_category category line s)
      ≡ (text_eq category c && line == n || is_error_suppressed_by_nolint c n s)
unfolding is_error_suppressed_by_nolint
suppressed-category category c n line s =
    ground (arith, lines_of-add_line category c n line s.by_category)

-- A report changes no suppression.
pub error-suppressions : (r : Report) (l : Linter) → (error r l).suppressions ≡ l.suppressions
unfolding error
error-suppressions r l = ground arith

-- The line that a comment speaks of: the next one for NOLINTNEXTLINE, else its own.
abbrev pub target : Found → ℕ → ℕ
target m linenum = if is_some (group_text 1 m) then linenum + 1 else linenum

-- Whether the category in a comment, with its parentheses, speaks of a category: of all of them if
-- there is none or a star, of itself if the linter knows it, of none otherwise.
abbrev pub speaks_of : Option Text → Text → Bool
speaks_of none c = true
speaks_of (some g) c =
    text_eq g (codes "(*)")
    || (starts_with (codes "(") g
        && ends_with (codes ")") g
        && is_known (inner g)
        && text_eq (inner g) c)

abbrev pub silences : Option Found → ℕ → Text → ℕ → Bool
silences none linenum c n = false
silences (some m) linenum c n = speaks_of (group_text 2 m) c && target m linenum == n

named-silences :
    (filename : Text) (linenum line : ℕ) (category c : Text) (n : ℕ) (l : Linter)
    → is_error_suppressed_by_nolint c n
        (suppress_named filename linenum line category l).suppressions
      ≡ ((is_known category && text_eq category c) && line == n
          || is_error_suppressed_by_nolint c n l.suppressions)
unfolding suppress_named
named-silences filename linenum line category c n l = elim (Bool-cases (is_known category)) [
  | inl k ↦ rw (k, suppress_named) (suppressed-category category c n line l.suppressions)
  | inr k ↦ elim (Bool-cases (is_legacy category)) [
    | inl k' ↦ rw (k, k', suppress_named) refl
    | inr k' ↦
        rw (k, k', suppress_named) (ap (is_error_suppressed_by_nolint c n) (error-suppressions _ l))
  ]
]

group-silences :
    (filename : Text) (linenum line : ℕ) (g : Option Text) (c : Text) (n : ℕ) (l : Linter)
    → is_error_suppressed_by_nolint c n (suppress_group filename linenum line g l).suppressions
      ≡ (speaks_of g c && line == n || is_error_suppressed_by_nolint c n l.suppressions)
unfolding suppress_group
group-silences filename linenum line none c n l = suppressed-everywhere c n line l.suppressions
group-silences filename linenum line (some g) c n l = elim (Bool-cases (text_eq g (codes "(*)"))) [
  | inl k ↦ rw (k, suppress_group) (suppressed-everywhere c n line l.suppressions)
  | inr k ↦ elim (Bool-cases (starts_with (codes "(") g && ends_with (codes ")") g)) [
    | inl k' ↦ rw (k, k', suppress_group) (named-silences filename linenum line (inner g) c n l)
    | inr k' ↦ rw (k, k', suppress_group) refl
  ]
]

-- What is suppressed after a line is parsed, by what the pattern finds in it.
pub parse_nolint-found :
    (filename raw_line : Text) (linenum : ℕ) (c : Text) (n : ℕ) (l : Linter)
    → is_error_suppressed_by_nolint c n
        (parse_nolint_suppressions filename raw_line linenum l).suppressions
      ≡ (silences (search_re nolint_re raw_line) linenum c n
          || is_error_suppressed_by_nolint c n l.suppressions)
unfolding parse_nolint_suppressions
parse_nolint-found filename raw_line linenum c n l = go (search_re nolint_re raw_line)
  where
    go :
        (m : Option Found)
        → is_error_suppressed_by_nolint c n (suppress_match filename linenum m l).suppressions
          ≡ (silences m linenum c n || is_error_suppressed_by_nolint c n l.suppressions)
    go none = refl
    go (some m) = group-silences filename linenum (target m linenum) (group_text 2 m) c n l
