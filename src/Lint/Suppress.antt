-- ===== src/Lint/Suppress.antt =====
-- build_support/cpplint.py: the two stores of suppressed errors, _error_suppressions and
-- _global_error_suppressions.
use concurrency_tcp_server.Base.{
  ℕ, Bool, ◌||◌, List, [], ◌∷◌, Text, ◌==◌, if◌then◌else◌, any, text_eq, one_of,
}

-- `everywhere` is the entry of the key None; the sets of lines are lists, read by membership only.
pub record Suppressions : Type 0 where
  pub everywhere : List ℕ
  pub by_category : List (Text × List ℕ)
  pub global_categories : List Text

abbrev pub no_suppressions : Suppressions
no_suppressions = record { everywhere = []; by_category = []; global_categories = [] }

-- d.setdefault(category, set()).add(line)
unfoldable pub add_line : Text → ℕ → List (Text × List ℕ) → List (Text × List ℕ)
add_line category line [] = (category, line ∷ []) ∷ []
add_line category line ((c, ls) ∷ rest) =
    if text_eq c category then (c, line ∷ ls) ∷ rest else (c, ls) ∷ add_line category line rest

-- d.get(category, set())
unfoldable pub lines_of : Text → List (Text × List ℕ) → List ℕ
lines_of category [] = []
lines_of category ((c, ls) ∷ rest) = if text_eq c category then ls else lines_of category rest

-- line in set
unfoldable pub is_line : ℕ → List ℕ → Bool
is_line line ls = any (◌==◌ line) ls

-- _error_suppressions.setdefault(None, set()).add(line)
abbrev pub suppress_everywhere : ℕ → Suppressions → Suppressions
suppress_everywhere line s = record s { everywhere = line ∷ s.everywhere }

-- _error_suppressions.setdefault(category, set()).add(line)
abbrev pub suppress_category : Text → ℕ → Suppressions → Suppressions
suppress_category category line s = record s { by_category = add_line category line s.by_category }

-- ResetNolintSuppressions
abbrev pub reset_nolint_suppressions : Suppressions → Suppressions
reset_nolint_suppressions s = no_suppressions

-- IsErrorSuppressedByNolint
unfoldable pub is_error_suppressed_by_nolint : Text → ℕ → Suppressions → Bool
unfolding is_line
is_error_suppressed_by_nolint category linenum s =
    one_of category s.global_categories
    || is_line linenum (lines_of category s.by_category)
    || is_line linenum s.everywhere
