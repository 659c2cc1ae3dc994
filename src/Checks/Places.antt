-- ===== src/Checks/Places.antt =====
-- build_support/cpplint.py: helpers of the checks, IsBlankLine, GetPreviousNonBlankLine and others.
use concurrency_tcp_server.Base.{
  Bool, List, Option, Text, [], find, get_or, if◌then◌else◌, is_some, is_space, none, some, suc,
  zero, ℕ, ◌==◌, ◌∷◌,
}
use concurrency_tcp_server.Lines.Cleansed.{CleansedLines}
use concurrency_tcp_server.Expression.{close_expression}
use concurrency_tcp_server.Reverse.{reverse_close_expression}
use concurrency_tcp_server.Files.{is_blank_line}

-- lines[linenum - 1]; below the first line that is the last one, as Python counts from the end.
abbrev last_text : Text → List Text → Text
last_text d [] = d
last_text d (line ∷ rest) = last_text line rest

abbrev pub previous_line : List Text → ℕ → Text
previous_line lines zero = last_text [] lines
previous_line lines (suc n) = get_or lines n []

-- The position that CloseExpression returns, `none` for -1. It is called at a character of the line.
unfoldable pub closing_place : List Text → ℕ → ℕ → Option (Text × ℕ × ℕ)
closing_place elided linenum pos = elim (close_expression elided linenum pos) [
  | none ↦ none
  | some (line, n, none) ↦ none
  | some (line, n, some p) ↦ some (line, n, p)
]

-- The line and position that ReverseCloseExpression returns.
unfoldable pub opening_place : List Text → ℕ → ℕ → Option (Text × ℕ × ℕ)
opening_place elided linenum pos = elim (reverse_close_expression elided linenum pos) [
  | none ↦ none
  | some (line, none) ↦ none
  | some (line, some (n, p)) ↦ some (line, n, p)
]

go_up : List Text → ℕ → Option (Text × ℕ)
unfolding is_space
go_up lines zero = none
go_up lines (suc n) =
    let above = go_up lines n in
    let line = get_or lines n [] in if is_blank_line line then above else some (line, n)

-- GetPreviousNonBlankLine, with `none` for ('', -1)
unfoldable pub get_previous_non_blank_line : CleansedLines → ℕ → Option (Text × ℕ)
unfolding go_up
get_previous_non_blank_line clean linenum = go_up clean.elided linenum

abbrev pub text_of : Option (Text × ℕ) → Text
text_of none = []
text_of (some (line, _)) = line

-- s.rfind(c), for one character
unfoldable pub rfind : ℕ → Text → Option ℕ
rfind c [] = none
rfind c (x ∷ s) = elim (rfind c s) [
  | some i ↦ some (suc i)
  | none ↦ if x == c then some 0 else none
]

-- part in s
unfoldable pub contains : Text → Text → Bool
unfolding find
contains part s = is_some (find part s)
