-- ===== src/Expression.antt =====
-- build_support/cpplint.py: FindEndOfExpressionInLine and CloseExpression, the search for the bracket
-- that closes an expression. The stack of open brackets has its top in front.
pub mod Grammar
mod Rounds
pub mod Sound
pub mod Complete
pub mod Lines
pub mod Advances
mod Tests
use concurrency_tcp_server.Base.{
  ℕ, zero, suc, ◌+◌, Bool, true, false, not, ◌&&◌, ◌||◌, Option, none, some, List, [], ◌∷◌, reverse,
  Text, ◌==◌, if◌then◌else◌, length, take, drop, get_elem?, codes,
}
use concurrency_tcp_server.Regex.{word_boundary, eol, bol, matches, searches}
use concurrency_tcp_server.Regex.Forms.{◌⊙◌, lit, spaces, set_of}

-- (end_pos, None), (-1, None) and (-1, stack).
pub data EndResult : Type 0 where
  found : ℕ → EndResult
  gave_up : EndResult
  pending : List ℕ → EndResult

-- One round of the loop goes on with a stack, or returns.
pub data Round : Type 0 where
  keep : List ℕ → Round
  stop : EndResult → Round

abbrev pub is_opener : ℕ → Bool
is_opener c = c == b'(' || c == b'[' || c == b'{'

abbrev pub is_closer : ℕ → Bool
is_closer c = c == b')' || c == b']' || c == b'}'

-- The three cases of the test that a bracket closes the one on top.
abbrev pub closes : ℕ → ℕ → Bool
closes o c = o == b'(' && c == b')' || o == b'[' && c == b']' || o == b'{' && c == b'}'

-- Search(r'\boperator\s*$', text), for a text given from its end
unfoldable pub after_operator : Text → Bool
after_operator before = searches (word_boundary ⊙ lit "operator" ⊙ spaces ⊙ eol) (reverse before)

-- while stack and stack[-1] == '<': stack.pop()
abbrev pub drop_angles : List ℕ → List ℕ
drop_angles [] = []
drop_angles (x ∷ st) = if x == b'<' then drop_angles st else x ∷ st

abbrev previous_is : ℕ → Text → Bool
previous_is c [] = false
previous_is c (b ∷ _) = b == c

-- if not stack: return r
abbrev unless_empty : EndResult → List ℕ → Round
unless_empty r [] = stop r
unless_empty r (x ∷ st) = keep (x ∷ st)

-- stack[-1] == '<': pop, and return `r` if nothing is left
abbrev pop_angle : EndResult → List ℕ → Round
pop_angle r [] = keep []
pop_angle r (x ∷ st) = if x == b'<' then unless_empty r st else keep (x ∷ st)

-- `<`: a shift operator, `operator<`, or the start of template arguments
less_round : Text → List ℕ → Round
less_round before st =
    if previous_is b'<' before
    then pop_angle gave_up st
    else if after_operator before
    then keep st
    else keep (b'<' ∷ st)

-- A closing bracket, on the stack without its pending `<`.
abbrev pub close_round : ℕ → ℕ → List ℕ → Round
close_round i c [] = stop gave_up
close_round i c (o ∷ st) = if closes o c then unless_empty (found (i + 1)) st else stop gave_up

-- `>`: not the end of `->`, nor of `operator>`
abbrev arrow_or_operator : Text → Bool
arrow_or_operator [] = false
arrow_or_operator (b ∷ before) = b == b'-' || after_operator before

pub end_round : Text → ℕ → ℕ → List ℕ → Round
unfolding less_round
end_round before i c st =
    if is_opener c
    then keep (c ∷ st)
    else if c == b'<'
    then less_round before st
    else if is_closer c
    then close_round i c (drop_angles st)
    else if c == b'>'
    then if arrow_or_operator before then keep st else pop_angle (found (i + 1)) st
    else if c == b';'
    then unless_empty gave_up (drop_angles st)
    else keep st

-- The loop at position i: what stands before it (from its end), and what is left of the line.
pub find_end : Text → ℕ → Text → List ℕ → EndResult
find_end before i [] st = pending st
find_end before i (c ∷ cs) st = elim (end_round before i c st) [
  | keep st' ↦ find_end (c ∷ before) (i + 1) cs st'
  | stop r ↦ r
]

unfoldable pub find_end_of_expression_in_line : Text → ℕ → List ℕ → EndResult
unfolding find_end end_round after_operator
find_end_of_expression_in_line line startpos st =
    find_end (reverse (take startpos line)) startpos (drop startpos line) st

-- The line, its number and the position behind the closing bracket, `none` for -1.
abbrev pub Closing : Type 0
Closing = Text × ℕ × Option ℕ

-- The lines below `linenum`, while the stack holds something.
unfoldable pub close_below : ℕ → Text → ℕ → List Text → List ℕ → Closing
close_below total line linenum rest [] = (line, total, none)
close_below total line linenum [] (x ∷ st) = (line, total, none)
close_below total line linenum (next ∷ rest) (x ∷ st) =
    elim (find_end_of_expression_in_line next 0 (x ∷ st)) [
      | found p ↦ (next, linenum + 1, some p)
      | gave_up ↦ (next, total, none)
      | pending st' ↦ close_below total next (linenum + 1) rest st'
    ]

abbrev starts_expression : Text → Bool
starts_expression [] = false
starts_expression (c ∷ s) = is_opener c || c == b'<'

close_first : ℕ → Text → ℕ → List Text → EndResult → Closing
close_first total line linenum rest (found p) = (line, linenum, some p)
close_first total line linenum rest gave_up = (line, total, none)
close_first total line linenum rest (pending st) = close_below total line linenum rest st

-- if (line[pos] not in '({[<') or Match(r'<[<=]', line[pos:])
refuses : Text → ℕ → Bool
refuses line pos =
    not (starts_expression (drop pos line)) || matches (lit "<" ⊙ set_of "<=") (drop pos line)

close_on_line : List Text → Text → ℕ → ℕ → Closing
unfolding close_first refuses
close_on_line elided line linenum pos =
    if refuses line pos
    then (line, length elided, none)
    else close_first (length elided) line linenum (drop (suc linenum) elided)
        (find_end_of_expression_in_line line pos [])

-- `none` where indexing the lines, or the line, raises. The number of lines is that of `elided`.
unfoldable pub close_expression : List Text → ℕ → ℕ → Option Closing
unfolding close_on_line refuses close_first close_below find_end_of_expression_in_line
close_expression elided linenum pos = elim (get_elem? elided linenum) [
  | none ↦ none
  | some line ↦ elim (get_elem? line pos) [
    | none ↦ none
    | some _ ↦ some (close_on_line elided line linenum pos)
  ]
]
