-- ===== src/Reverse.antt =====
-- build_support/cpplint.py: FindStartOfExpressionInLine and ReverseCloseExpression, the search for the
-- bracket that opens an expression. The stack of closing brackets has its top in front.
pub mod Line
pub mod Places
mod Tests
use concurrency_tcp_server.Base.{
  ℕ, zero, suc, ◌+◌, Bool, true, false, not, ◌&&◌, ◌||◌, Option, none, some, List, [], ◌∷◌, reverse,
  ◌==◌, if◌then◌else◌, Text, length, take, drop, get_or, get_elem?,
}
use concurrency_tcp_server.Regex.{matches}
use concurrency_tcp_server.Regex.Forms.{◌⊙◌, lit, space}
use concurrency_tcp_server.Expression.{is_opener, is_closer, closes, after_operator}

-- (index, None), (-1, None) and (-1, stack).
pub data StartResult : Type 0 where
  opened_at : ℕ → StartResult
  unopened : StartResult
  remaining : List ℕ → StartResult

-- One round of the loop goes on with a stack, passes the character before as well, or returns.
pub data BackRound : Type 0 where
  back : List ℕ → BackRound
  pass : List ℕ → BackRound
  done : StartResult → BackRound

-- while stack and stack[-1] == '>': stack.pop()
abbrev pub drop_greater : List ℕ → List ℕ
drop_greater [] = []
drop_greater (x ∷ st) = if x == b'>' then drop_greater st else x ∷ st

-- if not stack: return r
abbrev pub or_return : StartResult → List ℕ → BackRound
or_return r [] = done r
or_return r (x ∷ st) = back (x ∷ st)

-- `>` behind a character: the end of `->`, a `>=` between spaces, or `operator>`
abbrev pub is_arrow : Text → Text → Bool
is_arrow [] after = false
is_arrow (d ∷ before) after =
    d == b'-'
    || matches (space ⊙ lit ">=" ⊙ space) (d ∷ b'>' ∷ after)
    || after_operator (d ∷ before)

abbrev pub is_shift : Text → Bool
is_shift [] = false
is_shift (d ∷ _) = d == b'<'

-- `<`: closed by a `>` on top of the stack, else an operator
abbrev pub less_back : ℕ → List ℕ → BackRound
less_back i [] = back []
less_back i (x ∷ st) = if x == b'>' then or_return (opened_at i) st else back (x ∷ st)

-- An opening bracket, on the stack without its pending `>`.
abbrev pub open_back : ℕ → ℕ → List ℕ → BackRound
open_back i c [] = done unopened
open_back i c (o ∷ st) = if closes c o then or_return (opened_at i) st else done unopened

-- The body of the loop at position i: the text before it from its end, the character, the text behind.
pub back_round : Text → ℕ → ℕ → Text → List ℕ → BackRound
back_round before i c after st =
    if is_closer c
    then back (c ∷ st)
    else if c == b'>'
    then if is_arrow before after then pass st else back (b'>' ∷ st)
    else if c == b'<'
    then if is_shift before then pass st else less_back i st
    else if is_opener c
    then open_back i c (drop_greater st)
    else if c == b';'
    then or_return unopened (drop_greater st)
    else back st

-- The loop, over the text up to its position, from its end. A round passes a character only if there is
-- one before it.
pub find_start : Text → Text → List ℕ → StartResult
find_start [] after st = remaining st
find_start (c ∷ []) after st = elim (back_round [] 0 c after st) [
  | back st' ↦ remaining st'
  | pass st' ↦ remaining st'
  | done r ↦ r
]
find_start (c ∷ d ∷ before) after st =
    elim (back_round (d ∷ before) (length (d ∷ before)) c after st) [
      | back st' ↦ find_start (d ∷ before) (c ∷ after) st'
      | pass st' ↦ find_start before (d ∷ c ∷ after) st'
      | done r ↦ r
    ]

-- FindStartOfExpressionInLine. The number is endpos + 1, up to len(line).
unfoldable pub find_start_of_expression_in_line : Text → ℕ → List ℕ → StartResult
unfolding find_start back_round matches after_operator
find_start_of_expression_in_line line stop_at st =
    find_start (reverse (take stop_at line)) (drop stop_at line) st

-- The line, and the number of a line with the position in it; `none` for 0 and -1.
abbrev pub OpeningPlace : Type 0
OpeningPlace = Text × Option (ℕ × ℕ)

-- The lines above `linenum`, while the stack holds something.
unfoldable pub open_above : List Text → Text → ℕ → List ℕ → OpeningPlace
open_above elided line linenum [] = (line, none)
open_above elided line zero (x ∷ st) = (line, none)
open_above elided line (suc n) (x ∷ st) =
    let above = get_or elided n [] in
    elim (find_start_of_expression_in_line above (length above) (x ∷ st)) [
      | opened_at p ↦ (above, some (n, p))
      | unopened ↦ (above, none)
      | remaining st' ↦ open_above elided above n st'
    ]

open_first : List Text → Text → ℕ → StartResult → OpeningPlace
open_first elided line linenum (opened_at p) = (line, some (linenum, p))
open_first elided line linenum unopened = (line, none)
open_first elided line linenum (remaining st) = open_above elided line linenum st

open_on_line : List Text → Text → ℕ → ℕ → ℕ → OpeningPlace
unfolding open_first
open_on_line elided line linenum pos c =
    if not (is_closer c || c == b'>')
    then (line, none)
    else open_first elided line linenum (find_start_of_expression_in_line line (pos + 1) [])

-- ReverseCloseExpression; `none` where indexing the lines, or the line, raises.
unfoldable pub reverse_close_expression : List Text → ℕ → ℕ → Option OpeningPlace
unfolding open_on_line open_above open_first find_start_of_expression_in_line
reverse_close_expression elided linenum pos = elim (get_elem? elided linenum) [
  | none ↦ none
  | some line ↦ elim (get_elem? line pos) [
    | none ↦ none
    | some c ↦ some (open_on_line elided line linenum pos c)
  ]
]
