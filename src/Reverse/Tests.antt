-- ===== src/Reverse/Tests.antt =====
-- Runs of the search for the opening bracket.
use concurrency_tcp_server.Base.{◌≡◌, refl, some, List, [], ◌∷◌, Text, codes}
use concurrency_tcp_server.Reverse.{
  opened_at, unopened, remaining, find_start_of_expression_in_line, reverse_close_expression,
}
use concurrency_tcp_server.Reverse.Places.{IsPlaceAbove, reverse_close_expression-IsPlaceAbove}

abbrev elided : List Text
elided = codes "call(a->b," ∷ codes "     c >> d, x[0]);" ∷ []

-- Arrows and shifts are no brackets.
reverse_close_expression-above :
    reverse_close_expression elided 1 17 ≡ some (codes "call(a->b,", some (0, 4))
unfolding reverse_close_expression concurrency_tcp_server.Regex.searches
reverse_close_expression-above = refl

find_start-template :
    find_start_of_expression_in_line (codes "map<int, set<int>>") 18 [] ≡ opened_at 3
unfolding find_start_of_expression_in_line concurrency_tcp_server.Regex.searches
find_start-template = refl

find_start-mismatch : find_start_of_expression_in_line (codes "f[a)") 4 [] ≡ unopened
unfolding find_start_of_expression_in_line
find_start-mismatch = refl

find_start-remaining : find_start_of_expression_in_line (codes "a, b)") 5 [] ≡ remaining (b')' ∷ [])
unfolding find_start_of_expression_in_line
find_start-remaining = refl

reverse_close_expression-IsPlaceAbove_example : IsPlaceAbove elided 1 (codes "call(a->b,") 0 4
reverse_close_expression-IsPlaceAbove_example =
    reverse_close_expression-IsPlaceAbove elided 1 17 0 4 (codes "call(a->b,")
      reverse_close_expression-above
