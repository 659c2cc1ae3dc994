-- ===== src/Expression/Tests.antt =====
-- The search for closing brackets on concrete lines, and instances of the theorems about it.
use concurrency_tcp_server.Base.{◌≡◌, refl, some, List, [], ◌∷◌, ◌++◌, Text, codes}
use concurrency_tcp_server.Regex.{matches, searches}
use concurrency_tcp_server.Expression.{
  found, gave_up, pending, find_end_of_expression_in_line, close_expression,
}
use concurrency_tcp_server.Expression.Grammar.{IsBalanced, empty, plain, bracket}
use concurrency_tcp_server.Expression.Complete.{find_end-closing}
use concurrency_tcp_server.Expression.Sound.{IsExpression, find_end-IsExpression}
use concurrency_tcp_server.Expression.Lines.{IsPlace, close_expression-IsPlace}

call_line : find_end_of_expression_in_line (codes "f(a < b, c[1]);") 1 [] ≡ found 14
unfolding find_end_of_expression_in_line searches
call_line = refl

template_line : find_end_of_expression_in_line (codes "map<int, set<int> > m;") 3 [] ≡ found 19
unfolding find_end_of_expression_in_line searches
template_line = refl

mismatch : find_end_of_expression_in_line (codes "f(a]") 1 [] ≡ gave_up
unfolding find_end_of_expression_in_line
mismatch = refl

unfinished : find_end_of_expression_in_line (codes "f(a, {b") 1 [] ≡ pending (codes "{(")
unfolding find_end_of_expression_in_line
unfinished = refl

abbrev call_lines : List Text
call_lines = codes "f(a," ∷ codes "  b);" ∷ []

closed_below : close_expression call_lines 0 1 ≡ some (codes "  b);", 1, some 4)
unfolding close_expression matches
closed_below = refl

-- a < b[0]
body-IsBalanced : IsBalanced (codes "a<b[0]")
body-IsBalanced = plain b'a' refl refl (
    plain b'<' refl refl (
      plain b'b' refl refl
        (bracket b'[' b']' (codes "0") [] refl (plain b'0' refl refl empty) empty refl)))

find_end-closing_example :
    find_end_of_expression_in_line
      (codes "f" ++ (b'(' ∷ (codes "a<b[0]" ++ (b')' ∷ codes ";"))))
      1
      []
    ≡ found 9
find_end-closing_example =
    find_end-closing (codes "f") (codes "a<b[0]") (codes ";") b'(' b')' body-IsBalanced refl

find_end-IsExpression_example : IsExpression (codes "f(a < b, c[1]);") 1 14
find_end-IsExpression_example =
    find_end-IsExpression (codes "f(a < b, c[1]);") 1 14 b'(' (codes "a < b, c[1]);") refl refl
      call_line

close_expression-IsPlace_example : IsPlace call_lines 0 (codes "  b);", 1, some 4) 4
close_expression-IsPlace_example =
    close_expression-IsPlace call_lines 0 1 4 1 (codes "  b);") closed_below
