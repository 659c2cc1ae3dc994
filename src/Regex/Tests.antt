-- ===== src/Regex/Tests.antt =====
-- Runs of the matcher.
use concurrency_tcp_server.Base.{◌≡◌, ◌↔◌, ◌++◌, [], reverse, Text, refl, true, false, codes}
use concurrency_tcp_server.Regex.Language.{Accepts}
use concurrency_tcp_server.Regex.Finding.{matches_iff, searches_iff}
use concurrency_tcp_server.Regex.{
  Regex, Cursor, cursor, bol, eol, word_boundary, group, star, matches, searches, sub,
}
use concurrency_tcp_server.Regex.Forms.{◌⊙◌, lit, set_of, none_of, dot, spaces, plus, space}

abbrev include_re : Regex
include_re =
    bol
    ⊙ spaces
    ⊙ lit "#"
    ⊙ spaces
    ⊙ lit "include"
    ⊙ spaces
    ⊙ group 1 (set_of "<\"")
    ⊙ group 2 (star (none_of ">\""))
    ⊙ set_of ">\""
    ⊙ star dot
    ⊙ eol

include_matches : matches include_re (codes "  # include <a/b.h> // x") ≡ true
unfolding matches
include_matches = refl

include_refuses : matches include_re (codes "#include <a/b.h") ≡ false
unfolding matches
include_refuses = refl

word_search : searches (word_boundary ⊙ lit "do" ⊙ word_boundary) (codes "undo do;") ≡ true
unfolding searches
word_search = refl

word_search_inside : searches (word_boundary ⊙ lit "do" ⊙ word_boundary) (codes "undo dos;") ≡ false
unfolding searches
word_search_inside = refl

squeeze : sub (plus space) (codes "_") (codes "a  b c   ") ≡ codes "a_b_c_"
unfolding sub
squeeze = refl

-- An include line is matched; a line without one is not.
matches_iff_example :
    (matches include_re (codes "#include <map>") ≡ true)
    ↔ ((q : Cursor) × Accepts include_re (cursor [] (codes "#include <map>")) q)
matches_iff_example = matches_iff include_re (codes "#include <map>")

searches_iff_example : (searches (lit "lint") (codes "cpplint") ≡ true) ↔ (
    (a : Text) × (b : Text) × (codes "cpplint" ≡ a ++ b)
    × ((q : Cursor) × Accepts (lit "lint") (cursor (reverse a) b) q))
searches_iff_example = searches_iff (lit "lint") (codes "cpplint")
