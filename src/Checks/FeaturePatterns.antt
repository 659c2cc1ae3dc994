-- ===== src/Checks/FeaturePatterns.antt =====
-- build_support/cpplint.py: the patterns of the checks of C++11 and C++14 features, of CheckPrintf and of the
-- tests of functions.
use concurrency_tcp_server.Base.{[], codes, is_digit, ◌∷◌}
use concurrency_tcp_server.Regex.{Regex, bol, char_in, eol, group, star, word_boundary}
use concurrency_tcp_server.Regex.Forms.{
  any_lit, dot, lit, none_of, plus, set_of, space, spaces, word, ◌⊙◌,
}

-- \s*#\s*include\s+[<"]([^<"]+)[">]
abbrev pub header_re : Regex
header_re =
    spaces
    ⊙ lit "#"
    ⊙ spaces
    ⊙ lit "include"
    ⊙ plus space
    ⊙ set_of "<\""
    ⊙ group 1 (plus (none_of "<\""))
    ⊙ set_of "\">"

-- \s*#
abbrev pub hash_re : Regex
hash_re = spaces ⊙ lit "#"

-- \s*#\s*define\b
abbrev pub hash_define_re : Regex
hash_define_re = spaces ⊙ lit "#" ⊙ spaces ⊙ lit "define" ⊙ word_boundary

-- snprintf\s*\(([^,]*),\s*([0-9]*)\s*,
abbrev pub snprintf_re : Regex
snprintf_re =
    lit "snprintf"
    ⊙ spaces
    ⊙ lit "("
    ⊙ group 1 (star (none_of ","))
    ⊙ lit ","
    ⊙ spaces
    ⊙ group 2 (star (char_in (λ c. is_digit c)))
    ⊙ spaces
    ⊙ lit ","

-- \bsprintf\s*\(
abbrev pub sprintf_re : Regex
sprintf_re = word_boundary ⊙ lit "sprintf" ⊙ spaces ⊙ lit "("

-- \b(strcpy|strcat)\s*\(
abbrev pub strcpy_re : Regex
strcpy_re =
    word_boundary ⊙ group 1 (any_lit (codes "strcpy" ∷ codes "strcat" ∷ [])) ⊙ spaces ⊙ lit "("

-- ^([^()]*\w+)\(
abbrev pub function_head_re : Regex
function_head_re = bol ⊙ group 1 (star (none_of "()") ⊙ plus word) ⊙ lit "("

-- ^[^()]*\w+::\w+\(
abbrev pub method_head_re : Regex
method_head_re = bol ⊙ star (none_of "()") ⊙ plus word ⊙ lit "::" ⊙ plus word ⊙ lit "("

-- \boverride\b
abbrev pub override_word_re : Regex
override_word_re = word_boundary ⊙ lit "override" ⊙ word_boundary

-- ^(.*)\{\s*$
abbrev pub body_start_re : Regex
body_start_re = bol ⊙ group 1 (star dot) ⊙ lit "{" ⊙ spaces ⊙ eol

-- \s:\s*\w+[({]
abbrev pub initializer_start_re : Regex
initializer_start_re = space ⊙ lit ":" ⊙ spaces ⊙ plus word ⊙ set_of "({"

-- \}\s*,\s*$
abbrev pub initializer_end_re : Regex
initializer_end_re = lit "}" ⊙ spaces ⊙ lit "," ⊙ spaces ⊙ eol

-- [{};]\s*$
abbrev pub statement_last_re : Regex
statement_last_re = set_of "{};" ⊙ spaces ⊙ eol
