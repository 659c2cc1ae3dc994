-- ===== src/Checks/BracePatterns.antt =====
-- build_support/cpplint.py: the patterns of CheckBraces.
use concurrency_tcp_server.Base.{is_space, not, ◌||◌}
use concurrency_tcp_server.Regex.{Regex, bol, char_in, eol, group, star, word_boundary}
use concurrency_tcp_server.Regex.Forms.{in_set, lit, none_of, opt, set_of, spaces, ◌∣∣◌, ◌⊙◌}

-- \s*{\s*$
abbrev pub only_brace_re : Regex
only_brace_re = spaces ⊙ lit "{" ⊙ spaces ⊙ eol

-- [,;:}{(]\s*$
abbrev pub open_end_re : Regex
open_end_re = set_of ",;:}{(" ⊙ spaces ⊙ eol

-- \s*#
abbrev pub preprocessor_re : Regex
preprocessor_re = spaces ⊙ lit "#"

-- \s*else\b\s*(?:if\b|\{|$)
abbrev pub else_re : Regex
else_re =
    spaces ⊙ lit "else" ⊙ word_boundary ⊙ spaces ⊙ ((lit "if" ⊙ word_boundary) ∣∣ lit "{" ∣∣ eol)

-- \s*}\s*$
abbrev pub only_close_brace_re : Regex
only_close_brace_re = spaces ⊙ lit "}" ⊙ spaces ⊙ eol

-- else if\s*\(
abbrev pub else_if_re : Regex
else_if_re = lit "else if" ⊙ spaces ⊙ lit "("

-- }\s*else if\s*\(
abbrev pub brace_else_if_re : Regex
brace_else_if_re = lit "}" ⊙ spaces ⊙ lit "else if" ⊙ spaces ⊙ lit "("

-- }\s*else[^{]*$
abbrev pub brace_else_re : Regex
brace_else_re = lit "}" ⊙ spaces ⊙ lit "else" ⊙ star (none_of "{") ⊙ eol

-- [^}]*else\s*{
abbrev pub else_brace_re : Regex
else_brace_re = star (none_of "}") ⊙ lit "else" ⊙ spaces ⊙ lit "{"

-- \belse [^\s{]
abbrev pub else_clause_re : Regex
else_clause_re = word_boundary ⊙ lit "else " ⊙ char_in (λ c. not (in_set "{" c || is_space c))

-- \belse if\b
abbrev pub else_if_word_re : Regex
else_if_word_re = word_boundary ⊙ lit "else if" ⊙ word_boundary

-- \s*do [^\s{]
abbrev pub do_re : Regex
do_re = spaces ⊙ lit "do " ⊙ char_in (λ c. not (in_set "{" c || is_space c))

-- \b(if\s*\(|else\b)
abbrev pub if_else_re : Regex
if_else_re = word_boundary ⊙ group 1 ((lit "if" ⊙ spaces ⊙ lit "(") ∣∣ (lit "else" ⊙ word_boundary))

-- \bif\s*\(
abbrev pub if_re : Regex
if_re = word_boundary ⊙ lit "if" ⊙ spaces ⊙ lit "("

-- \s*{
abbrev pub brace_next_re : Regex
brace_next_re = spaces ⊙ lit "{"

-- \s*$
abbrev pub spaces_end_re : Regex
spaces_end_re = spaces ⊙ eol

-- ;[\s}]*(\\?)$
abbrev pub semicolon_end_re : Regex
semicolon_end_re =
    lit ";" ⊙ star (char_in (λ c. in_set "}" c || is_space c)) ⊙ group 1 (opt (lit "\\")) ⊙ eol

-- ^[^{};]*\[[^\[\]]*\][^{}]*\{[^{}]*\}\s*\)*[;,]\s*$
abbrev pub lambda_re : Regex
lambda_re =
    bol
    ⊙ star (none_of "{};")
    ⊙ lit "["
    ⊙ star (none_of "[]")
    ⊙ lit "]"
    ⊙ star (none_of "{}")
    ⊙ lit "{"
    ⊙ star (none_of "{}")
    ⊙ lit "}"
    ⊙ spaces
    ⊙ star (lit ")")
    ⊙ set_of ";,"
    ⊙ spaces
    ⊙ eol

-- \s*else\b
abbrev pub else_line_re : Regex
else_line_re = spaces ⊙ lit "else" ⊙ word_boundary
