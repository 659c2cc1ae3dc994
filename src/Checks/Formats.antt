-- ===== src/Checks/Formats.antt =====
-- build_support/cpplint.py: CheckForNonStandardConstructs, the formats and the declarations.
use concurrency_tcp_server.Base.{List, Text, [], codes, is_space, not, replace, ℕ, ◌++◌, ◌||◌, ◌∷◌}
use concurrency_tcp_server.Regex.{
  Regex, bol, char_in, group, matches, searches, star, word_boundary,
}
use concurrency_tcp_server.Regex.Forms.{
  any_lit, digit, dot, in_set, lit, opt, plus, set_of, space, spaces, word, ◌∣∣◌, ◌⊙◌,
}
use concurrency_tcp_server.Lint.Report.{Report, say, say_if}

-- printf\s*\(.*".*%[-+ ]?\d*q
abbrev pub q_format_re : Regex
q_format_re =
    lit "printf"
    ⊙ spaces
    ⊙ lit "("
    ⊙ star dot
    ⊙ lit "\""
    ⊙ star dot
    ⊙ lit "%"
    ⊙ opt (set_of "-+ ")
    ⊙ star digit
    ⊙ lit "q"

-- printf\s*\(.*".*%\d+\$
abbrev pub n_format_re : Regex
n_format_re =
    lit "printf"
    ⊙ spaces
    ⊙ lit "("
    ⊙ star dot
    ⊙ lit "\""
    ⊙ star dot
    ⊙ lit "%"
    ⊙ plus digit
    ⊙ lit "$"

-- ("|\').*\\(%|\[|\(|{)
abbrev pub escape_re : Regex
escape_re =
    group 1 (any_lit (codes "\"" ∷ codes "'" ∷ []))
    ⊙ star dot
    ⊙ lit "\\"
    ⊙ group 2 (any_lit (codes "%" ∷ codes "[" ∷ codes "(" ∷ codes "{" ∷ []))

-- \b(const|volatile|void|char|short|int|long|float|double|signed|unsigned|schar|u?int8|u?int16|u?int32|u?int64)\s+(register|static|extern|typedef)\b
abbrev pub storage_class_re : Regex
storage_class_re =
    word_boundary
    ⊙ group 1 (
        lit "const"
        ∣∣ lit "volatile"
        ∣∣ lit "void"
        ∣∣ lit "char"
        ∣∣ lit "short"
        ∣∣ lit "int"
        ∣∣ lit "long"
        ∣∣ lit "float"
        ∣∣ lit "double"
        ∣∣ lit "signed"
        ∣∣ lit "unsigned"
        ∣∣ lit "schar"
        ∣∣ (opt (lit "u") ⊙ lit "int8")
        ∣∣ (opt (lit "u") ⊙ lit "int16")
        ∣∣ (opt (lit "u") ⊙ lit "int32")
        ∣∣ (opt (lit "u") ⊙ lit "int64"))
    ⊙ plus space
    ⊙ group 2 (any_lit (codes "register" ∷ codes "static" ∷ codes "extern" ∷ codes "typedef" ∷ []))
    ⊙ word_boundary

-- \s*#\s*endif\s*[^/\s]+
abbrev pub endif_comment_re : Regex
endif_comment_re =
    spaces
    ⊙ lit "#"
    ⊙ spaces
    ⊙ lit "endif"
    ⊙ spaces
    ⊙ plus (char_in (λ c. not (in_set "/" c || is_space c)))

-- \s*class\s+(\w+\s*::\s*)+\w+\s*;
abbrev pub forward_decl_re : Regex
forward_decl_re =
    spaces
    ⊙ lit "class"
    ⊙ plus space
    ⊙ plus (group 1 (plus word ⊙ spaces ⊙ lit "::" ⊙ spaces))
    ⊙ plus word
    ⊙ spaces
    ⊙ lit ";"

-- (\w+|[+-]?\d+(\.\d*)?)\s*(<|>)\?=?\s*(\w+|[+-]?\d+)(\.\d*)?
abbrev pub min_max_re : Regex
min_max_re =
    group 1 (plus word ∣∣ (opt (set_of "+-") ⊙ plus digit ⊙ opt (group 2 (lit "." ⊙ star digit))))
    ⊙ spaces
    ⊙ group 3 (any_lit (codes "<" ∷ codes ">" ∷ []))
    ⊙ lit "?"
    ⊙ opt (lit "=")
    ⊙ spaces
    ⊙ group 4 (plus word ∣∣ (opt (set_of "+-") ⊙ plus digit))
    ⊙ opt (group 5 (lit "." ⊙ star digit))

-- ^\s*const\s*string\s*&\s*\w+\s*;
abbrev pub string_reference_re : Regex
string_reference_re =
    bol
    ⊙ spaces
    ⊙ lit "const"
    ⊙ spaces
    ⊙ lit "string"
    ⊙ spaces
    ⊙ lit "&"
    ⊙ spaces
    ⊙ plus word
    ⊙ spaces
    ⊙ lit ";"

-- The checks for printf formats and escapes, on the line with its strings.
unfoldable pub format_calls : Text → ℕ → Text → List Report
unfolding searches replace
format_calls filename linenum line =
    say_if (searches q_format_re line) (
      say filename linenum "runtime/printf_format" 3
        (codes "%q in format strings is deprecated.  Use %ll instead."))
    ++ say_if (searches n_format_re line) (
        say filename linenum "runtime/printf_format" 2
          (codes "%N$ formats are unconventional.  Try rewriting to avoid them."))
    ++ say_if (searches escape_re (replace (codes "\\\\") [] line)) (
        say filename linenum "build/printf_format" 3
          (codes "%, [, (, and { are undefined character escapes.  Unescape them."))

-- The checks that need the line only.
unfoldable pub declaration_calls : Text → ℕ → Text → List Report
unfolding searches matches
declaration_calls filename linenum line =
    say_if (searches storage_class_re line) (
      say filename linenum "build/storage_class" 5 (
        codes
          "Storage-class specifier (static, extern, typedef, etc) should be at the beginning of the declaration."))
    ++ say_if (matches endif_comment_re line) (
        say filename linenum "build/endif_comment" 5
          (codes "Uncommented text after #endif is non-standard.  Use a comment."))
    ++ say_if (matches forward_decl_re line) (
        say filename linenum "build/forward_decl" 5
          (codes "Inner-style forward declarations are invalid.  Remove this line."))
    ++ say_if (searches min_max_re line) (
        say filename linenum "build/deprecated" 3
          (codes ">? and <? (max and min) operators are non-standard and deprecated."))
    ++ say_if (searches string_reference_re line) (
        say filename linenum "runtime/member_string_references" 2 (
          codes
            "const string& members are dangerous. It is much better to use alternatives, such as pointers or simple constants."))
