-- ===== src/Checks/Comments.antt =====
-- build_support/cpplint.py: CheckComment.
use concurrency_tcp_server.Base.{
  Bool, List, Option, Text, [], codes, count, drop, find, get_or, if◌then◌else◌, leb, length, ltb,
  none, not, some, take, text_eq, true, ℕ, ◌%◌, ◌&&◌, ◌++◌, ◌-◌, ◌==◌, ◌||◌, ◌∷◌,
}
use concurrency_tcp_server.Regex.{
  Found, Regex, bol, eol, group, group_text, match_re, matches, star, sub,
}
use concurrency_tcp_server.Regex.Forms.{
  any_lit, dot, lazy_plus, lit, none_of, opt, plus, space, spaces, word, ◌∣∣◌, ◌⊙◌,
}
use concurrency_tcp_server.Lines.RawStrings.{group_or_empty}
use concurrency_tcp_server.Lint.Report.{Report, say, say_if}

-- \\.
abbrev pub escaped_char_re : Regex
escaped_char_re = lit "\\" ⊙ dot

-- ^.*{ *//
abbrev pub new_scope_re : Regex
new_scope_re = bol ⊙ star dot ⊙ lit "{" ⊙ star (lit " ") ⊙ lit "//"

-- ^//(\s*)TODO(\(.+?\))?:?(\s|$)?
abbrev pub todo_re : Regex
todo_re =
    bol
    ⊙ lit "//"
    ⊙ group 1 spaces
    ⊙ lit "TODO"
    ⊙ opt (group 2 (lit "(" ⊙ lazy_plus dot ⊙ lit ")"))
    ⊙ opt (lit ":")
    ⊙ opt (group 3 (space ∣∣ eol))

-- //[^ ]*\w
abbrev pub unspaced_re : Regex
unspaced_re = lit "//" ⊙ star (none_of " ") ⊙ word

-- (///|//\!)(\s+|$)
abbrev pub doxygen_re : Regex
doxygen_re = group 1 (any_lit (codes "///" ∷ codes "//!" ∷ [])) ⊙ group 2 (plus space ∣∣ eol)

-- string.whitespace
abbrev pub ascii_whitespace : ℕ → Bool
ascii_whitespace c = c == 32 || leb 9 c && leb c 13

-- line[i] not in string.whitespace, for a character of the line
abbrev solid_at : Text → ℕ → Bool
solid_at line i = not (ascii_whitespace (get_or line i 32))

-- At most one space before the comment.
abbrev pub is_close : Text → ℕ → Bool
is_close line pos = leb 1 pos && solid_at line (pos - 1) || leb 2 pos && solid_at line (pos - 2)

abbrev pub is_even : ℕ → Bool
is_even n = n % 2 == 0

-- middle_whitespace != ' ' and middle_whitespace != '', which a group that took no part also is
unfoldable pub unspaced_todo : Option Text → Bool
unfolding text_eq
unspaced_todo none = true
unspaced_todo (some middle) = not (text_eq middle (codes " ")) && not (text_eq middle [])

todo_calls : Text → ℕ → Found → List Report
unfolding group_text unspaced_todo
todo_calls filename linenum m =
    say_if (ltb 1 (length (group_or_empty 1 m)))
      (say filename linenum "whitespace/todo" 2 (codes "Too many spaces before TODO"))
    ++ say_if (length (group_or_empty 2 m) == 0) (
        say filename linenum "readability/todo" 2
          (codes "Missing username in TODO; it should look like \"// TODO(my_username): Stuff.\""))
    ++ say_if (unspaced_todo (group_text 3 m)) (
        say filename linenum "whitespace/todo" 2
          (codes "TODO(my_username) should be followed by a space"))

todo_part : Text → ℕ → Option Found → List Report
unfolding todo_calls
todo_part filename linenum none = []
todo_part filename linenum (some m) = todo_calls filename linenum m

comment_text_calls : Text → ℕ → Text → List Report
unfolding match_re matches todo_part
comment_text_calls filename linenum comment =
    todo_part filename linenum (match_re todo_re comment)
    ++ say_if (matches unspaced_re comment && not (matches doxygen_re comment)) (
        say filename linenum "whitespace/comments" 4
          (codes "Should have a space between // and comment"))

-- CheckComment, with the position of // in the line.
comment_at : Text → Text → ℕ → ℕ → ℕ → List Report
unfolding comment_text_calls matches count sub
comment_at line filename linenum next_line_start pos =
    if is_even (count (codes "\"") (sub escaped_char_re [] (take pos line)))
    then say_if (not (matches new_scope_re line && next_line_start == pos) && is_close line pos) (
        say filename linenum "whitespace/comments" 2
          (codes "At least two spaces is best between code and comments"))
      ++ comment_text_calls filename linenum (drop pos line)
    else []

-- CheckComment
unfoldable pub check_comment : Text → Text → ℕ → ℕ → List Report
unfolding find comment_at
check_comment line filename linenum next_line_start = elim (find (codes "//") line) [
  | none ↦ []
  | some pos ↦ comment_at line filename linenum next_line_start pos
]
