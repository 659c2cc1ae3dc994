-- ===== src/Lines/Comments.antt =====
-- build_support/cpplint.py: the removal of comments that span lines.
use concurrency_tcp_server.Base.{
  ℕ, zero, suc, ◌+◌, ◌-◌, Bool, not, ◌&&◌, Option, none, some, List, [], ◌∷◌, Text, if◌then◌else◌,
  codes, ltb, leb, length, drop, set, strip, starts_with, ends_with, find_from, is_some, or_default,
}
use mathlib.Core.Option
use concurrency_tcp_server.Lint.Report.{Linter, Report, error}

-- lines[lineix].strip().startswith('/*'), and the comment goes beyond the line
unfoldable pub begins_comment : Text → Bool
begins_comment line =
    starts_with (codes "/*") (strip line) && not (is_some (find_from 2 (codes "*/") (strip line)))

-- lines[lineix].strip().endswith('*/')
unfoldable pub ends_comment : Text → Bool
ends_comment line = ends_with (codes "*/") (strip line)

-- The first line that passes a test.
unfoldable pub find_first : (Text → Bool) → List Text → Option ℕ
find_first p [] = none
find_first p (l ∷ ls) = if p l then some 0 else Option.map suc (find_first p ls)

-- FindNextMultiLineCommentStart, for an index up to len(lines)
unfoldable pub find_next_multi_line_comment_start : List Text → ℕ → ℕ
unfolding find_first
find_next_multi_line_comment_start lines lineix =
    or_default (length lines)
      (Option.map (λ k. lineix + k) (find_first begins_comment (drop lineix lines)))

-- FindNextMultiLineCommentEnd, for an index up to len(lines)
unfoldable pub find_next_multi_line_comment_end : List Text → ℕ → ℕ
unfolding find_first
find_next_multi_line_comment_end lines lineix =
    or_default (length lines)
      (Option.map (λ k. lineix + k) (find_first ends_comment (drop lineix lines)))

abbrev pub blank_comment : Text
blank_comment = codes "/**/"

-- The loop of RemoveMultiLineCommentsFromRange, by the number of rounds left.
unfoldable pub clear_lines : ℕ → ℕ → List Text → List Text
clear_lines zero i lines = lines
clear_lines (suc n) i lines = clear_lines n (i + 1) (set lines i blank_comment)

-- RemoveMultiLineCommentsFromRange
unfoldable pub remove_multi_line_comments_from_range : List Text → ℕ → ℕ → List Text
unfolding clear_lines
remove_multi_line_comments_from_range lines begin stop = clear_lines (stop - begin) begin lines

abbrev pub no_end : Text → ℕ → Report
no_end filename lineix_begin = record {
  filename = filename;
  linenum = lineix_begin + 1;
  category = codes "readability/multiline_comment";
  confidence = 5;
  message = codes "Could not find end of multi-line comment";
}

-- The loop of RemoveMultiLineComments on fuel; `none` means that the fuel ran out.
unfoldable pub remove_go : ℕ → Text → ℕ → List Text → Linter → Option (List Text × Linter)
remove_go zero filename lineix lines l = none
remove_go (suc fuel) filename lineix lines l =
    let begin = find_next_multi_line_comment_start lines lineix in
    let stop = find_next_multi_line_comment_end lines begin in
    let rest =
      remove_go fuel filename (stop + 1)
        (remove_multi_line_comments_from_range lines begin (stop + 1)) l in
    if not (ltb lineix (length lines))
    then some (lines, l)
    else if leb (length lines) begin
    then some (lines, l)
    else if leb (length lines) stop
    then some (lines, error (no_end filename begin) l)
    else rest

-- RemoveMultiLineComments; each round passes a line, so that one round more than there are lines is
-- enough.
unfoldable pub remove_multi_line_comments : Text → List Text → Linter → Option (List Text × Linter)
unfolding remove_go find_next_multi_line_comment_start find_next_multi_line_comment_end
    remove_multi_line_comments_from_range begins_comment ends_comment
remove_multi_line_comments filename lines l = remove_go (length lines + 1) filename 0 lines l
