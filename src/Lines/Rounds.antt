-- ===== src/Lines/Rounds.antt =====
-- One round of the loop of RemoveMultiLineComments (build_support/cpplint.py), in each of its cases.
use mathlib.Core.Option
use concurrency_tcp_server.Base.{
  ℕ, suc, ◌+◌, ◌≤◌, ◌<◌, ◌≡◌, refl, sym, ap, ◌∙◌, some, List, [], ◌∷◌, ◌++◌, Text, arith, length,
  set, replicate, or_default, append_assoc, length-append, drop-length-append,
}
use concurrency_tcp_server.Lint.Report.{Linter, error}
use concurrency_tcp_server.Lines.Comments.{
  begins_comment, ends_comment, find_first, find_next_multi_line_comment_start,
  find_next_multi_line_comment_end, blank_comment, clear_lines,
  remove_multi_line_comments_from_range, no_end, remove_go,
}

pub start_at :
    (pre rest : List Text)
    → find_next_multi_line_comment_start (pre ++ rest) (length pre)
      ≡ or_default
          (length (pre ++ rest))
          (Option.map (λ k. length pre + k) (find_first begins_comment rest))
unfolding find_next_multi_line_comment_start
start_at pre rest = rw (drop-length-append pre rest)

pub end_at :
    (pre rest : List Text)
    → find_next_multi_line_comment_end (pre ++ rest) (length pre)
      ≡ or_default
          (length (pre ++ rest))
          (Option.map (λ k. length pre + k) (find_first ends_comment rest))
unfolding find_next_multi_line_comment_end
end_at pre rest = rw (drop-length-append pre rest)

set-length-append :
    (pre : List Text) (x : Text) (rest : List Text) (v : Text)
    → set (pre ++ (x ∷ rest)) (length pre) v ≡ pre ++ (v ∷ rest)
set-length-append [] x rest v = refl
set-length-append (y ∷ pre) x rest v = ap (◌∷◌ y) (set-length-append pre x rest v)

pub clear_lines-replicate :
    (m pre rest : List Text)
    → clear_lines (length m) (length pre) (pre ++ (m ++ rest))
      ≡ pre ++ (replicate (length m) blank_comment ++ rest)
unfolding clear_lines
clear_lines-replicate [] pre rest = refl
clear_lines-replicate (x ∷ m) pre rest =
    ap (clear_lines (length m) (length pre + 1)) (set-length-append pre x (m ++ rest) blank_comment)
    ∙ ap (λ (v : List Text). clear_lines (length m) (length pre + 1) v)
        (sym (append_assoc pre (blank_comment ∷ []) (m ++ rest)))
    ∙ ap (λ (n : ℕ). clear_lines (length m) n ((pre ++ (blank_comment ∷ [])) ++ (m ++ rest)))
        (omega (arith, length-append pre (blank_comment ∷ [])))
    ∙ clear_lines-replicate m (pre ++ (blank_comment ∷ [])) rest
    ∙ append_assoc pre (blank_comment ∷ []) (replicate (length m) blank_comment ++ rest)

module _ (fuel : ℕ) (filename : Text) (lineix : ℕ) (lines : List Text) (l : Linter) where
  abbrev begin : ℕ
  begin = find_next_multi_line_comment_start lines lineix

  abbrev stop : ℕ
  stop = find_next_multi_line_comment_end lines begin

  pub remove_go-over :
      length lines ≤ lineix → remove_go (suc fuel) filename lineix lines l ≡ some (lines, l)
  unfolding remove_go
  remove_go-over h = ground arith

  pub remove_go-clean :
      length lines ≤ begin → remove_go (suc fuel) filename lineix lines l ≡ some (lines, l)
  unfolding remove_go
  remove_go-clean h = ground arith

  pub remove_go-unfinished :
      lineix < length lines
      → begin < length lines
      → length lines ≤ stop
      → remove_go (suc fuel) filename lineix lines l ≡ some (lines, error (no_end filename begin) l)
  unfolding remove_go
  remove_go-unfinished h b s = ground arith

  pub remove_go-round :
      lineix < length lines
      → begin < length lines
      → stop < length lines
      → remove_go (suc fuel) filename lineix lines l
        ≡ remove_go fuel filename
            (stop + 1)
            (remove_multi_line_comments_from_range lines begin (stop + 1))
            l
  unfolding remove_go
  remove_go-round h b s = ground arith
