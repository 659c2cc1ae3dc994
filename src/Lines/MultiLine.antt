-- ===== src/Lines/MultiLine.antt =====
-- RemoveMultiLineComments of build_support/cpplint.py against a description of its result.
use mathlib.Core.Option
use concurrency_tcp_server.Base.{
  ℕ, suc, ◌≡◌, Option, some, List, ◌∷◌, ◌++◌, Text, length, replicate,
}
use concurrency_tcp_server.Lint.Report.{Linter}
use concurrency_tcp_server.Lines.Comments.{
  begins_comment, ends_comment, find_first, blank_comment, remove_multi_line_comments,
}
use concurrency_tcp_server.Lines.Removal.{Cleaned}
use concurrency_tcp_server.Lines.Steps.{reported}

-- The lines from the beginning of the comment on, which ends with `z`.
module _ (fuel : ℕ) (filename : Text) (pre a c : List Text) (x z : Text) (b d : List Text)
    (l : Linter) (first : find_first begins_comment (a ++ (x ∷ b)) ≡ some (length a))
    (block : x ∷ b ≡ c ++ (z ∷ d)) (ends : find_first ends_comment (x ∷ b) ≡ some (length c)) where
  abbrev blanks : List Text
  blanks = replicate (suc (length c)) blank_comment

  abbrev above : List Text
  above = pre ++ (a ++ blanks)

-- What RemoveMultiLineComments does to the lines and to the linter.
pub record Removes (filename : Text) (lines : List Text) (l : Linter) : Type 0 where
  pub out : List Text
  pub unended : Option ℕ
  pub gives :
      remove_multi_line_comments filename lines l ≡ some (out, reported filename 0 unended l)
  pub cleaned : Cleaned lines out unended
