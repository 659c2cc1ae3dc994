-- ===== src/Lines/Cleansed.antt =====
-- build_support/cpplint.py: the class CleansedLines, the four copies of the lines of a file.
use mathlib.Core.Option
use concurrency_tcp_server.Base.{ℕ, Option, none, some, List, [], ◌∷◌, Text, length, map}
use concurrency_tcp_server.Lines.RawStrings.{cleanse_raw_strings}
use concurrency_tcp_server.Lines.Collapse.{cleanse_comments, collapse_strings}

pub record CleansedLines : Type 0 where
  pub elided : List Text
  pub lines : List Text
  pub raw_lines : List Text
  pub num_lines : ℕ
  pub lines_without_raw_strings : List Text

-- CleanseComments(self._CollapseStrings(line)), for each line
unfoldable pub elide_all : List Text → Option (List Text)
elide_all [] = some []
elide_all (line ∷ rest) = elim (collapse_strings line) [
  | none ↦ none
  | some collapsed ↦ Option.map (λ outs. cleanse_comments collapsed ∷ outs) (elide_all rest)
]

unfoldable pub cleansed_with : List Text → Option (List Text) → Option CleansedLines
cleansed_with raw none = none
cleansed_with raw (some without) =
    Option.map
      (λ elided. record {
        elided = elided;
        lines = map cleanse_comments without;
        raw_lines = raw;
        num_lines = length raw;
        lines_without_raw_strings = without;
      })
      (elide_all without)

-- __init__
unfoldable pub cleansed_lines : List Text → Option CleansedLines
unfolding cleansed_with elide_all
cleansed_lines lines = cleansed_with lines (cleanse_raw_strings lines)
