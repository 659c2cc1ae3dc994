-- ===== src/Lines/Aligned.antt =====
-- The class CleansedLines of build_support/cpplint.py is made for every file, with aligned copies.
use concurrency_tcp_server.Base.{suc, ◌≡◌, refl, ap, ◌∙◌, some, List, [], ◌∷◌, Text, length, map}
use concurrency_tcp_server.Lines.Collapse.{cleanse_comments}
use concurrency_tcp_server.Lines.Cleansed.{CleansedLines, elide_all, cleansed_with, cleansed_lines}
use concurrency_tcp_server.Lines.RawTotal.{cleanse_raw_strings-total}
use concurrency_tcp_server.Lines.CollapseTotal.{collapse_strings-total}

elide_all-total :
    (ls : List Text) → (outs : List Text) × (elide_all ls ≡ some outs) × (length outs ≡ length ls)
unfolding elide_all
elide_all-total [] = ([], refl, refl)
elide_all-total (l ∷ ls) =
    let (c, e) = collapse_strings-total l in
    let (outs, f, h) = elide_all-total ls in
    (cleanse_comments c ∷ outs, rw (e, f, elide_all) refl, ap suc h)

length-map : (f : Text → Text) (ls : List Text) → length (map f ls) ≡ length ls
length-map f [] = refl
length-map f (l ∷ ls) = ap suc (length-map f ls)

-- The four copies have a line for each line of the file, and their number is num_lines.
pub record IsAligned (raw : List Text) (c : CleansedLines) : Type 0 where
  pub raw_is : c.raw_lines ≡ raw
  pub count : c.num_lines ≡ length raw
  pub elided : length c.elided ≡ length raw
  pub lines : length c.lines ≡ length raw
  pub without : length c.lines_without_raw_strings ≡ length raw

-- For every list of lines: CleansedLines is made, that is, every loop ends and no match fails, and its four
-- copies have a line for each line of the list, the raw copy being the list.
pub cleansed_lines-IsAligned :
    (raw : List Text) → (c : CleansedLines) × (cleansed_lines raw ≡ some c) × IsAligned raw c
unfolding cleansed_lines cleansed_with
cleansed_lines-IsAligned raw =
    let (without, e, h) = cleanse_raw_strings-total raw in
    let (elided, f, k) = elide_all-total without in
    (
      record {
        elided = elided;
        lines = map cleanse_comments without;
        raw_lines = raw;
        num_lines = length raw;
        lines_without_raw_strings = without;
      },
      rw (e, f) refl,
      record {
        raw_is = refl;
        count = refl;
        elided = k ∙ h;
        lines = length-map cleanse_comments without ∙ h;
        without = h;
      },
    )
