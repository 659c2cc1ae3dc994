-- ===== src/Lines/Tests.antt =====
-- Lines before and after their comments and literals are taken out, and instances of the theorems.
use concurrency_tcp_server.Base.{
  ◌≡◌, refl, some, List, [], ◌∷◌, Text, codes, true, starts_with, ends_with, find, find_from, strip,
}
use concurrency_tcp_server.Lint.State.{new_state}
use concurrency_tcp_server.Lint.Suppress.{no_suppressions}
use concurrency_tcp_server.Lint.Report.{Linter}
use concurrency_tcp_server.Lines.Comments.{remove_multi_line_comments, begins_comment, ends_comment}
use concurrency_tcp_server.Lines.Cleansed.{CleansedLines, cleansed_lines}
use concurrency_tcp_server.Lines.Aligned.{IsAligned, cleansed_lines-IsAligned}
use concurrency_tcp_server.Lines.RawStrings.{cleanse_raw_strings}
use concurrency_tcp_server.Lines.Collapse.{cleanse_comments, collapse_strings}
use concurrency_tcp_server.Regex.{matches, searches, sub}

abbrev linter : Linter
linter = record { state = new_state; suppressions = no_suppressions }

abbrev file : List Text
file = codes "int a;" ∷ codes "  /* one" ∷ codes "two" ∷ codes "three */" ∷ codes "int b;" ∷ []

file_cleaned :
    remove_multi_line_comments (codes "a.cc") file linter
    ≡ some
        (codes "int a;" ∷ codes "/**/" ∷ codes "/**/" ∷ codes "/**/" ∷ codes "int b;" ∷ [], linter)
unfolding remove_multi_line_comments starts_with strip find_from ends_with
file_cleaned = refl

-- A line that is only `/*/` counts as the beginning of a comment and as its end.
slash_star_slash : (begins_comment (codes "/*/") ≡ true) × (ends_comment (codes "/*/") ≡ true)
unfolding begins_comment ends_comment starts_with strip find_from ends_with
slash_star_slash = (refl, refl)

raw_string :
    cleanse_raw_strings (codes "x = R\"(a" ∷ codes "  b)\" + c;" ∷ [])
    ≡ some (codes "x = \"\"" ∷ codes "  \"\" + c;" ∷ [])
unfolding cleanse_raw_strings find
raw_string = refl

collapsed :
    collapse_strings (codes "f(\"a\\\"b\", 1'000, 'c');") ≡ some (codes "f(\"\", 1000, '');")
unfolding collapse_strings matches searches sub
collapsed = refl

uncommented : cleanse_comments (codes "f(a /* b */, \"//\"); // c") ≡ codes "f(a, \"//\"); // c"
unfolding cleanse_comments
uncommented = refl

abbrev raw_file : List Text
raw_file = codes "x = R\"(a" ∷ codes "  b)\" + c;" ∷ codes "f(\"a\", 1'000); // d" ∷ []

cleansed_lines-IsAligned_example :
    (c : CleansedLines) × (cleansed_lines raw_file ≡ some c) × IsAligned raw_file c
cleansed_lines-IsAligned_example = cleansed_lines-IsAligned raw_file
