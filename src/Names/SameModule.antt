-- ===== src/Names/SameModule.antt =====
-- build_support/cpplint.py: FilesBelongToSameModule.
use concurrency_tcp_server.Base.{
  Bool, Option, Text, [], codes, ends_with, false, if◌then◌else◌, length, none, replace, some, take,
  true, ℕ, ◌-◌, ◌==◌, ◌∷◌,
}
use concurrency_tcp_server.Classify.{
  Extensions, get_header_extensions, get_non_header_extensions, is_header_extension,
  is_source_extension,
}
use concurrency_tcp_server.Regex.{Regex, eol, group, group_text, search_re}
use concurrency_tcp_server.Regex.Forms.{any_lit, ◌⊙◌}
use concurrency_tcp_server.Lines.RawStrings.{group_or_empty}
use concurrency_tcp_server.Names.{FileSystem}
use concurrency_tcp_server.Names.Split.{Parts, split_name}

-- s[:-n]
unfoldable pub drop_last : ℕ → Text → Text
drop_last n s = if n == 0 then [] else take (length s - n) s

-- text.lstrip('.')
unfoldable pub without_dots : Text → Text
without_dots [] = []
without_dots (c ∷ s) = if c == b'.' then without_dots s else c ∷ s

-- _TEST_FILE_SUFFIX
abbrev pub test_file_suffix_re : Regex
test_file_suffix_re =
    group 1 (any_lit (codes "_test" ∷ codes "_regtest" ∷ codes "_unittest" ∷ [])) ⊙ eol

abbrev pub same_directories : Text → Text
same_directories s =
    replace (codes "/internal/") (codes "/") (replace (codes "/public/") (codes "/") s)

-- The name of the source file without its extension and a suffix of tests.
unfoldable pub source_stem : Parts → Text → Text
unfolding replace search_re group_text drop_last
source_stem p filename_cc =
    let stem = drop_last (length p.extension) filename_cc in
    same_directories (elim (search_re test_file_suffix_re p.base_name) [
      | none ↦ stem
      | some m ↦ drop_last (length (group_or_empty 1 m)) stem
    ])

-- The name of the header without its extension and -inl.
unfoldable pub header_stem : Parts → Text → Text
unfolding replace ends_with drop_last
header_stem p filename_h =
    let stem = drop_last (length p.extension) filename_h in
    same_directories (if ends_with (codes "-inl") stem then drop_last 4 stem else stem)

unfoldable pub match_stems : Text → Text → Bool × Text
unfolding ends_with drop_last
match_stems cc h = if ends_with h cc then (true, drop_last (length h) cc) else (false, [])

-- FilesBelongToSameModule, for the parts of the two names
unfoldable pub compare_modules :
    Extensions → Text → Text → Option Parts → Option Parts → Option (Bool × Text)
unfolding without_dots source_stem header_stem match_stems get_header_extensions
    get_non_header_extensions
compare_modules e filename_cc filename_h none fileinfo_h = none
compare_modules e filename_cc filename_h (some cc) fileinfo_h =
    if is_source_extension e (without_dots cc.extension)
    then elim fileinfo_h [
      | none ↦ none
      | some h ↦
          if is_header_extension e (without_dots h.extension)
          then some (match_stems (source_stem cc filename_cc) (header_stem h filename_h))
          else some (false, [])
    ]
    else some (false, [])

-- FilesBelongToSameModule
unfoldable pub files_belong_to_same_module :
    Extensions → FileSystem → Text → Text → Text → Option (Bool × Text)
unfolding split_name compare_modules
files_belong_to_same_module e fs repository filename_cc filename_h =
    compare_modules e filename_cc filename_h (split_name fs repository filename_cc)
      (split_name fs repository filename_h)
