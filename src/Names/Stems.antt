-- ===== src/Names/Stems.antt =====
-- build_support/cpplint.py: what FilesBelongToSameModule leaves of the name of a source file and of a header.
use concurrency_tcp_server.Base.{
  ◌≡◌, ◌≢◌, ◌↔◌, ◌⊎◌, inl, inr, refl, sym, ap, ◌∙◌, true, false, some, [], ◌++◌, Text, all, arith,
  codes, length, ends_with, ends_with-append, replace, if◌then◌else◌,
}
use concurrency_tcp_server.Regex.{search_re}
use concurrency_tcp_server.Classify.{Extensions, is_header_extension, is_source_extension}
use concurrency_tcp_server.Names.{FileSystem}
use concurrency_tcp_server.Names.Split.{Parts, split_name}
use concurrency_tcp_server.Names.SameModule.{
  drop_last, without_dots, test_file_suffix_re, source_stem, header_stem,
  files_belong_to_same_module,
}
use concurrency_tcp_server.Names.Agrees.{drop_last-append, files_belong_to_same_module-stems}
use concurrency_tcp_server.Names.TestNames.{not_newline, TestSuffix, cut_suffix, found_cut}

-- /public/ and /internal/ taken for /.
abbrev pub without_layers : Text → Text
without_layers s =
    replace (codes "/internal/") (codes "/") (replace (codes "/public/") (codes "/") s)

-- The name of a source file is a stem, the suffix of a test or none, and its extension.
pub record IsSource (p : Parts) (filename stem : Text) : Type 0 where
  pub suffix : Text
  pub one_line : all not_newline p.base_name ≡ true
  pub marks : TestSuffix p.base_name suffix
  pub name_is : filename ≡ (stem ++ suffix) ++ p.extension
  pub has_extension : p.extension ≢ []

-- The name of a header is a stem, -inl or nothing, and its extension.
pub record IsHeader (p : Parts) (filename stem : Text) : Type 0 where
  pub name_is :
      (filename ≡ (stem ++ codes "-inl") ++ p.extension)
      ⊎ ((filename ≡ stem ++ p.extension) × (ends_with (codes "-inl") stem ≡ false))
  pub has_extension : p.extension ≢ []

source_stem_is :
    (p : Parts) (filename stem : Text)
    → IsSource p filename stem
    → source_stem p filename ≡ without_layers stem
unfolding source_stem
source_stem_is p filename stem s =
    ap (λ (z : Text). without_layers (cut_suffix (search_re test_file_suffix_re p.base_name) z))
      (ap (drop_last (length p.extension)) s.name_is
        ∙ drop_last-append (stem ++ s.suffix) p.extension s.has_extension)
    ∙ ap without_layers (
        found_cut p.base_name s.suffix stem (search_re test_file_suffix_re p.base_name) s.marks
          s.one_line refl)

cut_inl : Text → Text
cut_inl stem = if ends_with (codes "-inl") stem then drop_last 4 stem else stem

header_stem_is :
    (p : Parts) (filename stem : Text)
    → IsHeader p filename stem
    → header_stem p filename ≡ without_layers stem
unfolding header_stem cut_inl
header_stem_is p filename stem s = elim s.name_is [
  | inl e ↦
      let cut : cut_inl (stem ++ codes "-inl") ≡ stem =
        rw (ends_with-append stem (codes "-inl"))
          (drop_last-append stem (codes "-inl") (λ k. ground (arith, ap length k))) in
      ap (λ (z : Text). without_layers (cut_inl z))
        (ap (drop_last (length p.extension)) e
          ∙ drop_last-append (stem ++ codes "-inl") p.extension s.has_extension)
      ∙ ap without_layers cut
  | inr (e, f) ↦
      let cut : cut_inl stem ≡ stem = rw f refl in
      ap (λ (z : Text). without_layers (cut_inl z))
        (ap (drop_last (length p.extension)) e ∙ drop_last-append stem p.extension s.has_extension)
      ∙ ap without_layers cut
]

-- For two names that FileInfo splits, the first being a stem, a suffix of tests or none and its extension, and
-- the second a stem, -inl or nothing and its extension, where something is left of the header's stem:
-- FilesBelongToSameModule answers True with a prefix exactly if the first extension is one of sources, the
-- second one of headers, and the first stem is the prefix followed by the second stem, both with /public/ and
-- /internal/ taken for /.
pub files_belong_to_same_module_iff :
    (e : Extensions) (fs : FileSystem)
    (repository filename_cc filename_h prefix stem_cc stem_h : Text) (source header : Parts)
    → split_name fs repository filename_cc ≡ some source
    → split_name fs repository filename_h ≡ some header
    → IsSource source filename_cc stem_cc
    → IsHeader header filename_h stem_h
    → without_layers stem_h ≢ []
    → (files_belong_to_same_module e fs repository filename_cc filename_h ≡ some (true, prefix)) ↔ (
        (is_source_extension e (without_dots source.extension) ≡ true)
        × (is_header_extension e (without_dots header.extension) ≡ true)
        × (without_layers stem_cc ≡ prefix ++ without_layers stem_h))
files_belong_to_same_module_iff e fs repository filename_cc filename_h prefix stem_cc stem_h source
      header p q s h filled =
    let cc_is = source_stem_is source filename_cc stem_cc s in
    let h_is = header_stem_is header filename_h stem_h h in
    let (there, back) =
      files_belong_to_same_module-stems e fs repository filename_cc filename_h prefix source header
        p q (λ k. filled (sym h_is ∙ k)) in
    (
      λ r. let (x, y, z) = there r in (x, y, sym cc_is ∙ z ∙ ap (λ (t : Text). prefix ++ t) h_is),
      λ (x, y, z). back (x, y, cc_is ∙ z ∙ ap (λ (t : Text). prefix ++ t) (sym h_is)),
    )
