-- ===== src/Files/Tests.antt =====
-- Runs of the checks of a whole file of build_support/cpplint.py.
use concurrency_tcp_server.Base.{
  ◌≡◌, refl, true, false, List, [], ◌∷◌, ◌+◌, Text, codes, if◌then◌else◌,
}
use concurrency_tcp_server.Lint.State.{new_state}
use concurrency_tcp_server.Lint.Report.{Linter, error}
use concurrency_tcp_server.Files.{
  remove_crs, read_lines, with_markers, no_newline, check_for_newline_at_eof, check_for_copyright,
  check_for_bad_characters,
}
use concurrency_tcp_server.Files.Newlines.{is_terminated, newlines, check_for_newline_at_eof_iff}

abbrev linter : Linter
linter = record {
  state = new_state;
  suppressions = record { everywhere = []; by_category = []; global_categories = [] };
}

read_lines-mixed : read_lines (codes "a\r\nb\nc") ≡ record {
  lines = codes "a" ∷ codes "b" ∷ codes "c" ∷ [];
  lf_lines = 2 ∷ [];
  crlf_lines = 1 ∷ [];
}
unfolding remove_crs concurrency_tcp_server.Base.split
read_lines-mixed = refl

check_for_copyright-found :
    check_for_copyright (codes "a.cc") (with_markers (codes "// COPYRIGHT 2024" ∷ [])) linter
    ≡ linter
unfolding check_for_copyright
check_for_copyright-found = refl

check_for_bad_characters-none :
    check_for_bad_characters (codes "a.cc") (codes "int i;" ∷ []) linter ≡ linter
unfolding check_for_bad_characters
check_for_bad_characters-none = refl

check_for_newline_at_eof_iff_example :
    check_for_newline_at_eof (codes "a.cc") (with_markers (read_lines (codes "a\nb")).lines) linter
    ≡ (if is_terminated (codes "a\nb")
        then linter
        else error (no_newline (codes "a.cc") (newlines (codes "a\nb") + 1)) linter)
check_for_newline_at_eof_iff_example =
    check_for_newline_at_eof_iff (codes "a.cc") (codes "a\nb") linter
