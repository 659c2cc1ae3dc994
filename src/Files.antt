-- ===== src/Files.antt =====
-- build_support/cpplint.py: the lines of a file in ProcessFile and ProcessFileData, and the checks of a
-- whole file.
pub mod Newlines
mod Tests
use concurrency_tcp_server.Base.{
  ℕ, zero, suc, ◌+◌, ◌-◌, ◌%◌, Bool, true, false, not, ◌&&◌, ◌||◌, Option, none, some, List, [],
  ◌∷◌, ◌++◌, Text, if◌then◌else◌, codes, ltb, ◌==◌, length, get_or, take, drop, any, reverse, split,
  ends_with, find, lower, is_some, replace, count, is_space, all,
}
use concurrency_tcp_server.Lines.Cleansed.{CleansedLines}
use concurrency_tcp_server.Lint.Report.{Linter, Report, error}

-- line.rstrip('\r')
drop_crs : Text → Text
drop_crs [] = []
drop_crs (c ∷ s) = if c == b'\r' then drop_crs s else c ∷ s

unfoldable pub strip_cr : Text → Text
unfolding drop_crs
strip_cr line = reverse (drop_crs (reverse line))

-- The lines of a file and the numbers of those that end in LF and in CR-LF.
pub record FileLines : Type 0 where
  pub lines : List Text
  pub lf_lines : List ℕ
  pub crlf_lines : List ℕ

-- line.endswith('\r')
abbrev pub has_cr : Text → Bool
has_cr line = ends_with (codes "\r") line

-- The loop that removes a trailing '\r' from each line but the last, from index linenum on.
unfoldable pub remove_crs : ℕ → List Text → FileLines
unfolding strip_cr ends_with
remove_crs linenum [] = record { lines = []; lf_lines = []; crlf_lines = [] }
remove_crs linenum (line ∷ []) = record { lines = line ∷ []; lf_lines = []; crlf_lines = [] }
remove_crs linenum (line ∷ next ∷ rest) =
    let r = remove_crs (linenum + 1) (next ∷ rest) in
    if has_cr line
    then record r { lines = strip_cr line ∷ r.lines; crlf_lines = (linenum + 1) ∷ r.crlf_lines }
    else record r { lines = line ∷ r.lines; lf_lines = (linenum + 1) ∷ r.lf_lines }

-- The lines of the text of a file
abbrev pub read_lines : Text → FileLines
read_lines text = remove_crs 0 (split b'\n' text)

abbrev pub unexpected_cr : Text → ℕ → Report
unexpected_cr filename linenum = record {
  filename = filename;
  linenum = linenum;
  category = codes "whitespace/newline";
  confidence = 1;
  message = codes "Unexpected \\r (^M) found; better to use only \\n";
}

unfoldable pub report_crs : Text → List ℕ → Linter → Linter
report_crs filename [] l = l
report_crs filename (n ∷ ns) l = report_crs filename ns (error (unexpected_cr filename n) l)

-- A list as a condition.
abbrev pub is_filled {ℓ} : {A : Type ℓ} → List A → Bool
is_filled [] = false
is_filled (_ ∷ _) = true

-- if lf_lines and crlf_lines
unfoldable pub check_line_ends : Text → FileLines → Linter → Linter
unfolding report_crs
check_line_ends filename f l =
    if is_filled f.lf_lines && is_filled f.crlf_lines then report_crs filename f.crlf_lines l else l

-- The lines between the markers that ProcessFileData adds.
abbrev pub with_markers : List Text → List Text
with_markers lines =
    codes "// marker so line numbers and indices both start at 1"
    ∷ (lines ++ (codes "// marker so line numbers end in a known way" ∷ []))

abbrev pub no_newline : Text → ℕ → Report
no_newline filename linenum = record {
  filename = filename;
  linenum = linenum;
  category = codes "whitespace/ending_newline";
  confidence = 5;
  message = codes "Could not find a newline character at the end of the file.";
}

-- CheckForNewlineAtEOF, for two lines at least; ProcessFileData passes three at least.
unfoldable pub check_for_newline_at_eof : Text → List Text → Linter → Linter
check_for_newline_at_eof filename lines l =
    if ltb (length lines) 3 || is_filled (get_or lines (length lines - 2) [])
    then error (no_newline filename (length lines - 2)) l
    else l

abbrev pub no_copyright : Text → Report
no_copyright filename = record {
  filename = filename;
  linenum = 0;
  category = codes "legal/copyright";
  confidence = 5;
  message =
      codes
        "No copyright message found.  You should have a line: \"Copyright [year] <Copyright Owner>\"";
}

-- re.search(r'Copyright', line, re.I)
abbrev pub names_copyright : Text → Bool
names_copyright line = is_some (find (codes "copyright") (lower line))

-- CheckForCopyright: the lines 1 to 10
unfoldable pub check_for_copyright : Text → List Text → Linter → Linter
unfolding find lower
check_for_copyright filename lines l =
    if any names_copyright (take 10 (drop 1 lines)) then l else error (no_copyright filename) l

abbrev pub bad_utf8 : Text → ℕ → Report
bad_utf8 filename linenum = record {
  filename = filename;
  linenum = linenum;
  category = codes "readability/utf8";
  confidence = 5;
  message = codes "Line contains invalid UTF-8 (or Unicode replacement character).";
}

abbrev pub nul_byte : Text → ℕ → Report
nul_byte filename linenum = record {
  filename = filename;
  linenum = linenum;
  category = codes "readability/nul";
  confidence = 5;
  message = codes "Line contains NUL byte.";
}

abbrev pub holds : ℕ → Text → Bool
holds c line = any (◌==◌ c) line

-- The loop of CheckForBadCharacters from line `linenum` on.
unfoldable pub bad_characters_from : ℕ → Text → List Text → Linter → Linter
bad_characters_from linenum filename [] l = l
bad_characters_from linenum filename (line ∷ rest) l =
    let once = if holds 65533 line then error (bad_utf8 filename linenum) l else l in
    let twice = if holds 0 line then error (nul_byte filename linenum) once else once in
    bad_characters_from (linenum + 1) filename rest twice

-- CheckForBadCharacters
unfoldable pub check_for_bad_characters : Text → List Text → Linter → Linter
unfolding bad_characters_from
check_for_bad_characters filename lines l = bad_characters_from 0 filename lines l

abbrev pub complex_comment : Text → ℕ → Report
complex_comment filename linenum = record {
  filename = filename;
  linenum = linenum;
  category = codes "readability/multiline_comment";
  confidence = 5;
  message =
      codes
        "Complex multi-line /*...*/-style comment found. Lint may give bogus warnings.  Consider replacing these with //-style comments, with #if 0...#endif, or with more clearly structured multi-line comments.";
}

abbrev pub multi_line_string : Text → ℕ → Report
multi_line_string filename linenum = record {
  filename = filename;
  linenum = linenum;
  category = codes "readability/multiline_string";
  confidence = 5;
  message =
      codes
        "Multi-line string (\"...\") found.  This lint script doesn't do well with such strings, and may give bogus warnings.  Use C++11 raw strings or concatenation instead.";
}

-- CheckForMultilineCommentsAndStrings. Each \" holds a ", so that the difference is not negative.
unfoldable pub check_for_multiline_comments_and_strings : Text → CleansedLines → ℕ → Linter → Linter
unfolding replace count
check_for_multiline_comments_and_strings filename clean_lines linenum l =
    let line = replace (codes "\\\\") [] (get_or clean_lines.elided linenum []) in
    let once =
      if ltb (count (codes "*/") line) (count (codes "/*") line)
      then error (complex_comment filename linenum) l
      else l in
    if (count (codes "\"") line - count (codes "\\\"") line) % 2 == 0
    then once
    else error (multi_line_string filename linenum) once

-- IsBlankLine
abbrev pub is_blank_line : Text → Bool
is_blank_line line = all is_space line
