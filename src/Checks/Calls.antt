-- ===== src/Checks/Calls.antt =====
-- build_support/cpplint.py: CheckPosixThreading, CheckVlogArguments, CheckInvalidIncrement and two tests of lines.
use concurrency_tcp_server.Base.{
  Bool, List, String, Text, [], codes, get_or, suc, zero, ℕ, ◌++◌, ◌||◌, ◌∷◌,
}
use concurrency_tcp_server.Regex.{Regex, bol, eol, group, matches, searches, star, word_boundary}
use concurrency_tcp_server.Regex.Forms.{
  any_lit, dot, lit, none_of, plus, set_of, space, spaces, word, ◌∣∣◌, ◌⊙◌,
}
use concurrency_tcp_server.Lines.Cleansed.{CleansedLines}
use concurrency_tcp_server.Lint.Report.{Report, say, say_if}

-- (?:[-+*/=%^&|(<]\s*|>\s+)
abbrev pub unsafe_func_prefix : Regex
unsafe_func_prefix = (set_of "-+*/=%^&|(<" ⊙ spaces) ∣∣ (lit ">" ⊙ plus space)

-- A row of _THREADING_LIST: the function, its safe variant, and what follows the prefix in the pattern.
pub record ThreadingRow : Type 0 where
  pub single_thread_func : Text
  pub multithread_safe_func : Text
  pub pattern : Regex

-- name\([^)]+\) and name\(\)
abbrev with_arguments : String → ThreadingRow
with_arguments name = record {
  single_thread_func = codes name ++ codes "(";
  multithread_safe_func = codes name ++ codes "_r(";
  pattern = unsafe_func_prefix ⊙ lit name ⊙ lit "(" ⊙ plus (none_of ")") ⊙ lit ")";
}

abbrev with_none : String → ThreadingRow
with_none name = record {
  single_thread_func = codes name ++ codes "(";
  multithread_safe_func = codes name ++ codes "_r(";
  pattern = unsafe_func_prefix ⊙ lit name ⊙ lit "()";
}

-- _THREADING_LIST
abbrev pub threading_list : List ThreadingRow
threading_list =
    with_arguments "asctime"
    ∷ with_arguments "ctime"
    ∷ with_arguments "getgrgid"
    ∷ with_arguments "getgrnam"
    ∷ with_none "getlogin"
    ∷ with_arguments "getpwnam"
    ∷ with_arguments "getpwuid"
    ∷ with_arguments "gmtime"
    ∷ with_arguments "localtime"
    ∷ with_none "rand"
    ∷ with_arguments "strtok"
    ∷ with_arguments "ttyname"
    ∷ []

threading_calls : Text → ℕ → Text → List ThreadingRow → List Report
unfolding searches
threading_calls filename linenum line [] = []
threading_calls filename linenum line (row ∷ rows) =
    say_if (searches row.pattern line) (
      say filename linenum "runtime/threadsafe_fn" 2 (
        codes "Consider using "
        ++ row.multithread_safe_func
        ++ codes "...) instead of "
        ++ row.single_thread_func
        ++ codes "...) for improved thread safety."))
    ++ threading_calls filename linenum line rows

-- CheckPosixThreading
unfoldable pub check_posix_threading : Text → CleansedLines → ℕ → List Report
unfolding threading_calls
check_posix_threading filename clean linenum =
    threading_calls filename linenum (get_or clean.elided linenum []) threading_list

-- \bVLOG\((INFO|ERROR|WARNING|DFATAL|FATAL)\)
abbrev pub vlog_re : Regex
vlog_re =
    word_boundary
    ⊙ lit "VLOG("
    ⊙ group 1 (
        any_lit
          (codes "INFO" ∷ codes "ERROR" ∷ codes "WARNING" ∷ codes "DFATAL" ∷ codes "FATAL" ∷ []))
    ⊙ lit ")"

-- CheckVlogArguments
unfoldable pub check_vlog_arguments : Text → CleansedLines → ℕ → List Report
unfolding searches
check_vlog_arguments filename clean linenum =
    say_if (searches vlog_re (get_or clean.elided linenum [])) (
      say filename linenum "runtime/vlog" 5 (
        codes
          "VLOG() should be used with numeric verbosity level.  Use LOG() if you want symbolic severity levels."))

-- ^\s*\*\w+(\+\+|--);
abbrev pub invalid_increment_re : Regex
invalid_increment_re =
    bol ⊙ spaces ⊙ lit "*" ⊙ plus word ⊙ group 1 (any_lit (codes "++" ∷ codes "--" ∷ [])) ⊙ lit ";"

-- CheckInvalidIncrement
unfoldable pub check_invalid_increment : Text → CleansedLines → ℕ → List Report
unfolding matches
check_invalid_increment filename clean linenum =
    say_if (matches invalid_increment_re (get_or clean.elided linenum [])) (
      say filename linenum "runtime/invalid_increment" 5
        (codes "Changing pointer instead of value (or unused value of operator*)."))

-- ^#define
abbrev pub define_re : Regex
define_re = bol ⊙ lit "#define"

-- \\$
abbrev pub continued_re : Regex
continued_re = lit "\\" ⊙ eol

-- IsMacroDefinition
unfoldable pub is_macro_definition : List Text → ℕ → Bool
unfolding searches
is_macro_definition lines zero = searches define_re (get_or lines zero [])
is_macro_definition lines (suc n) =
    searches define_re (get_or lines (suc n) []) || searches continued_re (get_or lines n [])

-- ^\s*(\btemplate\b)*.*class\s+\w+;\s*$
abbrev pub forward_class_re : Regex
forward_class_re =
    bol
    ⊙ spaces
    ⊙ star (group 1 (word_boundary ⊙ lit "template" ⊙ word_boundary))
    ⊙ star dot
    ⊙ lit "class"
    ⊙ plus space
    ⊙ plus word
    ⊙ lit ";"
    ⊙ spaces
    ⊙ eol

-- IsForwardClassDeclaration
unfoldable pub is_forward_class_declaration : List Text → ℕ → Bool
unfolding matches
is_forward_class_declaration lines linenum = matches forward_class_re (get_or lines linenum [])
