-- ===== src/Names/Tests.antt =====
-- Runs of the models of FileInfo, FilesBelongToSameModule and the header guard.
use mathlib.Core.List.{reverse-append}
use mathlib.Core.Option
use concurrency_tcp_server.Base.{
  ◌≡◌, ◌≢◌, ◌↔◌, inl, inr, refl, sym, ap, ◌∙◌, Bool, true, false, ◌||◌, Option, none, some, List,
  [], ◌∷◌, ◌++◌, Text, codes, ends_with, starts_with, text_eq, reverse, if◌then◌else◌, arith, all,
}
use concurrency_tcp_server.Classify.{Extensions, is_source_extension, is_header_extension}
use concurrency_tcp_server.Lint.State.{CppLintState, new_state}
use concurrency_tcp_server.Lint.Report.{Linter, Report}
use concurrency_tcp_server.Lines.Cleansed.{CleansedLines}
use concurrency_tcp_server.Names.{FileSystem, repository_name, holds_entry}
use concurrency_tcp_server.Names.Directories.{path_join}
use concurrency_tcp_server.Names.Split.{Parts, split_name}
use concurrency_tcp_server.Names.SameModule.{files_belong_to_same_module, without_dots}
use concurrency_tcp_server.Names.TestNames.{is_test}
use concurrency_tcp_server.Names.Stems.{
  without_layers, IsSource, IsHeader, files_belong_to_same_module_iff,
}
use concurrency_tcp_server.Names.Returns.{NoneAtTop, repository_name-returns}
use concurrency_tcp_server.Names.Variable.{is_variable_char, get_header_guard_cpp_variable-variable}
use concurrency_tcp_server.Names.Guard.{get_header_guard_cpp_variable, path_split_to_list}
use concurrency_tcp_server.Names.Pieces.{IsName, name, below, path_split_to_list-IsPath}
use concurrency_tcp_server.Names.HeaderGuard.{
  Guards, find_guards, no_guards, check_for_header_guard,
}
use concurrency_tcp_server.Names.Shape.{IsGuarded, find_guards-IsGuarded}
use concurrency_tcp_server.Base.{length, is_some}

abbrev defaults : Extensions
defaults = record { hpp_headers = []; valid_extensions = [] }

-- A system where each directory is the top of a git checkout and each header exists.
abbrev system : FileSystem
system = record {
  path_exists = λ path. ends_with (codes ".h") path || ends_with (codes ".git") path;
  abspath = λ path. if starts_with (codes "/") path then path else codes "/w/" ++ path;
  relpath = λ path start. path;
}

repository_name-git : repository_name system [] (codes "base/a.h") ≡ some (codes "base/a.h")
unfolding repository_name
repository_name-git = refl

no_svn : (d s : Text) → system.path_exists (d ++ (s ++ codes ".svn")) ≡ false
unfolding ends_with starts_with
no_svn d s = rw (reverse-append d (s ++ codes ".svn"), reverse-append s (codes ".svn")) refl

no_svn_joined :
    (b : Bool) (d : Text)
    → system.path_exists (if b then d ++ codes ".svn" else d ++ codes "/.svn") ≡ false
no_svn_joined true d = no_svn d []
no_svn_joined false d = no_svn d (codes "/")

system-NoneAtTop : NoneAtTop system
unfolding path_join starts_with
system-NoneAtTop d _ = no_svn_joined (text_eq d [] || ends_with (codes "/") d) d

repository_name-returns_example : is_some (repository_name system [] (codes "base/a.h")) ≡ true
repository_name-returns_example =
    repository_name-returns system [] (codes "base/a.h") system-NoneAtTop

get_header_guard_cpp_variable-variable_example :
    (v : Text) × (get_header_guard_cpp_variable system [] [] (codes "base/c++/a.h") ≡ some v)
    × (all is_variable_char v ≡ true)
get_header_guard_cpp_variable-variable_example =
    get_header_guard_cpp_variable-variable system [] [] (codes "base/c++/a.h") system-NoneAtTop

get_header_guard_cpp_variable-cpp :
    get_header_guard_cpp_variable system [] [] (codes "base/c++/a.h") ≡ some (codes "BASE_CPP_A_H_")
unfolding get_header_guard_cpp_variable
get_header_guard_cpp_variable-cpp = refl

get_header_guard_cpp_variable-root :
    get_header_guard_cpp_variable system [] (codes "base") (codes "base/a_flymake.h")
    ≡ some (codes "A_H_")
unfolding get_header_guard_cpp_variable
get_header_guard_cpp_variable-root = refl

get_header_guard_cpp_variable-flymake :
    get_header_guard_cpp_variable system [] (codes "/") (codes "base/.flymake/a.h")
    ≡ some (codes "W_BASE_A_H_")
unfolding get_header_guard_cpp_variable
get_header_guard_cpp_variable-flymake = refl

path_split_to_list-absolute :
    path_split_to_list (codes "/a/b/") ≡ codes "/" ∷ codes "a" ∷ codes "b" ∷ [] ∷ []
unfolding path_split_to_list
path_split_to_list-absolute = refl

dots : IsName (codes "..")
dots = record { head_is = (b'.', codes ".", refl); no_slash = refl }

letter : IsName (codes "a")
letter = record { head_is = (b'a', [], refl); no_slash = refl }

dots-not_root : codes ".." ≢ codes "/"
dots-not_root e = ground (arith, ap length e)

path_split_to_list-IsPath_example : path_split_to_list (codes "../a") ≡ codes ".." ∷ codes "a" ∷ []
path_split_to_list-IsPath_example =
    path_split_to_list-IsPath (codes "../a") (codes ".." ∷ codes "a" ∷ []) (
      below (codes "..") (codes "a") (codes ".." ∷ []) (name (codes "..") dots) dots-not_root
        letter)

abbrev source : Parts
source = record { directory = codes "base"; base_name = codes "a_test"; extension = codes ".cc" }

abbrev header : Parts
header = record { directory = codes "base"; base_name = codes "a"; extension = codes ".h" }

split_name-source :
    split_name system [] (codes "/w/base/a_test.cc")
    ≡ some (record source { directory = codes "/w/base" })
unfolding split_name
split_name-source = refl

split_name-header : split_name system [] (codes "base/a.h") ≡ some header
unfolding split_name
split_name-header = refl

source-IsSource :
    IsSource
      (record source { directory = codes "/w/base" })
      (codes "/w/base/a_test.cc")
      (codes "/w/base/a")
source-IsSource = record {
  suffix = codes "_test";
  one_line = refl;
  marks = is_test (codes "a") (codes "_test") (inl refl);
  name_is = refl;
  has_extension = λ e. ground (arith, ap length e);
}

header-IsHeader : IsHeader header (codes "base/a.h") (codes "base/a")
unfolding ends_with
header-IsHeader = record {
  name_is = inr (refl, refl);
  has_extension = λ e. ground (arith, ap length e);
}

kept : without_layers (codes "base/a") ≡ codes "base/a"
unfolding concurrency_tcp_server.Base.replace
kept = refl

header-filled : without_layers (codes "base/a") ≢ []
header-filled e = ground (arith, ap length (sym kept ∙ e))

files_belong_to_same_module_iff_example :
    (files_belong_to_same_module defaults system [] (codes "/w/base/a_test.cc") (codes "base/a.h")
      ≡ some (true, codes "/w/"))
    ↔ ((is_source_extension defaults (without_dots (codes ".cc")) ≡ true)
        × (is_header_extension defaults (without_dots (codes ".h")) ≡ true)
        × (without_layers (codes "/w/base/a") ≡ codes "/w/" ++ without_layers (codes "base/a")))
files_belong_to_same_module_iff_example =
    files_belong_to_same_module_iff defaults system [] (codes "/w/base/a_test.cc")
      (codes "base/a.h") (codes "/w/") (codes "/w/base/a") (codes "base/a")
      (record source { directory = codes "/w/base" }) header split_name-source split_name-header
      source-IsSource header-IsHeader header-filled

files_belong_to_same_module-prefix :
    files_belong_to_same_module defaults system [] (codes "/w/base/a_test.cc") (codes "base/a.h")
    ≡ some (true, codes "/w/")
unfolding files_belong_to_same_module
files_belong_to_same_module-prefix = refl

-- The stem of the header is empty, and s[:-0] is too.
files_belong_to_same_module-empty :
    files_belong_to_same_module defaults system [] (codes "/w/base/a.cc") (codes "-inl.h")
    ≡ some (true, [])
unfolding files_belong_to_same_module
files_belong_to_same_module-empty = refl

abbrev found : Guards
found = record {
  ifndef = codes "A_H_";
  ifndef_linenum = 1;
  define = codes "A_H_";
  endif = codes "#endif  // A_H_";
  endif_linenum = 4;
}

abbrev guarded : List Text
guarded =
    codes "// marker"
    ∷ codes "#ifndef A_H_"
    ∷ codes "#define A_H_"
    ∷ codes "int a;"
    ∷ codes "#endif  // A_H_"
    ∷ codes "// marker"
    ∷ []

guarded-IsGuarded : IsGuarded guarded found
unfolding concurrency_tcp_server.Names.Keeps.is_plain concurrency_tcp_server.Names.Keeps.has_names
    starts_with concurrency_tcp_server.Names.Keeps.closes_none
guarded-IsGuarded = record {
  top = codes "// marker" ∷ [];
  ifndef_line = codes "#ifndef A_H_";
  define_line = codes "#define A_H_";
  body = codes "int a;" ∷ [];
  bottom = codes "// marker" ∷ [];
  ifndef_rest = [];
  define_rest = [];
  lines_are = refl;
  plain = refl;
  ifndef_words = refl;
  define_words = refl;
  filled = refl;
  at_ifndef = refl;
  ends = refl;
  at_endif = refl;
  closed = refl;
}

find_guards-IsGuarded_example : find_guards 0 guarded no_guards ≡ found
find_guards-IsGuarded_example = find_guards-IsGuarded guarded found guarded-IsGuarded

abbrev linter : Linter
linter = record {
  state = new_state;
  suppressions = record { everywhere = []; by_category = []; global_categories = [] };
}

abbrev cleansed : List Text → CleansedLines
cleansed ls = record {
  elided = [];
  lines = [];
  raw_lines = [];
  num_lines = 0;
  lines_without_raw_strings = ls;
}

abbrev errors : Option Linter → Option (List Text)
errors l = Option.map (λ (k : Linter). k.state.stderr) l

check_for_header_guard-right :
    errors (check_for_header_guard system [] [] (codes "a.h") (cleansed guarded) linter) ≡ some []
unfolding check_for_header_guard
check_for_header_guard-right = refl

check_for_header_guard-wrong :
    errors (check_for_header_guard system [] [] (codes "b.h") (cleansed guarded) linter)
    ≡ some (
        codes
          "b.h:1:  #ifndef header guard has wrong style, please use: B_H_  [build/header_guard] [5]\n"
        ∷ codes "b.h:4:  #endif line should be \"#endif  // B_H_\"  [build/header_guard] [5]\n"
        ∷ [])
unfolding check_for_header_guard concurrency_tcp_server.Lint.Report.should_print_error
    concurrency_tcp_server.Lint.Suppress.is_error_suppressed_by_nolint
    concurrency_tcp_server.Lint.Suppress.lines_of concurrency_tcp_server.Lint.Report.is_filtered
    concurrency_tcp_server.Lint.Report.apply_filter concurrency_tcp_server.Lint.Report.emit
    concurrency_tcp_server.Lint.State.increment_error_count concurrency_tcp_server.Base.decimal
check_for_header_guard-wrong = refl

check_for_header_guard-none :
    errors
      (check_for_header_guard system [] [] (codes "a.h") (cleansed (codes "int a;" ∷ [])) linter)
    ≡ some (
        codes
          "a.h:0:  No #ifndef header guard found, suggested CPP variable is: A_H_  [build/header_guard] [5]\n"
        ∷ [])
unfolding check_for_header_guard concurrency_tcp_server.Lint.Report.should_print_error
    concurrency_tcp_server.Lint.Suppress.is_error_suppressed_by_nolint
    concurrency_tcp_server.Lint.Suppress.lines_of concurrency_tcp_server.Lint.Report.is_filtered
    concurrency_tcp_server.Lint.Report.apply_filter concurrency_tcp_server.Lint.Report.emit
    concurrency_tcp_server.Lint.State.increment_error_count concurrency_tcp_server.Base.decimal
check_for_header_guard-none = refl
