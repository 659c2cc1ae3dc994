-- ===== src/Names/Guard.antt =====
-- build_support/cpplint.py: PathSplitToList and GetHeaderGuardCPPVariable.
use concurrency_tcp_server.Base.{
  List, Option, Text, [], codes, drop, if◌then◌else◌, is_digit, is_upper, leb, length, map, none,
  replace, reverse, some, suc, take, text_eq, zero, ℕ, ◌&&◌, ◌++◌, ◌-◌, ◌||◌, ◌∷◌,
}
use concurrency_tcp_server.Classify.Paths.{path_split}
use concurrency_tcp_server.Regex.{Regex, eol, group, group_text, search_re, star, stop_at, sub}
use concurrency_tcp_server.Regex.Forms.{lit, none_of, ◌⊙◌}
use concurrency_tcp_server.Lines.RawStrings.{group_or_empty}
use concurrency_tcp_server.Names.Directories.{path_join_all}
use concurrency_tcp_server.Names.{FileSystem, full_name, repository_name}

-- _flymake\.h$
abbrev pub flymake_re : Regex
flymake_re = lit "_flymake.h" ⊙ eol

-- /\.flymake/([^/]*)$
abbrev pub flymake_directory_re : Regex
flymake_directory_re = lit "/.flymake/" ⊙ group 1 (star (none_of "/")) ⊙ eol

-- re.sub(r'/\.flymake/([^/]*)$', r'/\1', filename). There is one match at most, since it reaches the end.
unfoldable pub out_of_flymake : Text → Text
unfolding search_re group_text
out_of_flymake filename = elim (search_re flymake_directory_re filename) [
  | none ↦ filename
  | some m ↦ take m.start filename ++ (b'/' ∷ group_or_empty 1 m) ++ drop (stop_at m) filename
]

-- The name of the file without the traces of flymake and with cpp for c++.
unfoldable pub original_name : Text → Text
unfolding replace sub out_of_flymake
original_name filename =
    replace (codes "c++") (codes "cpp")
      (replace (codes "C++") (codes "cpp") (out_of_flymake (sub flymake_re (codes ".h") filename)))

-- PathSplitToList, last part in front, which lst.reverse() puts right.
unfoldable pub split_back : ℕ → Text → List Text
unfolding path_split text_eq
split_back zero path = []
split_back (suc fuel) path =
    let (head, tail) = path_split path in
    let rest = split_back fuel head in
    if text_eq head path then head ∷ [] else if text_eq tail path then tail ∷ [] else tail ∷ rest

unfoldable pub path_split_to_list : Text → List Text
unfolding split_back
path_split_to_list path = reverse (split_back (suc (length path)) path)

-- StripListPrefix
unfoldable pub strip_list_prefix : List Text → List Text → Option (List Text)
unfolding text_eq
strip_list_prefix lst [] = some lst
strip_list_prefix [] (p ∷ prefix) = none
strip_list_prefix (x ∷ lst) (p ∷ prefix) =
    let further = strip_list_prefix lst prefix in if text_eq x p then further else none

-- maybe_path, joined, if it is neither None nor empty
unfoldable pub joined_path : Option (List Text) → Option Text
unfolding path_join_all
joined_path none = none
joined_path (some []) = none
joined_path (some (part ∷ parts)) = some (path_join_all part parts)

-- FixupPathFromRoot, without the messages of _root_debug. `root` is _root, the empty text for None.
unfoldable pub fixup_path_from_root : FileSystem → Text → Text → Text → Text
unfolding text_eq full_name path_split_to_list strip_list_prefix joined_path
fixup_path_from_root fs root filename file_path_from_root =
    if text_eq root []
    then file_path_from_root
    else elim (joined_path
        (strip_list_prefix (path_split_to_list file_path_from_root) (path_split_to_list root))) [
          | some path ↦ path
          | none ↦
              elim (joined_path (
                strip_list_prefix (path_split_to_list (full_name fs filename))
                  (path_split_to_list (fs.abspath root)))) [
                    | some path ↦ path
                    | none ↦ file_path_from_root
                  ]
        ]

-- str.upper of what [^a-zA-Z0-9] leaves, which re.sub replaces by _
unfoldable pub guard_char : ℕ → ℕ
unfolding is_upper is_digit
guard_char c =
    if is_upper c || is_digit c then c else if leb b'a' c && leb c b'z' then c - 32 else b'_'

-- GetHeaderGuardCPPVariable
unfoldable pub get_header_guard_cpp_variable : FileSystem → Text → Text → Text → Option Text
unfolding original_name repository_name fixup_path_from_root guard_char
get_header_guard_cpp_variable fs repository root given =
    let filename = original_name given in
    elim (repository_name fs repository filename) [
      | none ↦ none
      | some name ↦ some (map guard_char (fixup_path_from_root fs root filename name) ++ codes "_")
    ]
