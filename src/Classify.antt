-- ===== src/Classify.antt =====
-- build_support/cpplint.py: the extensions of files and _ClassifyInclude, the kind of an include.
pub mod Headers
pub mod Paths
mod Kinds
mod Tests
use mathlib.Core.Option
use concurrency_tcp_server.Base.{
  ℕ, zero, suc, ◌+◌, Bool, true, false, not, ◌&&◌, ◌||◌, Option, none, some, List, [], ◌∷◌, ◌++◌,
  Text, if◌then◌else◌, codes, ◌==◌, text_eq, one_of, any, reverse, replace, split, strip, map,
  length, drop, ltb,
}
use concurrency_tcp_server.Include.{
  HeaderType, c_sys_header, cpp_sys_header, likely_my_header, possible_my_header, other_header,
}
use concurrency_tcp_server.Classify.Headers.{is_cpp_header}
use concurrency_tcp_server.Classify.Paths.{path_split, path_splitext, path_normpath}

-- _hpp_headers and _valid_extensions. A set is the list of its members.
pub record Extensions : Type 0 where
  pub hpp_headers : List Text
  pub valid_extensions : List Text

abbrev strip_all : Text → List Text
strip_all val = map strip (split b',' val)

-- ProcessHppHeadersOption, ProcessExtensionsOption; nothing in them raises ValueError
unfoldable pub process_hpp_headers_option : Text → Extensions → Extensions
unfolding split strip
process_hpp_headers_option val e = record e { hpp_headers = strip_all val }

unfoldable pub process_extensions_option : Text → Extensions → Extensions
unfolding split strip
process_extensions_option val e = record e { valid_extensions = strip_all val }

abbrev filter : (Text → Bool) → List Text → List Text
filter p [] = []
filter p (x ∷ xs) = if p x then x ∷ filter p xs else filter p xs

-- s or d, for sets
abbrev or_else : List Text → List Text → List Text
or_else [] d = d
or_else (x ∷ xs) d = x ∷ xs

-- GetHeaderExtensions
unfoldable pub get_header_extensions : Extensions → List Text
get_header_extensions e = elim e.hpp_headers [
  | x ∷ xs ↦ x ∷ xs
  | [] ↦ elim e.valid_extensions [
    | y ∷ ys ↦ filter (any (◌==◌ b'h')) (y ∷ ys)
    | [] ↦ codes "h" ∷ codes "hh" ∷ codes "hpp" ∷ codes "hxx" ∷ codes "h++" ∷ codes "cuh" ∷ []
  ]
]

-- GetAllExtensions
unfoldable pub get_all_extensions : Extensions → List Text
unfolding get_header_extensions
get_all_extensions e =
    get_header_extensions e
    ++ or_else e.valid_extensions
        (codes "c" ∷ codes "cc" ∷ codes "cpp" ∷ codes "cxx" ∷ codes "c++" ∷ codes "cu" ∷ [])

-- GetNonHeaderExtensions
unfoldable pub get_non_header_extensions : Extensions → List Text
unfolding get_header_extensions get_all_extensions
get_non_header_extensions e =
    filter (λ x. not (one_of x (get_header_extensions e))) (get_all_extensions e)

-- IsHeaderExtension, _IsSourceExtension
abbrev pub is_header_extension : Extensions → Text → Bool
is_header_extension e ext = one_of ext (get_header_extensions e)

abbrev pub is_source_extension : Extensions → Text → Bool
is_source_extension e ext = one_of ext (get_non_header_extensions e)

-- _test_suffixes, with lstrip('_')
abbrev pub test_suffixes : List Text
test_suffixes = codes "test" ∷ codes "regtest" ∷ codes "unittest" ∷ []

abbrev dotted : Text → Text → Text
dotted suffix ext = suffix ++ (b'.' ∷ ext)

-- itertools.product of suffixes and extensions
abbrev products : List Text → List Text → List Text
products [] exts = []
products (s ∷ ss) exts = map (dotted s) exts ++ products ss exts

unfoldable pub common_suffixes : Extensions → List Text
unfolding get_header_extensions get_non_header_extensions
common_suffixes e =
    products test_suffixes (get_non_header_extensions e)
    ++ products (codes "inl" ∷ codes "imp" ∷ codes "internal" ∷ []) (get_header_extensions e)

-- What stands before suffix and a - or _; both texts are given from their end.
unfoldable pub before_suffix : Text → Text → Option Text
before_suffix [] [] = none
before_suffix [] (c ∷ rest) = if c == b'-' || c == b'_' then some rest else none
before_suffix (x ∷ suffix) [] = none
before_suffix (x ∷ suffix) (c ∷ name) = if x == c then before_suffix suffix name else none

unfoldable pub drop_first_suffix : List Text → Text → Text
unfolding before_suffix path_splitext
drop_first_suffix [] filename = (path_splitext filename).0
drop_first_suffix (suffix ∷ rest) filename =
    elim (before_suffix (reverse suffix) (reverse filename)) [
      | some stem ↦ reverse stem
      | none ↦ drop_first_suffix rest filename
    ]

-- _DropCommonSuffixes
unfoldable pub drop_common_suffixes : Extensions → Text → Text
unfolding drop_first_suffix common_suffixes
drop_common_suffixes e filename = drop_first_suffix (common_suffixes e) filename

-- _RE_FIRST_COMPONENT: the characters up to the first of - _ .
unfoldable pub first_component : Text → Text
first_component [] = []
first_component (c ∷ s) =
    let rest = first_component s in if c == b'-' || c == b'_' || c == b'.' then [] else c ∷ rest

-- Both match, and with the same text.
abbrev pub share_component : Text → Text → Bool
share_component target include =
    not (text_eq (first_component target) [])
    && text_eq (first_component target) (first_component include)

-- is_system, without the headers that have a C++ extension
unfoldable pub counts_as_system : Text → Bool → Bool
unfolding path_splitext
counts_as_system include is_system =
    is_system
    && not (one_of (path_splitext include).1 (codes ".hpp" ∷ codes ".hxx" ∷ codes ".h++" ∷ []))

-- target_dir_pub
unfoldable pub public_dir : Text → Text
unfolding path_normpath replace
public_dir target_dir =
    replace (codes "\\") (codes "/") (path_normpath (target_dir ++ codes "/../public"))

-- _ClassifyInclude, for the name of the file in the repository
unfoldable pub classify_include : Extensions → Text → Text → Bool → HeaderType
unfolding is_cpp_header counts_as_system drop_common_suffixes path_split public_dir first_component
classify_include e repository_name include is_system =
    let (target_dir, target_base) = path_split (drop_common_suffixes e repository_name) in
    let (include_dir, include_base) = path_split (drop_common_suffixes e include) in
    if counts_as_system include is_system
    then if is_cpp_header include then cpp_sys_header else c_sys_header
    else if text_eq target_base include_base
        && (text_eq include_dir target_dir || text_eq include_dir (public_dir target_dir))
    then likely_my_header
    else if share_component target_base include_base
    then possible_my_header
    else other_header
