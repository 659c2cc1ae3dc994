-- ===== src/Names/Directories.antt =====
-- The functions of Python's os.path (on POSIX) that FileInfo of build_support/cpplint.py calls, and the
-- directories that its loops visit.
use concurrency_tcp_server.Base.{
  List, Text, [], codes, ends_with, if◌then◌else◌, length, starts_with, suc, text_eq, zero, ℕ, ◌++◌,
  ◌==◌, ◌||◌, ◌∷◌,
}
use concurrency_tcp_server.Classify.Paths.{path_split}

-- os.path.dirname
abbrev pub dirname : Text → Text
dirname path = (path_split path).0

-- os.path.join of two names
unfoldable pub path_join : Text → Text → Text
unfolding starts_with ends_with text_eq
path_join a b =
    if starts_with (codes "/") b
    then b
    else if text_eq a [] || ends_with (codes "/") a
    then a ++ b
    else a ++ (b'/' ∷ b)

-- os.path.join(*names), for one name at least
unfoldable pub path_join_all : Text → List Text → Text
unfolding path_join
path_join_all path [] = path
path_join_all path (name ∷ names) = path_join_all (path_join path name) names

-- The longest common prefix of two texts, which os.path.commonprefix gives.
unfoldable pub common_prefix : Text → Text → Text
common_prefix (x ∷ a) (y ∷ b) = let rest = common_prefix a b in if x == y then x ∷ rest else []
common_prefix _ _ = []

-- What the loops `while ...: current_dir = os.path.dirname(current_dir)` visit: a directory, the one above
-- it, and so on up to the one that is its own dirname. The fuel bounds their number.
unfoldable pub directories : ℕ → Text → List Text
unfolding path_split text_eq
directories zero path = []
directories (suc fuel) path =
    let rest = directories fuel (dirname path) in
    path ∷ (if text_eq (dirname path) path then [] else rest)

-- With the fuel that the length of the name gives.
abbrev pub upward : Text → List Text
upward path = directories (suc (length path)) path
