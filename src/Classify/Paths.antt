-- ===== src/Classify/Paths.antt =====
-- The functions of Python's os.path (on POSIX) that build_support/cpplint.py calls on names of files.
use concurrency_tcp_server.Base.{
  ℕ, Bool, not, ◌&&◌, ◌||◌, List, [], ◌∷◌, ◌++◌, Text, if◌then◌else◌, codes, ◌==◌, text_eq, all,
  reverse, split, starts_with,
}

-- A text up to the first c, and from there on; without a c, it is all in the first part.
unfoldable pub cut_at : ℕ → Text → Text × Text
cut_at c [] = ([], [])
cut_at c (x ∷ s) = let (a, b) = cut_at c s in if x == c then ([], x ∷ s) else (x ∷ a, b)

unfoldable pub drop_slashes : Text → Text
drop_slashes [] = []
drop_slashes (c ∷ s) = if c == b'/' then drop_slashes s else c ∷ s

-- The head, given from its end, without its trailing slashes unless it is all slashes.
unfoldable pub trim_head : Text → Text
unfolding drop_slashes
trim_head head = if all (◌==◌ b'/') head then reverse head else reverse (drop_slashes head)

-- os.path.split
unfoldable pub path_split : Text → Text × Text
unfolding cut_at trim_head
path_split path = let (tail, head) = cut_at b'/' (reverse path) in (trim_head head, reverse tail)

-- Splits a base name, given from its end, at its last dot, if a character that is no dot stands before.
split_extension : Text → Text × Text
unfolding cut_at
split_extension base =
    let (ext, rest) = cut_at b'.' base in
    elim rest [
      | [] ↦ (reverse base, [])
      | _ ∷ stem ↦
          if all (◌==◌ b'.') stem then (reverse base, []) else (reverse stem, b'.' ∷ reverse ext)
    ]

-- os.path.splitext
unfoldable pub path_splitext : Text → Text × Text
unfolding cut_at split_extension
path_splitext path =
    let (base, head) = cut_at b'/' (reverse path) in
    let (stem, ext) = split_extension base in (reverse head ++ stem, ext)

-- What `..` does to the parts before it, last part in front.
abbrev up_one : Bool → List Text → List Text
up_one absolute [] = if absolute then [] else codes ".." ∷ []
up_one absolute (k ∷ ks) = if text_eq k (codes "..") then codes ".." ∷ k ∷ ks else ks

-- The parts of a path that normpath keeps, last part in front. A `..` at the root is dropped.
unfoldable pub norm_parts : Bool → List Text → List Text → List Text
norm_parts absolute kept [] = kept
norm_parts absolute kept (part ∷ parts) =
    if text_eq part [] || text_eq part (codes ".")
    then norm_parts absolute kept parts
    else if text_eq part (codes "..")
    then norm_parts absolute (up_one absolute kept) parts
    else norm_parts absolute (part ∷ kept) parts

join_slash : List Text → Text
join_slash [] = []
join_slash (p ∷ []) = p
join_slash (p ∷ q ∷ ps) = p ++ (b'/' ∷ join_slash (q ∷ ps))

-- Two slashes at the start stay two, more become one.
initial_slashes : Text → Text
unfolding starts_with
initial_slashes path =
    if not (starts_with (codes "/") path)
    then []
    else if starts_with (codes "//") path && not (starts_with (codes "///") path)
    then codes "//"
    else codes "/"

-- os.path.normpath
unfoldable pub path_normpath : Text → Text
unfolding norm_parts join_slash initial_slashes split
path_normpath path =
    let slashes = initial_slashes path in
    let parts = norm_parts (not (text_eq slashes [])) [] (split b'/' path) in
    let joined = slashes ++ join_slash (reverse parts) in
    if text_eq joined [] then codes "." else joined
