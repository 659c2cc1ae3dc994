-- ===== src/Names.antt =====
-- build_support/cpplint.py: FileInfo, the name of a file in its repository.
pub mod Directories
pub mod Split
pub mod Upward
pub mod Guard
pub mod HeaderGuard
pub mod Keeps
pub mod Shape
pub mod Pieces
pub mod Returns
pub mod SameModule
pub mod Agrees
pub mod TestNames
pub mod Stems
pub mod Variable
mod Tests
use mathlib.Core.Option
use concurrency_tcp_server.Base.{
  Bool, List, Option, String, Text, [], codes, drop, if◌then◌else◌, length, map, none, replace,
  some, text_eq, ◌+◌, ◌||◌, ◌∷◌,
}
use concurrency_tcp_server.Classify.Paths.{path_split}
use concurrency_tcp_server.Names.Directories.{
  common_prefix, directories, dirname, path_join, upward,
}

-- What FileInfo asks of the system: os.path.exists, os.path.abspath and os.path.relpath.
pub record FileSystem : Type 0 where
  pub path_exists : Text → Bool
  pub abspath : Text → Text
  pub relpath : Text → Text → Text

abbrev unix : Text → Text
unix path = replace (codes "\\") (codes "/") path

-- FileInfo.FullName
unfoldable pub full_name : FileSystem → Text → Text
unfolding replace
full_name fs filename = unix (fs.abspath filename)

abbrev pub holds_entry : FileSystem → String → Text → Bool
holds_entry fs entry directory = fs.path_exists (path_join directory (codes entry))

-- The loop that looks for the directory `repo` among the directories; os.path.normcase changes nothing.
unfoldable pub within_repository : FileSystem → Text → Text → List Text → Option Text
unfolding text_eq replace
within_repository fs repo fullname [] = none
within_repository fs repo fullname (root_dir ∷ above) =
    let further = within_repository fs repo fullname above in
    if fs.path_exists root_dir
    then if text_eq root_dir repo then some (unix (fs.relpath fullname root_dir)) else further
    else none

-- The loop up a Subversion checkout. At the directory that is its own dirname, an entry .svn keeps it going
-- for ever: none.
unfoldable pub svn_root : FileSystem → List Text → Option Text
unfolding path_join
svn_root fs [] = none
svn_root fs (root_dir ∷ []) = if holds_entry fs ".svn" root_dir then none else some root_dir
svn_root fs (root_dir ∷ one_up_dir ∷ above) =
    let further = svn_root fs (one_up_dir ∷ above) in
    if holds_entry fs ".svn" one_up_dir then further else some root_dir

unfoldable pub is_top_level : FileSystem → Text → Bool
unfolding path_join
is_top_level fs directory =
    holds_entry fs ".git" directory
    || holds_entry fs ".hg" directory
    || holds_entry fs ".svn" directory

-- The loop for a git, hg or svn top level directory: the last one on the way up, without the topmost.
unfoldable pub top_level : FileSystem → Text → List Text → Text
unfolding is_top_level
top_level fs root_dir [] = root_dir
top_level fs root_dir (current_dir ∷ []) = root_dir
top_level fs root_dir (current_dir ∷ next ∷ above) =
    top_level fs (if is_top_level fs current_dir then current_dir else root_dir) (next ∷ above)

-- fullname[len(prefix) + 1:]
unfoldable pub behind_prefix : Text → Text → Text → Text
unfolding common_prefix
behind_prefix root_dir project_dir fullname =
    drop (length (common_prefix root_dir project_dir) + 1) fullname

unfoldable pub versioned_name : FileSystem → Text → Option Text
unfolding path_split path_join svn_root is_top_level top_level behind_prefix directories
versioned_name fs fullname =
    let project_dir = dirname fullname in
    if holds_entry fs ".svn" project_dir
    then Option.map (λ root. behind_prefix root project_dir fullname)
        (svn_root fs (upward project_dir))
    else let root = top_level fs project_dir (upward project_dir) in
      some (if is_top_level fs root then behind_prefix root project_dir fullname else fullname)

-- _repository as a condition, and the search for it.
unfoldable pub named_repository : FileSystem → Text → Text → Option Text
unfolding path_split text_eq full_name within_repository directories
named_repository fs repository fullname =
    if text_eq repository []
    then none
    else within_repository fs (full_name fs repository) fullname (upward (dirname fullname))

-- FileInfo.RepositoryName. `repository` is _repository, the empty text for None; none is a call that does
-- not return.
unfoldable pub repository_name : FileSystem → Text → Text → Option Text
unfolding full_name versioned_name named_repository
repository_name fs repository filename =
    let fullname = full_name fs filename in
    if fs.path_exists fullname
    then elim (named_repository fs repository fullname) [
      | some name ↦ some name
      | none ↦ versioned_name fs fullname
    ]
    else some fullname
