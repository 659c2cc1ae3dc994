-- ===== src/Names/Split.antt =====
-- build_support/cpplint.py: FileInfo.Split and what reads its parts.
use mathlib.Core.Option
use concurrency_tcp_server.Base.{Bool, Option, Text, drop, ◌++◌, ◌∷◌}
use concurrency_tcp_server.Classify.{Extensions, is_source_extension}
use concurrency_tcp_server.Classify.Paths.{path_split, path_splitext}
use concurrency_tcp_server.Names.{FileSystem, repository_name}

-- The parts of a name in the repository: directory, base name, extension.
pub record Parts : Type 0 where
  pub directory : Text
  pub base_name : Text
  pub extension : Text

unfoldable pub parts_of : Text → Parts
unfolding path_split path_splitext
parts_of googlename =
    let (project, rest) = path_split googlename in
    let (stem, ext) = path_splitext rest in
    record { directory = project; base_name = stem; extension = ext }

-- FileInfo.Split; its parts are BaseName and Extension.
unfoldable pub split_name : FileSystem → Text → Text → Option Parts
unfolding repository_name parts_of
split_name fs repository filename = Option.map parts_of (repository_name fs repository filename)

-- FileInfo.NoExtension
abbrev pub no_extension : Parts → Text
no_extension p = p.directory ++ (b'/' ∷ p.base_name)

-- FileInfo.IsSource
abbrev pub is_source : Extensions → Parts → Bool
is_source e p = is_source_extension e (drop 1 p.extension)
