-- ===== src/Names/Returns.antt =====
-- build_support/cpplint.py: when the loops of FileInfo.RepositoryName end.
use mathlib.Core.Option
use concurrency_tcp_server.Base.{
  suc, ◌≡◌, refl, Bool, true, false, Option, none, some, List, [], ◌∷◌, Text, arith, text_eq_iff,
  length, is_some, if◌then◌else◌,
}
use concurrency_tcp_server.Names.{
  FileSystem, full_name, holds_entry, svn_root, repository_name, named_repository, versioned_name,
  behind_prefix,
}
use concurrency_tcp_server.Names.Directories.{dirname, upward}
use concurrency_tcp_server.Names.Upward.{ends_at_top, directories-ends}

-- No directory that is its own dirname, such as /, has an entry .svn.
abbrev pub NoneAtTop : FileSystem → Type 0
NoneAtTop fs = (d : Text) → dirname d ≡ d → holds_entry fs ".svn" d ≡ false

svn_root-returns :
    (fs : FileSystem) (ds : List Text)
    → NoneAtTop fs
    → ends_at_top ds ≡ true
    → is_some (svn_root fs ds) ≡ true
unfolding svn_root ends_at_top
svn_root-returns fs [] free h = ground (arith, h)
svn_root-returns fs (d ∷ []) free h = ground (arith, free d ((text_eq_iff (dirname d) d).0 h))
svn_root-returns fs (d ∷ e ∷ ds) free h = ground (arith, svn_root-returns fs (e ∷ ds) free h)

map-some :
    {A B : Type 0} (f : A → B) (x : Option A) → is_some x ≡ true → is_some (Option.map f x) ≡ true
map-some f none h = h
map-some f (some _) h = refl

if-some :
    {A : Type 0} (b : Bool) (x y : Option A)
    → is_some x ≡ true
    → is_some y ≡ true
    → is_some (if b then x else y) ≡ true
if-some true x y h k = h
if-some false x y h k = k

or-some :
    {A : Type 0} (x y : Option A)
    → is_some y ≡ true
    → is_some (elim x [ some a ↦ some a | none ↦ y ]) ≡ true
or-some none y h = h
or-some (some _) y h = refl

versioned_name-returns :
    (fs : FileSystem) (fullname : Text) → NoneAtTop fs → is_some (versioned_name fs fullname) ≡ true
unfolding versioned_name
versioned_name-returns fs fullname free =
    if-some (holds_entry fs ".svn" (dirname fullname)) _ _
      (map-some (λ root. behind_prefix root (dirname fullname) fullname)
        (svn_root fs (upward (dirname fullname)))
        (svn_root-returns fs (upward (dirname fullname)) free
          (directories-ends (suc (length (dirname fullname))) (dirname fullname) (omega arith))))
      refl

-- FileInfo.RepositoryName returns
pub repository_name-returns :
    (fs : FileSystem) (repository filename : Text)
    → NoneAtTop fs
    → is_some (repository_name fs repository filename) ≡ true
unfolding repository_name
repository_name-returns fs repository filename free =
    if-some (fs.path_exists (full_name fs filename)) _ _
      (or-some (named_repository fs repository (full_name fs filename)) _
        (versioned_name-returns fs (full_name fs filename) free))
      refl
