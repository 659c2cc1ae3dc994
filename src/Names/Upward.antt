-- ===== src/Names/Upward.antt =====
-- build_support/cpplint.py: the directories that the loops of FileInfo visit, up to the topmost one.
use mathlib.Core.List.{reverse-reverse}
use concurrency_tcp_server.Base.{
  if◌then◌else◌, ℕ, zero, suc, ◌≡◌, ◌<◌, ◌≤◌, ◌⊎◌, inl, inr, refl, ap, ◌∙◌, Bool, true, false, List,
  [], ◌∷◌, ◌++◌, reverse, Text, all, length, length-append, length-reverse, text_eq, text_eq_iff,
  arith, ◌==◌,
}
use concurrency_tcp_server.Classify.Paths.{path_split, cut_at, drop_slashes, trim_head}
use concurrency_tcp_server.Names.Directories.{dirname, directories}

-- A text is the two parts that it is cut into.
cut_at-append : (c : ℕ) (s : Text) → (cut_at c s).0 ++ (cut_at c s).1 ≡ s
unfolding cut_at
cut_at-append c [] = refl
cut_at-append c (x ∷ s) = ground (arith, cut_at-append c s)

drop_slashes-shortens : (s : Text) → (drop_slashes s ≡ s) ⊎ (length (drop_slashes s) < length s)
unfolding drop_slashes
drop_slashes-shortens [] = inl refl
drop_slashes-shortens (c ∷ s) = ground (arith, drop_slashes-shortens s)

-- The trimmed head is the head, or shorter.
trim_head-shortens :
    (head : Text) → (trim_head head ≡ reverse head) ⊎ (length (trim_head head) < length head)
unfolding trim_head
trim_head-shortens head =
    elim (all (◌==◌ b'/') head)
      as (λ (b : Bool).
        ((if b then reverse head else reverse (drop_slashes head)) ≡ reverse head)
        ⊎ (length (if b then reverse head else reverse (drop_slashes head)) < length head)) [
          | true ↦ inl refl
          | false ↦ elim (drop_slashes-shortens head) [
            | inl e ↦ inl (ap reverse e)
            | inr l ↦ inr (rw (length-reverse (drop_slashes head)) l)
          ]
        ]

trim_head-length : (head : Text) → length (trim_head head) ≤ length head
trim_head-length head = elim (trim_head-shortens head) [
  | inl e ↦ omega (arith, ap length e, length-reverse head)
  | inr l ↦ omega (arith, l)
]

-- The directory is the name itself, or shorter.
pub dirname-shortens : (path : Text) → (dirname path ≡ path) ⊎ (length (dirname path) < length path)
unfolding path_split
dirname-shortens path = split_at (cut_at b'/' (reverse path)) (cut_at-append b'/' (reverse path))
  where
    split_at :
        (p : Text × Text)
        → p.0 ++ p.1 ≡ reverse path
        → (trim_head p.1 ≡ path) ⊎ (length (trim_head p.1) < length path)
    split_at ([], head) e = elim (trim_head-shortens head) [
      | inl t ↦ inl (t ∙ ap reverse e ∙ reverse-reverse path)
      | inr l ↦ inr (omega (arith, l, ap length e, length-reverse path))
    ]
    split_at (x ∷ tail, head) e = inr (
        omega (
          arith,
          trim_head-length head,
          ap length e,
          length-append (x ∷ tail) head,
          length-reverse path,
        ))

-- The last of the directories is the one that is its own dirname.
unfoldable pub ends_at_top : List Text → Bool
ends_at_top [] = false
ends_at_top (d ∷ []) = text_eq (dirname d) d
ends_at_top (d ∷ e ∷ ds) = ends_at_top (e ∷ ds)

ends_at_top-cons : (d : Text) (ds : List Text) → ends_at_top ds ≡ true → ends_at_top (d ∷ ds) ≡ true
unfolding ends_at_top
ends_at_top-cons d [] h = ground (arith, h)
ends_at_top-cons d (_ ∷ _) h = h

pub directories-ends :
    (fuel : ℕ) (path : Text) → length path < fuel → ends_at_top (directories fuel path) ≡ true
unfolding directories ends_at_top
directories-ends zero path h = elim h [ ]
directories-ends (suc fuel) path h =
    go (λ l. directories-ends fuel (dirname path) (omega (arith, l, h)))
      (text_eq (dirname path) path) refl
  where
    go :
        (length (dirname path) < length path → ends_at_top (directories fuel (dirname path)) ≡ true)
        → (b : Bool) → text_eq (dirname path) path ≡ b
        → ends_at_top (path ∷ (if b then [] else directories fuel (dirname path))) ≡ true
    go further true e = e
    go further false e = elim (dirname-shortens path) [
      | inl t ↦ ground (arith, e, (text_eq_iff (dirname path) path).1 t)
      | inr l ↦ ends_at_top-cons path (directories fuel (dirname path)) (further l)
    ]
