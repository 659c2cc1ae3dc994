-- ===== src/Classify/Kinds.antt =====
-- The extensions and the common suffixes of build_support/cpplint.py.
use mathlib.Core.List.{reverse-cons, reverse-append, reverse-reverse}
use concurrency_tcp_server.Base.{
  ℕ, zero, suc, ◌≡◌, ◌≢◌, ◌⊎◌, refl, sym, ap, ◌∙◌, Bool, true, ◌||◌, none, some, List, [], ◌∷◌,
  ◌++◌, Text, ◌==◌, arith, reverse, get_elem?, Option-cases, inl, inr, append_assoc, Bool-cases,
}
use concurrency_tcp_server.Classify.Paths.{path_splitext}
use concurrency_tcp_server.Classify.{
  Extensions, common_suffixes, before_suffix, drop_first_suffix, drop_common_suffixes,
}

-- - or _
abbrev pub is_separator : ℕ → Bool
is_separator c = c == b'-' || c == b'_'

before_suffix_sound :
    (suffix name rest : Text)
    → before_suffix suffix name ≡ some rest
    → (c : ℕ) × (is_separator c ≡ true) × (name ≡ suffix ++ (c ∷ rest))
unfolding before_suffix
before_suffix_sound [] [] rest e = cc
before_suffix_sound [] (c ∷ name) rest e = elim (Bool-cases (is_separator c)) [
  | inr h ↦ cc (rw h at e)
  | inl h ↦ let e' : some name ≡ some rest = cc (rw h at e) in (c, h, cc)
]
before_suffix_sound (x ∷ suffix) [] rest e = cc
before_suffix_sound (x ∷ suffix) (c ∷ name) rest e = elim (Bool-cases (x == c)) [
  | inr h ↦ cc (rw h at e)
  | inl h ↦
      let e' : before_suffix suffix name ≡ some rest = cc (rw h at e) in
      let (d, k, q) = before_suffix_sound suffix name rest e' in
      (d, k, ap (◌∷◌ c) q ∙ ap (λ (y : ℕ). y ∷ (suffix ++ (d ∷ rest))) (ground (arith, h)))
]

before_suffix_complete :
    (suffix rest : Text) (c : ℕ)
    → is_separator c ≡ true
    → before_suffix suffix (suffix ++ (c ∷ rest)) ≡ some rest
unfolding before_suffix
before_suffix_complete [] rest c h = rw h
before_suffix_complete (x ∷ suffix) rest c h =
    ground (arith, before_suffix_complete suffix rest c h)

-- A file name that ends in a separator and a suffix, read from its start and from its end.
reverse-parts :
    (stem suffix : Text) (c : ℕ)
    → reverse (stem ++ (c ∷ suffix)) ≡ reverse suffix ++ (c ∷ reverse stem)
reverse-parts stem suffix c =
    reverse-append stem (c ∷ suffix)
    ∙ ap (λ t. t ++ reverse stem) (reverse-cons c suffix)
    ∙ append_assoc (reverse suffix) (c ∷ []) (reverse stem)

-- The name is the stem, a separator and one of the suffixes.
pub record IsCut (suffixes : List Text) (filename stem : Text) : Type 0 where
  pub index : ℕ
  pub suffix : Text
  pub separator : ℕ
  pub listed : get_elem? suffixes index ≡ some suffix
  pub separates : is_separator separator ≡ true
  pub splits : filename ≡ stem ++ (separator ∷ suffix)

-- The result is such a stem; or the name has none, and the result is the name without its extension.
abbrev pub IsStem : List Text → Text → Text → Type 0
IsStem suffixes filename result =
    IsCut suffixes filename result
    ⊎ ((¬ ((stem : Text) × IsCut suffixes filename stem)) × (result ≡ (path_splitext filename).0))

some_suffix :
    (suffix filename rest : Text)
    → before_suffix (reverse suffix) (reverse filename) ≡ some rest
    → (c : ℕ) × (is_separator c ≡ true) × (filename ≡ reverse rest ++ (c ∷ suffix))
some_suffix suffix filename rest e =
    let (c, h, q) = before_suffix_sound (reverse suffix) (reverse filename) rest e in
    (
      c,
      h,
      sym (reverse-reverse filename)
          ∙ ap reverse q
          ∙ reverse-parts (reverse suffix) rest c
          ∙ ap (λ t. reverse rest ++ (c ∷ t)) (reverse-reverse suffix),
    )

no_suffix :
    (suffix filename stem : Text) (c : ℕ)
    → before_suffix (reverse suffix) (reverse filename) ≡ none
    → is_separator c ≡ true
    → filename ≢ stem ++ (c ∷ suffix)
no_suffix suffix filename stem c e h q =
    let there = before_suffix_complete (reverse suffix) (reverse stem) c h in
    let turned = ap reverse q ∙ reverse-parts stem suffix c in
    cc (ap (before_suffix (reverse suffix)) turned ∙ there)

later :
    (s : Text) {suffixes : List Text} {filename stem : Text}
    → IsCut suffixes filename stem
    → IsCut (s ∷ suffixes) filename stem
later s k = record {
  index = suc k.index;
  suffix = k.suffix;
  separator = k.separator;
  listed = k.listed;
  separates = k.separates;
  splits = k.splits;
}

IsCut-cases :
    (s : Text) (suffixes : List Text) (filename stem : Text) (i : ℕ) (suffix : Text) (c : ℕ)
    → before_suffix (reverse s) (reverse filename) ≡ none
    → get_elem? (s ∷ suffixes) i ≡ some suffix
    → is_separator c ≡ true
    → filename ≡ stem ++ (c ∷ suffix)
    → IsCut suffixes filename stem
IsCut-cases s suffixes filename stem zero suffix c e at h q =
    let same : s ≡ suffix = cc in
    absurd (
      no_suffix suffix filename stem c
        (ap (λ t. before_suffix (reverse t) (reverse filename)) (sym same) ∙ e) h q)
IsCut-cases s suffixes filename stem (suc i) suffix c e at h q = record {
  index = i;
  suffix = suffix;
  separator = c;
  listed = at;
  separates = h;
  splits = q;
}

nothing_listed : (i : ℕ) (suffix : Text) → get_elem? [] i ≢ some suffix
nothing_listed i suffix e = cc

further :
    (s : Text) (suffixes : List Text) (filename result : Text)
    → before_suffix (reverse s) (reverse filename) ≡ none
    → IsStem suffixes filename result
    → IsStem (s ∷ suffixes) filename result
further s suffixes filename result e (inl k) = inl (later s k)
further s suffixes filename result e (inr (h, q)) = inr (
  λ (stem, k). h (
    stem,
    IsCut-cases s suffixes filename stem k.index k.suffix k.separator e k.listed k.separates
        k.splits,
  ),
  q,
)

drop_first_suffix-IsStem :
    (suffixes : List Text) (filename : Text)
    → IsStem suffixes filename (drop_first_suffix suffixes filename)
unfolding drop_first_suffix
drop_first_suffix-IsStem [] filename =
    inr (λ (stem, k). nothing_listed k.index k.suffix k.listed, refl)
drop_first_suffix-IsStem (s ∷ suffixes) filename =
    elim (Option-cases (before_suffix (reverse s) (reverse filename))) [
      | inr (rest, e) ↦
          let (c, h, q) = some_suffix s filename rest e in
          rw (e, drop_first_suffix)
            (inl (record {
              index = 0;
              suffix = s;
              separator = c;
              listed = refl;
              separates = h;
              splits = q;
            }))
      | inl e ↦
          rw (e, drop_first_suffix)
            (further s suffixes filename (drop_first_suffix suffixes filename) e
              (drop_first_suffix-IsStem suffixes filename))
    ]

-- For every file name: what _DropCommonSuffixes returns is followed in the name by a - or _ and one of the
-- common suffixes; or no common suffix stands so at the end of the name, and it returns the name
-- without its extension.
pub drop_common_suffixes-IsStem :
    (e : Extensions) (filename : Text)
    → IsStem (common_suffixes e) filename (drop_common_suffixes e filename)
unfolding drop_common_suffixes
drop_common_suffixes-IsStem e filename = drop_first_suffix-IsStem (common_suffixes e) filename
