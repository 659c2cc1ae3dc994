-- ===== src/Names/Agrees.antt =====
-- build_support/cpplint.py: what FilesBelongToSameModule finds of two names.
use mathlib.Core.Option.{some-injective}
use mathlib.Core.List.{reverse-append, reverse-reverse}
use concurrency_tcp_server.Base.{
  ℕ, suc, ◌-◌, ◌≡◌, ◌≢◌, ◌↔◌, refl, sym, ap, subst, ◌∙◌, Bool, true, false, Option, some, [], ◌∷◌,
  ◌++◌, reverse, Text, length, take, arith, ends_with, starts_with, take-length-append,
  ends_with-append, length-append, ◌==◌, if◌then◌else◌,
}
use concurrency_tcp_server.Classify.{Extensions, is_header_extension, is_source_extension}
use concurrency_tcp_server.Names.{FileSystem}
use concurrency_tcp_server.Names.Split.{Parts, split_name}
use concurrency_tcp_server.Names.SameModule.{
  drop_last, without_dots, source_stem, header_stem, match_stems, compare_modules,
  files_belong_to_same_module,
}

-- A prefix and what follows it.
starts_with-splits : (p s : Text) → starts_with p s ≡ true → (rest : Text) × (s ≡ p ++ rest)
unfolding starts_with
starts_with-splits [] s h = (s, refl)
starts_with-splits (x ∷ p) [] h = ground (arith, h)
starts_with-splits (x ∷ p) (c ∷ s) h =
    let same : c ≡ x = ground (arith, h) in
    let (rest, e) = starts_with-splits p s (ground (arith, h)) in
    (rest, ap (λ (y : ℕ). y ∷ s) same ∙ ap (λ (z : Text). x ∷ z) e)

ends_with-splits : (p s : Text) → ends_with p s ≡ true → (before : Text) × (s ≡ before ++ p)
unfolding ends_with
ends_with-splits p s h =
    let (rest, e) = starts_with-splits (reverse p) (reverse s) h in
    (
      reverse rest,
      sym (reverse-reverse s)
          ∙ ap reverse e
          ∙ reverse-append (reverse p) rest
          ∙ ap (λ (z : Text). reverse rest ++ z) (reverse-reverse p),
    )

pub drop_last-append : (before p : Text) → p ≢ [] → drop_last (length p) (before ++ p) ≡ before
unfolding drop_last
drop_last-append before [] h = elim (h refl) [ ]
drop_last-append before (x ∷ p) h =
    let n : length (before ++ (x ∷ p)) - suc (length p) ≡ length before =
      omega (arith, length-append before (x ∷ p)) in
    let filled : (suc (length p) == 0) ≡ false = ground arith in
    rw filled (ap (λ (k : ℕ). take k (before ++ (x ∷ p))) n ∙ take-length-append before (x ∷ p))

match_stems_iff :
    (s h prefix : Text)
    → h ≢ []
    → (◌≡◌ {A = Bool × Text} (match_stems s h) (true, prefix)) ↔ (s ≡ prefix ++ h)
unfolding match_stems
match_stems_iff s h prefix filled = (there (ends_with h s) refl, back)
  where
    there :
        (b : Bool)
        → ends_with h s ≡ b
        → ◌≡◌ {A = Bool × Text}
            (if b then (true, drop_last (length h) s) else (false, []))
            (true, prefix)
        → s ≡ prefix ++ h
    there false e k = ground (arith, ap (λ (r : Bool × Text). r.0) k)
    there true e k =
        let (before, f) = ends_with-splits h s e in
        let g : before ≡ prefix =
          sym (ap (drop_last (length h)) f ∙ drop_last-append before h filled)
          ∙ ap (λ (r : Bool × Text). r.1) k in
        f ∙ ap (λ (z : Text). z ++ h) g

    back : s ≡ prefix ++ h → ◌≡◌ {A = Bool × Text} (match_stems s h) (true, prefix)
    back e = rw e (rw (ends_with-append prefix h, drop_last-append prefix h filled) refl)

not_true :
    {prefix : Text} → ◌≡◌ {A = Option (Bool × Text)} (some (false, [])) (some (true, prefix)) → ⊥
not_true {prefix} e =
    ground (arith, ap (λ (r : Bool × Text). r.0) (some-injective (false, []) (true, prefix) e))

-- A result behind two tests.
guarded_iff :
    (b c : Bool) (m : Bool × Text) (prefix : Text) {P : Type 0}
    → ◌≡◌ {A = Bool × Text} m (true, prefix) ↔ P
    → (◌≡◌ {A = Option (Bool × Text)}
        (if b then if c then some m else some (false, []) else some (false, []))
        (some (true, prefix)))
      ↔ ((b ≡ true) × (c ≡ true) × P)
guarded_iff true true m prefix i =
    (λ e. (refl, refl, i.0 (some-injective m (true, prefix) e)), λ (_, _, z). ap some (i.1 z))
guarded_iff true false m prefix i = (λ e. elim (not_true e) [ ], λ (_, y, _). ground (arith, y))
guarded_iff false c m prefix i = (λ e. elim (not_true e) [ ], λ (x, _, _). ground (arith, x))

-- FilesBelongToSameModule, by the stems of the two names
pub files_belong_to_same_module-stems :
    (e : Extensions) (fs : FileSystem) (repository filename_cc filename_h prefix : Text)
    (source header : Parts)
    → split_name fs repository filename_cc ≡ some source
    → split_name fs repository filename_h ≡ some header
    → header_stem header filename_h ≢ []
    → (files_belong_to_same_module e fs repository filename_cc filename_h ≡ some (true, prefix)) ↔ (
        (is_source_extension e (without_dots source.extension) ≡ true)
        × (is_header_extension e (without_dots header.extension) ≡ true)
        × (source_stem source filename_cc ≡ prefix ++ header_stem header filename_h))
unfolding files_belong_to_same_module compare_modules
files_belong_to_same_module-stems e fs repository filename_cc filename_h prefix source header p q
      filled =
    let compared = compare_modules e filename_cc filename_h in
    subst
      (λ (r : Option (Bool × Text)). (r ≡ some (true, prefix)) ↔ (
        (is_source_extension e (without_dots source.extension) ≡ true)
        × (is_header_extension e (without_dots header.extension) ≡ true)
        × (source_stem source filename_cc ≡ prefix ++ header_stem header filename_h)))
      (sym (
        ap (λ (x : Option Parts). compared x (split_name fs repository filename_h)) p
        ∙ ap (λ (x : Option Parts). compared (some source) x) q))
      (guarded_iff (is_source_extension e (without_dots source.extension))
        (is_header_extension e (without_dots header.extension))
        (match_stems (source_stem source filename_cc) (header_stem header filename_h)) prefix
        (match_stems_iff (source_stem source filename_cc) (header_stem header filename_h) prefix
          filled))
