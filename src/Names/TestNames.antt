-- ===== src/Names/TestNames.antt =====
-- build_support/cpplint.py: the match of _TEST_FILE_SUFFIX in a base name.
use mathlib.Core.List.{reverse-append}
use concurrency_tcp_server.Base.{
  ℕ, ◌≡◌, ◌≢◌, ◌⊎◌, inl, inr, refl, sym, ap, ◌∙◌, subst, Bool, true, false, not, Option, none, some,
  [], ◌∷◌, ◌++◌, Text, all, arith, codes, length, reverse, ends_with, ends_with-append, get_or,
  append-nil, ◌==◌, or_default, is_some,
}
use concurrency_tcp_server.Regex.{Cursor, Found, search_re, searches, at_end, cursor}
use concurrency_tcp_server.Regex.Forms.{literal}
use concurrency_tcp_server.Regex.Language.{Accepts}
use concurrency_tcp_server.Regex.Groups.{captured, group_text-last}
use concurrency_tcp_server.Regex.Pieces.{literal-after, captured-passed}
use concurrency_tcp_server.Regex.Suffix.{search_re-IsFoundIn, literal-passed}
use concurrency_tcp_server.Regex.Eats.{
  EatsAll, seq-EatsAll, group-Eats, left-Eats, right-Eats, literal-Eats, eol-EatsAll,
}
use concurrency_tcp_server.Regex.Finding.{searches_iff}
use concurrency_tcp_server.Lines.RawStrings.{group_or_empty}
use concurrency_tcp_server.Names.SameModule.{drop_last, test_file_suffix_re}
use concurrency_tcp_server.Names.Agrees.{drop_last-append}

abbrev pub not_newline : ℕ → Bool
not_newline c = not (c == b'\n')

-- The suffixes of the names of tests.
abbrev pub IsTest : Text → Type 0
IsTest s = (s ≡ codes "_test") ⊎ (s ≡ codes "_regtest") ⊎ (s ≡ codes "_unittest")

-- Their fifth characters from the end differ.
fifth : {s : Text} → IsTest s → ℕ
fifth (inl _) = b'_'
fifth (inr (inl _)) = b'g'
fifth (inr (inr _)) = b't'

fifth_is : {s : Text} (r : Text) (k : IsTest s) → get_or (reverse s ++ r) 4 0 ≡ fifth k
unfolding fifth
fifth_is r (inl e) = ap (λ (z : Text). get_or (reverse z ++ r) 4 0) e
fifth_is r (inr (inl e)) = ap (λ (z : Text). get_or (reverse z ++ r) 4 0) e
fifth_is r (inr (inr e)) = ap (λ (z : Text). get_or (reverse z ++ r) 4 0) e

fifth-injective : {s t : Text} (x : IsTest s) (y : IsTest t) → fifth x ≡ fifth y → s ≡ t
unfolding fifth
fifth-injective (inl x) (inl y) f = x ∙ sym y
fifth-injective (inr (inl x)) (inr (inl y)) f = x ∙ sym y
fifth-injective (inr (inr x)) (inr (inr y)) f = x ∙ sym y
fifth-injective (inl x) (inr (inl y)) f = absurd (omega (arith, f))
fifth-injective (inl x) (inr (inr y)) f = absurd (omega (arith, f))
fifth-injective (inr (inl x)) (inl y) f = absurd (omega (arith, f))
fifth-injective (inr (inl x)) (inr (inr y)) f = absurd (omega (arith, f))
fifth-injective (inr (inr x)) (inl y) f = absurd (omega (arith, f))
fifth-injective (inr (inr x)) (inr (inl y)) f = absurd (omega (arith, f))

-- No two of them end the same name.
tests_agree : (a b s t : Text) → IsTest s → IsTest t → a ++ s ≡ b ++ t → s ≡ t
tests_agree a b s t x y e =
    let turned = sym (reverse-append a s) ∙ ap reverse e ∙ reverse-append b t in
    fifth-injective x y (
      sym (fifth_is (reverse a) x)
      ∙ ap (λ (z : Text). get_or z 4 0) turned
      ∙ fifth_is (reverse b) y)

end_nil : (rest : Text) → at_end rest ≡ true → all not_newline rest ≡ true → rest ≡ []
end_nil [] h k = refl
end_nil (c ∷ []) h k = ground (arith, h, k)
end_nil (c ∷ d ∷ rest) h k = ground (arith, h)

all-behind : (f : ℕ → Bool) (a b : Text) → all f (a ++ b) ≡ true → all f b ≡ true
all-behind f [] b h = h
all-behind f (x ∷ a) b h = all-behind f a b (ground (arith, h))

-- What the pattern of test files captures in a base name.
record Captures (base : Text) (m : Found) : Type 0 where
  before : Text
  suffix : Text
  base_is : base ≡ before ++ suffix
  group_is : group_or_empty 1 m ≡ suffix
  which : IsTest suffix

literal-Captures :
    (t base a s : Text) (p q : Cursor) (m : Found)
    → IsTest t
    → all not_newline base ≡ true
    → base ≡ a ++ s
    → p.after ≡ s
    → Accepts (literal t) p q
    → at_end q.after ≡ true
    → group_or_empty 1 m ≡ captured p q
    → Captures base m
literal-Captures t base a s p q m k one e f l h g =
    let s_is : s ≡ t ++ q.after = sym f ∙ literal-after t p q l in
    let rest_one = all-behind not_newline t q.after (
      subst (λ (z : Text). all not_newline z ≡ true) s_is
        (all-behind not_newline a s (subst (λ (z : Text). all not_newline z ≡ true) e one))) in
    let rest_is = end_nil q.after h rest_one in
    record {
      before = a;
      suffix = t;
      base_is =
          e ∙ ap (λ (z : Text). a ++ z) (s_is ∙ ap (λ (z : Text). t ++ z) rest_is ∙ append-nil t);
      group_is = g ∙ ap (captured p) (literal-passed t p q l) ∙ captured-passed t q.after p;
      which = k;
    }

found-Captures :
    (base : Text) (m : Found)
    → all not_newline base ≡ true
    → search_re test_file_suffix_re base ≡ some m
    → Captures base m
unfolding Accepts
found-Captures base m one e =
    let f = search_re-IsFoundIn test_file_suffix_re base m e in
    let (r, (q, l, c), (h, stop)) = f.accepts in
    let p = cursor (reverse f.ahead_of ++ []) f.from_there in
    let done = ap (λ (z : Cursor). at_end z.after) c ∙ h in
    let group = ap (or_default []) (group_text-last 1 p q m (sym stop ∙ sym c)) in
    let captures : (t : Text) → IsTest t → Accepts (literal t) p q → Captures base m = λ t k x.
      literal-Captures t base f.ahead_of f.from_there p q m k one f.split_at refl x done group in
    elim l [
      | inl x ↦ captures (codes "_test") (inl refl) x
      | inr (inl x) ↦ captures (codes "_regtest") (inr (inl refl)) x
      | inr (inr x) ↦ captures (codes "_unittest") (inr (inr refl)) x
    ]

-- The suffix of a base name that marks a test; none if it ends with none of the three.
pub data TestSuffix : Text → Text → Type 0 where
  is_test : (before suffix : Text) → IsTest suffix → TestSuffix (before ++ suffix) suffix
  no_test :
      (base : Text)
      → ends_with (codes "_test") base ≡ false
      → ends_with (codes "_regtest") base ≡ false
      → ends_with (codes "_unittest") base ≡ false
      → TestSuffix base []

suffix-EatsAll : (s : Text) → IsTest s → EatsAll test_file_suffix_re s
suffix-EatsAll s (inl k) =
    subst (EatsAll test_file_suffix_re) (sym k)
      (seq-EatsAll (group-Eats 1 (left-Eats (literal-Eats (codes "_test")))) eol-EatsAll)
suffix-EatsAll s (inr (inl k)) = subst (EatsAll test_file_suffix_re) (sym k) (
    seq-EatsAll (group-Eats 1 (right-Eats (left-Eats (literal-Eats (codes "_regtest")))))
      eol-EatsAll)
suffix-EatsAll s (inr (inr k)) = subst (EatsAll test_file_suffix_re) (sym k) (
    seq-EatsAll (group-Eats 1 (right-Eats (right-Eats (literal-Eats (codes "_unittest")))))
      eol-EatsAll)

-- A base name on one line that ends with a suffix is matched.
suffix-searches :
    (before suffix : Text) → IsTest suffix → searches test_file_suffix_re (before ++ suffix) ≡ true
suffix-searches before suffix k =
    (searches_iff test_file_suffix_re (before ++ suffix)).1
      (before, suffix, refl, (suffix-EatsAll suffix k).end (cursor (reverse before) suffix) refl)

-- The code's use of the match.
abbrev pub cut_suffix : Option Found → Text → Text
cut_suffix found stem = elim found [
  | none ↦ stem
  | some m ↦ drop_last (length (group_or_empty 1 m)) stem
]

test-filled : (s : Text) → IsTest s → s ≢ []
test-filled s (inl k) e = ground (arith, ap length (sym k ∙ e))
test-filled s (inr (inl k)) e = ground (arith, ap length (sym k ∙ e))
test-filled s (inr (inr k)) e = ground (arith, ap length (sym k ∙ e))

no_capture :
    (base : Text) (m : Found)
    → ends_with (codes "_test") base ≡ false
    → ends_with (codes "_regtest") base ≡ false
    → ends_with (codes "_unittest") base ≡ false
    → Captures base m
    → ⊥
no_capture base m f g h c =
    let ends : ends_with c.suffix base ≡ true =
      ap (ends_with c.suffix) c.base_is ∙ ends_with-append c.before c.suffix in
    elim c.which [
      | inl k ↦ ground (arith, f, ap (λ (z : Text). ends_with z base) (sym k) ∙ ends)
      | inr (inl k) ↦ ground (arith, g, ap (λ (z : Text). ends_with z base) (sym k) ∙ ends)
      | inr (inr k) ↦ ground (arith, h, ap (λ (z : Text). ends_with z base) (sym k) ∙ ends)
    ]

pub found_cut :
    (base suffix stem : Text) (found : Option Found)
    → TestSuffix base suffix
    → all not_newline base ≡ true
    → search_re test_file_suffix_re base ≡ found
    → cut_suffix found (stem ++ suffix) ≡ stem
unfolding searches
found_cut base suffix stem none (no_test _ f g h) one e = append-nil stem
found_cut base suffix stem (some m) (no_test _ f g h) one e =
    absurd (no_capture base m f g h (found-Captures base m one e))
found_cut base suffix stem none (is_test before _ k) one e =
    absurd (ground (arith, sym (ap is_some e) ∙ suffix-searches before suffix k))
found_cut base suffix stem (some m) (is_test before _ k) one e =
    let c = found-Captures (before ++ suffix) m one e in
    let same = c.group_is ∙ sym (tests_agree before c.before suffix c.suffix k c.which c.base_is) in
    ap (λ (z : Text). drop_last (length z) (stem ++ suffix)) same
    ∙ drop_last-append stem suffix (test-filled suffix k)
