-- ===== src/Nesting/Remaining.antt =====
-- build_support/cpplint.py: what is left of the file in the loop of NestingState.InTemplateArgumentList.
use concurrency_tcp_server.Base.{
  ℕ, zero, suc, ◌+◌, ◌-◌, ◌≤◌, ◌<◌, ◌≡◌, refl, sym, ap, ◌∙◌, not, some, List, [], ◌∷◌, ◌++◌, Text,
  length, arith, get_or, get_elem?, drop, reverse, length-reverse, length-append,
}
use concurrency_tcp_server.Regex.{Cursor, Found, match_re, whole}
use concurrency_tcp_server.Regex.Language.{Accepts}
use concurrency_tcp_server.Regex.Finding.{match_re-Accepts, length-whole}
use concurrency_tcp_server.Regex.Pieces.{star_chars-Passes, passed-before}
use concurrency_tcp_server.Regex.Forms.{in_set}
use concurrency_tcp_server.Nesting.Templates.{template_re, text_size}

-- The text that a match of the pattern takes: at least one character, within the line.
pub whole-bounds :
    (s : Text) (m : Found)
    → match_re template_re s ≡ some m
    → (0 < length (whole m)) × (length (whole m) ≤ length s)
unfolding Accepts
whole-bounds s m e =
    let (r0, (_, e0), (r1, i, (r2, (c, cs, a, t, e1), e2))) = match_re-Accepts template_re s m e in
    let A = star_chars-Passes (λ c. not (in_set "{};=[].<>" c)) i in
    let before_is : length m.stop.before ≡ suc (length r1.before) =
      ap (λ (z : Cursor). length z.before) (sym e2)
      ∙ ap (λ (z : Cursor). length z.before) (sym e1) in
    let r1_is : length r1.before ≡ length A.text =
      ap (λ (z : Cursor). length z.before) A.place_is
      ∙ ap length (passed-before A.text r1.after r0)
      ∙ ap (λ (z : Cursor). length (reverse A.text ++ z.before)) (sym e0)
      ∙ omega (arith, length-append (reverse A.text) [], length-reverse A.text) in
    let s_is : length s ≡ length A.text + suc (length cs) =
      ap (λ (z : Cursor). length z.after) e0
      ∙ ap length (A.after_is ∙ ap (λ (t : Text). A.text ++ t) a)
      ∙ length-append A.text (c ∷ cs) in
    omega (arith, before_is, r1_is, s_is, length-whole template_re s m e)

-- What is left of the file behind a place.
abbrev pub left_at : List Text → ℕ → ℕ → ℕ
left_at elided linenum pos = text_size (drop linenum elided) - pos

-- A place within its line.
abbrev pub IsWithin : List Text → ℕ → ℕ → Type 0
IsWithin elided linenum pos = pos ≤ length (get_or elided linenum [])

pub text_size-drop :
    (elided : List Text) (linenum : ℕ)
    → linenum < length elided
    → text_size (drop linenum elided)
      ≡ suc (length (get_or elided linenum [])) + text_size (drop (suc linenum) elided)
text_size-drop [] linenum h = absurd (omega (arith, h))
text_size-drop (line ∷ rest) zero h = refl
text_size-drop (line ∷ rest) (suc n) h = text_size-drop rest n (omega (arith, h))

pub get_elem?-get_or :
    (elided : List Text) (linenum : ℕ)
    → linenum < length elided
    → get_elem? elided linenum ≡ some (get_or elided linenum [])
get_elem?-get_or [] n h = absurd (omega (arith, h))
get_elem?-get_or (x ∷ xs) zero h = refl
get_elem?-get_or (x ∷ xs) (suc n) h = get_elem?-get_or xs n (omega (arith, h))

pub get_elem?-some : (s : Text) (i : ℕ) → i < length s → (c : ℕ) × (get_elem? s i ≡ some c)
get_elem?-some [] i h = absurd (omega (arith, h))
get_elem?-some (c ∷ s) zero h = (c, refl)
get_elem?-some (c ∷ s) (suc i) h = get_elem?-some s i (omega (arith, h))

pub text_size-shorter : (m : ℕ) (xs : List Text) → text_size (drop m xs) ≤ text_size xs
text_size-shorter zero xs = omega arith
text_size-shorter (suc m) [] = omega arith
text_size-shorter (suc m) (x ∷ xs) = omega (arith, text_size-shorter m xs)

-- Further down there is less.
pub text_size-later :
    (elided : List Text) (n m : ℕ) → n ≤ m → text_size (drop m elided) ≤ text_size (drop n elided)
text_size-later elided zero m h = text_size-shorter m elided
text_size-later elided (suc n) zero h = absurd (omega (arith, h))
text_size-later [] (suc n) (suc m) h = omega arith
text_size-later (x ∷ xs) (suc n) (suc m) h = text_size-later xs n m (omega (arith, h))
