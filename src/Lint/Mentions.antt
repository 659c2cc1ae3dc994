-- ===== src/Lint/Mentions.antt =====
-- build_support/cpplint.py: the match of the pattern of NOLINT at its word, and the search for it.
use mathlib.Core.Option
use mathlib.Core.List.{reverse-cons}
use concurrency_tcp_server.Base.{
  ℕ, suc, ◌≡◌, refl, sym, ap, ◌∙◌, Bool, true, false, not, Option, none, some, List, [], ◌∷◌, ◌++◌,
  Text, any, all, arith, codes, length, reverse, find, starts_with, starts_with-append, ◌==◌,
  if◌then◌else◌, Option-cases, Bool-cases, inl, inr, append_assoc, is_word, length-append, is_some,
}
use concurrency_tcp_server.Regex.{
  Cursor, Capture, capture, advance, cursor, guarded, head_is_word, run, search_at, group_text,
  Regex,
}
use concurrency_tcp_server.Regex.Forms.{lit, plus, none_of, ◌⊙◌}
use concurrency_tcp_server.Regex.Language.{Accepts}
use concurrency_tcp_server.Regex.Exact.{run-IsExact}
use concurrency_tcp_server.Regex.Groups.{some-injective}
use concurrency_tcp_server.Regex.Pieces.{
  passed, passed-after, passed-snoc, passed-again, literal-after,
}
use concurrency_tcp_server.Regex.Greedy.{place, repeat_chars}
use concurrency_tcp_server.Lint.Nolint.{nolint_re}

abbrev pub in_group : ℕ → Bool
in_group c = not (any (◌==◌ c) (codes ")"))

-- The category in parentheses, as a pattern.
abbrev category_re : Regex
category_re = lit "(" ⊙ plus (none_of ")") ⊙ lit ")"

-- The place behind the category.
abbrev pub behind_category : Text → List (ℕ × Capture) → ℕ → Text → Text → Cursor
behind_category b gs c cat behind =
    advance (passed cat (b')' ∷ behind) (place (c ∷ b'(' ∷ b) (cat ++ (b')' ∷ behind)) gs)) b')'
      behind

category_run :
    (b : Text) (gs : List (ℕ × Capture)) (c : ℕ) (cat behind : Text) (k : Cursor → Option Cursor)
    (z : Cursor)
    → all in_group (c ∷ cat) ≡ true
    → k (behind_category b gs c cat behind) ≡ some z
    → run category_re (place b (b'(' ∷ c ∷ (cat ++ (b')' ∷ behind))) gs) k ≡ some z
unfolding run
category_run b gs c cat behind k z h x =
    let one : in_group c ≡ true = ground (arith, h) in
    let rest =
      passed-after cat (b')' ∷ behind) (place (c ∷ b'(' ∷ b) (cat ++ (b')' ∷ behind)) gs) in
    rw one (
      repeat_chars in_group cat behind b')' (length (cat ++ (b')' ∷ behind))) (c ∷ b'(' ∷ b) gs
        (λ q. run (lit ")") q k) z (omega (arith, length-append cat (b')' ∷ behind)))
        (ground (arith, h)) refl (rw rest x))

pub category_place :
    (b : Text) (gs : List (ℕ × Capture)) (c : ℕ) (cat behind : Text)
    → behind_category b gs c cat behind
      ≡ passed
          (b'(' ∷ c ∷ (cat ++ codes ")"))
          behind
          (place b (b'(' ∷ c ∷ (cat ++ (b')' ∷ behind))) gs)
category_place b gs c cat behind =
    let rest = cat ++ (b')' ∷ behind) in
    sym (passed-snoc cat behind b')' (place (c ∷ b'(' ∷ b) rest gs))
    ∙ passed-again c (cat ++ codes ")") behind rest (place (b'(' ∷ b) (c ∷ rest) gs)
    ∙ passed-again b'(' (c ∷ (cat ++ codes ")")) behind (c ∷ rest) (place b (b'(' ∷ c ∷ rest) gs)

alt_left :
    (x y : Option Cursor) (z : Cursor)
    → x ≡ some z
    → (elim x [ some r ↦ some r | none ↦ y ]) ≡ some z
alt_left x y z e = rw e refl

guarded_is : (t : Bool) (x y : Option Cursor) → t ≡ true → x ≡ y → guarded t x ≡ y
guarded_is t x y e f = rw e f

-- NOLINT or NOLINTNEXTLINE, as a text.
abbrev word_of : Bool → Text
word_of next = if next then codes "NOLINTNEXTLINE" else codes "NOLINT"

-- What the match at the word finds.
pub record Finds (b : Text) (next : Bool) (c : ℕ) (cat behind : Text) : Type 0 where
  pub at_category : Cursor
  pub groups_are : is_some (group_text 1 (record { start = 0; stop = at_category })) ≡ next
  pub category_at : at_category.after ≡ b'(' ∷ c ∷ (cat ++ (b')' ∷ behind))
  pub runs :
      run nolint_re (place b (word_of next ++ (b'(' ∷ c ∷ (cat ++ (b')' ∷ behind)))) []) some
      ≡ some (
          capture 2 at_category
            (behind_category at_category.before at_category.groups c cat behind))

pub finds :
    (b : Text) (next : Bool) (c : ℕ) (cat behind : Text)
    → head_is_word b ≡ false
    → all in_group (c ∷ cat) ≡ true
    → Finds b next c cat behind
unfolding run is_word group_text
finds b false c cat behind w h =
    let p = place (reverse (codes "NOLINT") ++ b) (b'(' ∷ c ∷ (cat ++ (b')' ∷ behind))) [] in
    record {
      at_category = p;
      groups_are = refl;
      category_at = refl;
      runs = guarded_is _ _ _ (rw w refl) (
          alt_left _ _ _ (
            category_run p.before [] c cat behind (λ q. some (capture 2 p q))
              (capture 2 p (behind_category p.before [] c cat behind)) h refl));
    }
finds b true c cat behind w h =
    let after = b'(' ∷ c ∷ (cat ++ (b')' ∷ behind)) in
    let word = place (reverse (codes "NOLINT") ++ b) (codes "NEXTLINE" ++ after) [] in
    let p = capture 1 word (place (reverse (codes "NOLINTNEXTLINE") ++ b) after []) in
    record {
      at_category = p;
      groups_are = refl;
      category_at = refl;
      runs = guarded_is _ _ _ (rw w refl) (
          alt_left _ _ _ (
            alt_left _ _ _ (
              category_run p.before p.groups c cat behind (λ q. some (capture 2 p q))
                (capture 2 p (behind_category p.before p.groups c cat behind)) h refl)));
    }

find-later :
    (p t : Text) (x n : ℕ)
    → find p (x ∷ t) ≡ some (suc n)
    → (starts_with p (x ∷ t) ≡ false) × (find p t ≡ some n)
unfolding find
find-later p t x n e = elim (Bool-cases (starts_with p (x ∷ t))) [
  | inl h ↦ absurd (ground (arith, some-injective (rw (h, find) at e)))
  | inr h ↦ (h, later (find p t) (rw (h, find) at e))
]
  where
    later : (o : Option ℕ) → Option.map suc o ≡ some (suc n) → o ≡ some n
    later none f = absurd (ground (arith, ap is_some f))
    later (some k) f =
        let same : k ≡ n = omega (arith, some-injective f) in ap (λ (z : ℕ). some z) same

-- The pattern matches nowhere but at the word.
not_here :
    (b s : Text) → starts_with (codes "NOLINT") s ≡ false → run nolint_re (cursor b s) some ≡ none
unfolding Accepts
not_here b s h = elim (Option-cases (run nolint_re (cursor b s) some)) [
  | inl e ↦ e
  | inr (q, e) ↦
      let (z, (r0, (_, at), (r1, l, _)), _) = (run-IsExact nolint_re).sound (cursor b s) some q e in
      let s_is : s ≡ codes "NOLINT" ++ r1.after =
        ap (λ (c : Cursor). c.after) at ∙ literal-after (codes "NOLINT") r0 r1 l in
      absurd (
        ground (
          arith,
          h,
          ap (starts_with (codes "NOLINT")) s_is ∙ starts_with-append (codes "NOLINT") r1.after,
        ))
]

pub search_at_first :
    (b pre ds : Text) (d : ℕ) (q : Cursor)
    → find (codes "NOLINT") (pre ++ (d ∷ ds)) ≡ some (length pre)
    → run nolint_re (cursor (reverse pre ++ b) (d ∷ ds)) some ≡ some q
    → (n : ℕ) × (search_at nolint_re b (pre ++ (d ∷ ds)) ≡ some (record { start = n; stop = q }))
unfolding search_at
search_at_first b [] ds d q f e = (length b, rw (e, search_at) refl)
search_at_first b (x ∷ pre) ds d q f e =
    let (differs, later) = find-later (codes "NOLINT") (pre ++ (d ∷ ds)) x (length pre) f in
    let turned : reverse (x ∷ pre) ++ b ≡ reverse pre ++ (x ∷ b) =
      ap (λ (t : Text). t ++ b) (reverse-cons x pre) ∙ append_assoc (reverse pre) (x ∷ []) b in
    let (n, g) =
      search_at_first (x ∷ b) pre ds d q later
        (ap (λ (t : Text). run nolint_re (cursor t (d ∷ ds)) some) (sym turned) ∙ e) in
    (n, rw (not_here b (x ∷ (pre ++ (d ∷ ds))) differs, search_at) g)
