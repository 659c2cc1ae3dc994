-- ===== src/Regex/Finding.antt =====
-- Match and Search of build_support/cpplint.py find something exactly if the pattern allows it.
use concurrency_tcp_server.Base.{
  ◌≡◌, ◌↔◌, refl, sym, ap, ◌∙◌, subst, true, Option, none, some, [], ◌∷◌, ◌++◌, reverse,
  append_assoc, append-nil, Text, length, is_some, Option-cases, ℕ, ◌-◌, take, length-take,
  length-reverse, impossible, arith, inl, inr,
}
use mathlib.Core.List.{reverse-cons}
use concurrency_tcp_server.Regex.{
  Regex, Cursor, Found, run, cursor, matches, match_re, at_place, searches, search_re, search_at,
  whole,
}
use concurrency_tcp_server.Regex.Language.{Accepts}
use concurrency_tcp_server.Regex.Groups.{match_re-Runs, some-injective}
use concurrency_tcp_server.Regex.Exact.{run-IsExact}

at_place-is_some : (i : ℕ) (o : Option Cursor) → is_some (at_place i o) ≡ is_some o
at_place-is_some i none = refl
at_place-is_some i (some q) = refl

some_is : (o : Option Cursor) → is_some o ≡ true → (q : Cursor) × (o ≡ some q)
some_is none h = cc
some_is (some q) h = (q, refl)

run-some_iff :
    (r : Regex) (p : Cursor) → (is_some (run r p some) ≡ true) ↔ ((q : Cursor) × Accepts r p q)
run-some_iff r p = (
  λ h.
      let (z, e) = some_is (run r p some) h in
      let (q, a, _) = (run-IsExact r).sound p some z e in (q, a),
  λ h. (run-IsExact r).complete p h.0 some h.1 refl,
)

-- What Match finds is accepted.
pub match_re-Accepts :
    (r : Regex) (s : Text) (m : Found) → match_re r s ≡ some m → Accepts r (cursor [] s) m.stop
match_re-Accepts r s m e =
    let (q, a, g) = (run-IsExact r).sound (cursor [] s) some m.stop (match_re-Runs r s m e).is in
    subst (λ z. Accepts r (cursor [] s) z) (some-injective g) a

at_place-start : (i : ℕ) (o : Option Cursor) (m : Found) → at_place i o ≡ some m → m.start ≡ i
at_place-start i none m e = impossible e
at_place-start i (some q) m e = ap (λ (n : Found). n.start) (sym (some-injective e))

pub match_re-start : (r : Regex) (s : Text) (m : Found) → match_re r s ≡ some m → m.start ≡ 0
unfolding match_re
match_re-start r s m e = at_place-start 0 (run r (cursor [] s) some) m e

-- The text that Match takes ends where the match ends.
pub length-whole :
    (r : Regex) (s : Text) (m : Found)
    → match_re r s ≡ some m
    → length (whole m) ≡ length m.stop.before
length-whole r s m e =
    let zero_at = match_re-start r s m e in
    omega (
      arith,
      length-reverse (take (length m.stop.before - m.start) m.stop.before),
      length-take (length m.stop.before - m.start) m.stop.before (omega arith),
      zero_at,
    )

-- Match(pattern, s) finds something exactly if the pattern accepts some part of s from its beginning on,
-- in the sense of the relation Accepts, for every pattern, also one with lookahead, and every text.
pub matches_iff :
    (r : Regex) (s : Text) → (matches r s ≡ true) ↔ ((q : Cursor) × Accepts r (cursor [] s) q)
unfolding matches match_re
matches_iff r s =
    let e = at_place-is_some 0 (run r (cursor [] s) some) in
    let (to, from) = run-some_iff r (cursor [] s) in (λ h. to (sym e ∙ h), λ h. e ∙ from h)

-- A place in the rest of a text from which the pattern accepts something.
abbrev pub Occurs : Regex → Text → Text → Type 0
Occurs r before s =
    (a : Text) × (b : Text) × (s ≡ a ++ b)
    × ((q : Cursor) × Accepts r (cursor (reverse a ++ before) b) q)

search_at-later :
    (r : Regex) (before : Text) (c : ℕ) (cs : Text)
    → run r (cursor before (c ∷ cs)) some ≡ none
    → search_at r before (c ∷ cs) ≡ search_at r (c ∷ before) cs
unfolding search_at
search_at-later r before c cs e = rw (e, search_at) refl

search_at-here :
    (r : Regex) (before : Text) (c : ℕ) (cs : Text) (q : Cursor)
    → run r (cursor before (c ∷ cs)) some ≡ some q
    → is_some (search_at r before (c ∷ cs)) ≡ true
unfolding search_at
search_at-here r before c cs q e = rw (e, search_at) refl

search_at-Occurs :
    (r : Regex) (before s : Text) → is_some (search_at r before s) ≡ true → Occurs r before s
search_at-Occurs r before [] h =
    unfold search_at in
    (
      [],
      [],
      refl,
      (run-some_iff r (cursor before [])).0
          (sym (at_place-is_some (length before) (run r (cursor before []) some)) ∙ h),
    )
search_at-Occurs r before (c ∷ cs) h = elim (Option-cases (run r (cursor before (c ∷ cs)) some)) [
  | inr (q, e) ↦ ([], c ∷ cs, refl, (run-some_iff r (cursor before (c ∷ cs))).0 (rw e refl))
  | inl e ↦
      let (a, b, f, (q, x)) =
        search_at-Occurs r (c ∷ before) cs
          (sym (ap (λ (m : Option Found). is_some m) (search_at-later r before c cs e)) ∙ h) in
      (
        c ∷ a,
        b,
        ap (◌∷◌ c) f,
        (
          q,
          subst (λ (t : Text). Accepts r (cursor t b) q)
              (sym (
                ap (λ (t : Text). t ++ before) (reverse-cons c a)
                ∙ append_assoc (reverse a) (c ∷ []) before))
              x,
        ),
      )
]

Occurs-search_at :
    (r : Regex) (before a b : Text) (q : Cursor)
    → Accepts r (cursor (reverse a ++ before) b) q
    → is_some (search_at r before (a ++ b)) ≡ true
Occurs-search_at r before [] [] q x =
    unfold search_at in
    at_place-is_some (length before) (run r (cursor before []) some)
    ∙ (run-some_iff r (cursor before [])).1 (q, x)
Occurs-search_at r before [] (c ∷ b) q x =
    let (z, e) =
      some_is (run r (cursor before (c ∷ b)) some)
        ((run-some_iff r (cursor before (c ∷ b))).1 (q, x)) in
    search_at-here r before c b z e
Occurs-search_at r before (c ∷ a) b q x =
    let later = Occurs-search_at r (c ∷ before) a b q (
      subst (λ (t : Text). Accepts r (cursor t b) q)
        (ap (λ (t : Text). t ++ before) (reverse-cons c a)
          ∙ append_assoc (reverse a) (c ∷ []) before)
        x) in
    elim (Option-cases (run r (cursor before (c ∷ a ++ b)) some)) [
      | inr (z, e) ↦ search_at-here r before c (a ++ b) z e
      | inl e ↦ ap (λ (m : Option Found). is_some m) (search_at-later r before c (a ++ b) e) ∙ later
    ]

-- Search(pattern, s) finds something exactly if the pattern accepts, in the sense of the relation
-- Accepts, some part of s from some place of s on, for every pattern and every text.
pub searches_iff :
    (r : Regex) (s : Text)
    → (searches r s ≡ true) ↔ (
        (a : Text) × (b : Text) × (s ≡ a ++ b)
        × ((q : Cursor) × Accepts r (cursor (reverse a) b) q))
unfolding searches search_re
searches_iff r s = (
  λ h.
      let (a, b, e, (q, x)) = search_at-Occurs r [] s h in
      (a, b, e, (q, subst (λ (t : Text). Accepts r (cursor t b) q) (append-nil (reverse a)) x)),
  λ h.
      let (a, b, e, (q, x)) = h in
      ap (λ (t : Text). is_some (search_at r [] t)) e
      ∙ Occurs-search_at r [] a b q
          (subst (λ (t : Text). Accepts r (cursor t b) q) (sym (append-nil (reverse a))) x),
)
