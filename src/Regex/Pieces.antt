-- ===== src/Regex/Pieces.antt =====
-- What the parts of patterns accept that are made of characters: a repeated set, a literal text, a group.
use concurrency_tcp_server.Base.{
  ℕ, ◌-◌, ◌≡◌, refl, sym, ap, ◌∙◌, subst, Bool, true, [], ◌∷◌, ◌++◌, reverse, append_assoc, Text,
  length, all, arith, ==_iff, ==_refl, length-append, take-length-append,
}
use mathlib.Core.List.{reverse-cons, reverse-reverse}
use concurrency_tcp_server.Regex.{char_in, star, Cursor, advance}
use concurrency_tcp_server.Regex.Forms.{literal}
use concurrency_tcp_server.Regex.Groups.{captured}
use concurrency_tcp_server.Regex.Language.{Iterated, stay, again, Accepts}

-- The place behind a text.
pub passed : Text → Text → Cursor → Cursor
passed [] rest p = record p { after = rest }
passed (c ∷ u) rest p = passed u rest (advance p c [])

pub passed-after : (u rest : Text) (p : Cursor) → (passed u rest p).after ≡ rest
unfolding passed
passed-after [] rest p = refl
passed-after (c ∷ u) rest p = passed-after u rest (advance p c [])

pub passed-groups : (u rest : Text) (p : Cursor) → (passed u rest p).groups ≡ p.groups
unfolding passed
passed-groups [] rest p = refl
passed-groups (c ∷ u) rest p = passed-groups u rest (advance p c [])

pub passed-before : (u rest : Text) (p : Cursor) → (passed u rest p).before ≡ reverse u ++ p.before
unfolding passed
passed-before [] rest p = refl
passed-before (c ∷ u) rest p =
    passed-before u rest (advance p c [])
    ∙ sym (append_assoc (reverse u) (c ∷ []) p.before)
    ∙ ap (λ (t : Text). t ++ p.before) (sym (reverse-cons c u))

-- The text that a group captures over a text is that text.
pub captured-passed : (u rest : Text) (p : Cursor) → captured p (passed u rest p) ≡ u
captured-passed u rest p =
    let n : length (reverse u ++ p.before) - length p.before ≡ length (reverse u) =
      omega (arith, length-append (reverse u) p.before) in
    rw (passed-before u rest p, n, take-length-append (reverse u) p.before) (reverse-reverse u)

pub captured-advance : (c : ℕ) (cs : Text) (p : Cursor) → captured p (advance p c cs) ≡ c ∷ []
unfolding passed
captured-advance c cs p = captured-passed (c ∷ []) cs p

pub passed-nil : (rest : Text) (p : Cursor) → p.after ≡ rest → p ≡ passed [] rest p
unfolding passed
passed-nil rest p e = ap (λ (t : Text). record p { after = t }) e

-- What followed the place before does not matter.
pub passed-again :
    (c : ℕ) (u rest cs : Text) (p : Cursor) → passed u rest (advance p c cs) ≡ passed (c ∷ u) rest p
unfolding passed
passed-again c [] rest cs p = refl
passed-again c (d ∷ u) rest cs p = refl

-- A repeated set of characters.
pub star_chars :
    (f : ℕ → Bool) (u rest : Text) (p : Cursor)
    → all f u ≡ true
    → p.after ≡ u ++ rest
    → Accepts (star (char_in f)) p (passed u rest p)
unfolding Accepts
star_chars f [] rest p h e =
    subst (λ q. Iterated (Accepts (char_in f)) p q) (passed-nil rest p e) stay
star_chars f (c ∷ u) rest p h e =
    let next = advance p c (u ++ rest) in
    again next (c, u ++ rest, e, ground (arith, h), refl) (rw e (omega arith))
      (subst (λ q. Iterated (Accepts (char_in f)) next q) (passed-again c u rest (u ++ rest) p)
        (star_chars f u rest next (ground (arith, h)) refl))

pub record Passes (f : ℕ → Bool) (p q : Cursor) : Type 0 where
  pub text : Text
  pub are : all f text ≡ true
  pub after_is : p.after ≡ text ++ q.after
  pub place_is : q ≡ passed text q.after p

pub star_chars-Passes :
    (f : ℕ → Bool) {p q : Cursor} → Iterated (Accepts (char_in f)) p q → Passes f p q
unfolding Accepts
star_chars-Passes f {p} stay = record {
  text = [];
  are = refl;
  after_is = refl;
  place_is = passed-nil p.after p refl;
}
star_chars-Passes f {p} {q} (again r (c, cs, a, t, e) d i) =
    let rest = star_chars-Passes f i in
    record {
      text = c ∷ rest.text;
      are = ground (arith, t, rest.are);
      after_is = a ∙ ap (◌∷◌ c) (ap (λ (z : Cursor). z.after) e ∙ rest.after_is);
      place_is =
          rest.place_is
          ∙ ap (λ (z : Cursor). passed rest.text q.after z) (sym e)
          ∙ passed-again c rest.text q.after cs p;
    }

pub literal-Accepts :
    (t rest : Text) (p : Cursor) → p.after ≡ t ++ rest → Accepts (literal t) p (passed t rest p)
unfolding Accepts
literal-Accepts [] rest p e = passed-nil rest p e
literal-Accepts (c ∷ t) rest p e = (
  advance p c (t ++ rest),
  (c, t ++ rest, e, ==_refl c, refl),
  subst (λ q. Accepts (literal t) (advance p c (t ++ rest)) q) (passed-again c t rest (t ++ rest) p)
      (literal-Accepts t rest (advance p c (t ++ rest)) refl),
)

-- What a literal leaves of the subject.
pub literal-after : (t : Text) (p q : Cursor) → Accepts (literal t) p q → p.after ≡ t ++ q.after
unfolding Accepts
literal-after [] p q e = ap (λ (z : Cursor). z.after) e
literal-after (c ∷ t) p q (r, (d, ds, a, h, e), x) =
    let same : c ≡ d = (==_iff c d).0 h in
    a
    ∙ ap (λ (u : ℕ). u ∷ ds) (sym same)
    ∙ ap (◌∷◌ c) (ap (λ (z : Cursor). z.after) e ∙ literal-after t r q x)

-- One character more behind a text.
pub passed-snoc :
    (u behind : Text) (d : ℕ) (p : Cursor)
    → passed (u ++ (d ∷ [])) behind p ≡ advance (passed u (d ∷ behind) p) d behind
unfolding passed
passed-snoc [] behind d p = refl
passed-snoc (c ∷ u) behind d p = passed-snoc u behind d (advance p c [])
