-- ===== src/Regex/Eats.antt =====
-- Texts that a pattern accepts wherever they stand, put together part by part.
use concurrency_tcp_server.Base.{
  ℕ, ◌≡◌, refl, sym, ap, ◌∙◌, Bool, true, false, [], ◌∷◌, ◌++◌, reverse, append_assoc, Text, all,
  is_word, inl, inr,
}
use mathlib.Core.List.{reverse-append}
use concurrency_tcp_server.Regex.{
  Regex, bol, eol, word_boundary, char_in, seq, alt, star, group, Cursor, cursor, matches, at_end,
  capture, advance,
}
use concurrency_tcp_server.Regex.Forms.{literal, opt}
use concurrency_tcp_server.Regex.Language.{stay, Accepts}
use concurrency_tcp_server.Regex.Finding.{matches_iff}
use concurrency_tcp_server.Regex.Pieces.{
  passed, passed-after, passed-before, star_chars, literal-Accepts,
}

-- The place behind a text, with any groups.
pub record IsBehind (u rest : Text) (p q : Cursor) : Type 0 where
  pub after_is : q.after ≡ rest
  pub before_is : q.before ≡ reverse u ++ p.before

-- From any place where the text stands the pattern accepts it.
pub record Eats (r : Regex) (u : Text) : Type 0 where
  pub go :
      (p : Cursor) (rest : Text)
      → p.after ≡ u ++ rest
      → (q : Cursor) × Accepts r p q × IsBehind u rest p q

-- The same where the text is all that is left.
pub record EatsAll (r : Regex) (u : Text) : Type 0 where
  pub end : (p : Cursor) → p.after ≡ u → (q : Cursor) × Accepts r p q

passed-IsBehind : (u rest : Text) (p : Cursor) → IsBehind u rest p (passed u rest p)
passed-IsBehind u rest p = record {
  after_is = passed-after u rest p;
  before_is = passed-before u rest p;
}

pub literal-Eats : (u : Text) → Eats (literal u) u
literal-Eats u = record {
  go = λ p rest e. (passed u rest p, literal-Accepts u rest p e, passed-IsBehind u rest p);
}

pub chars-Eats : (f : ℕ → Bool) (u : Text) → all f u ≡ true → Eats (star (char_in f)) u
chars-Eats f u h = record {
  go = λ p rest e. (passed u rest p, star_chars f u rest p h e, passed-IsBehind u rest p);
}

pub char-Eats : (f : ℕ → Bool) (c : ℕ) → f c ≡ true → Eats (char_in f) (c ∷ [])
unfolding Accepts
char-Eats f c h = record {
  go = λ p rest e.
      (advance p c rest, (c, rest, e, h, refl), record { after_is = refl; before_is = refl });
}

-- A repeated part may be left out.
pub star-Eats_nil : (r : Regex) → Eats (star r) []
unfolding Accepts
star-Eats_nil r = record { go = λ p rest e. (p, stay, record { after_is = e; before_is = refl }) }

pub opt-Eats_nil : (r : Regex) → Eats (opt r) []
unfolding Accepts
opt-Eats_nil r = record {
  go = λ p rest e. (p, inr refl, record { after_is = e; before_is = refl });
}

pub left-Eats : {a b : Regex} {u : Text} → Eats a u → Eats (alt a b) u
unfolding Accepts
left-Eats x = record { go = λ p rest e. let (q, h, i) = x.go p rest e in (q, inl h, i) }

pub right-Eats : {a b : Regex} {u : Text} → Eats b u → Eats (alt a b) u
unfolding Accepts
right-Eats x = record { go = λ p rest e. let (q, h, i) = x.go p rest e in (q, inr h, i) }

pub group-Eats : {a : Regex} {u : Text} (n : ℕ) → Eats a u → Eats (group n a) u
unfolding Accepts
group-Eats n x = record {
  go = λ p rest e.
      let (q, h, i) = x.go p rest e in
      (capture n p q, (q, h, refl), record { after_is = i.after_is; before_is = i.before_is });
}

pub seq-Eats : {a b : Regex} {u v : Text} → Eats a u → Eats b v → Eats (seq a b) (u ++ v)
unfolding Accepts
seq-Eats {a} {b} {u} {v} x y = record {
  go = λ p rest e.
      let (q, h, i) = x.go p (v ++ rest) (e ∙ append_assoc u v rest) in
      let (r, k, j) = y.go q rest i.after_is in
      (
        r,
        (q, h, k),
        record {
          after_is = j.after_is;
          before_is =
              j.before_is
              ∙ ap (λ (t : Text). reverse v ++ t) i.before_is
              ∙ sym (append_assoc (reverse v) (reverse u) p.before)
              ∙ ap (λ (t : Text). t ++ p.before) (sym (reverse-append u v));
        },
      );
}

pub seq-EatsAll : {a b : Regex} {u v : Text} → Eats a u → EatsAll b v → EatsAll (seq a b) (u ++ v)
unfolding Accepts
seq-EatsAll {a} {b} {u} {v} x y = record {
  end = λ p e. let (q, h, i) = x.go p v e in let (r, k) = y.end q i.after_is in (r, (q, h, k));
}

pub eol-EatsAll : EatsAll eol []
unfolding Accepts
eol-EatsAll = record { end = λ p e. (p, (ap at_end e, refl)) }

pub bol-matches : {a : Regex} {u : Text} → EatsAll a u → matches (seq bol a) u ≡ true
unfolding Accepts
bol-matches {a} {u} x =
    let (q, h) = x.end (cursor [] u) refl in
    (matches_iff (seq bol a) u).1 (q, (cursor [] u, (refl, refl), h))

-- A word that stands behind one character of a repeated set, which is no word character.
pub word_start-EatsAll :
    {b : Regex} {v : Text} (f : ℕ → Bool) (c d : ℕ)
    → f c ≡ true
    → is_word c ≡ false
    → is_word d ≡ true
    → EatsAll b (d ∷ v)
    → EatsAll (seq (star (char_in f)) (seq word_boundary b)) (c ∷ d ∷ v)
unfolding Accepts
word_start-EatsAll {b} {v} f c d h n w x = record {
  end = λ p e.
      let (q, a, i) = (chars-Eats f (c ∷ []) (rw h refl)).go p (d ∷ v) e in
      let (r, k) = x.end q i.after_is in
      (r, (q, a, (q, (rw (i.before_is, i.after_is, n, w) refl, refl), k)));
}
