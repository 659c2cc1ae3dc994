-- ===== src/Regex/Language.antt =====
-- What the patterns of Python's `re` match, said without a search: the relation between the place where
-- a match begins and a place where it may end.
use concurrency_tcp_server.Base.{ℕ, ◌<◌, ◌≡◌, ◌⊎◌, true, ◌∷◌, Text, length}
use concurrency_tcp_server.Regex.{
  Regex, eps, bol, eol, word_boundary, char_in, seq, alt, star, lazy_star, group, ahead, not_ahead,
  Cursor, advance, capture, at_start, at_end, at_boundary,
}

-- Any number of steps, each of which takes characters away.
pub data Iterated (R : Cursor → Cursor → Type 0) : Cursor → Cursor → Type 0 where
  stay : {p : Cursor} → Iterated R p p
  again :
      {p r : Cursor} (q : Cursor)
      → R p q
      → length q.after < length p.after
      → Iterated R q r
      → Iterated R p r

-- A match from p may end at q.
unfoldable pub Accepts : Regex → Cursor → Cursor → Type 0
Accepts eps p q = p ≡ q
Accepts bol p q = (at_start p.before ≡ true) × (p ≡ q)
Accepts eol p q = (at_end p.after ≡ true) × (p ≡ q)
Accepts word_boundary p q = (at_boundary p ≡ true) × (p ≡ q)
Accepts (char_in f) p q =
    (c : ℕ) × (cs : Text) × (p.after ≡ c ∷ cs) × (f c ≡ true) × (advance p c cs ≡ q)
Accepts (seq a b) p q = (r : Cursor) × Accepts a p r × Accepts b r q
Accepts (alt a b) p q = Accepts a p q ⊎ Accepts b p q
Accepts (star a) p q = Iterated (Accepts a) p q
Accepts (lazy_star a) p q = Iterated (Accepts a) p q
Accepts (group n a) p q = (r : Cursor) × Accepts a p r × (capture n p r ≡ q)
Accepts (ahead a) p q = ((r : Cursor) × Accepts a p r) × (p ≡ q)
Accepts (not_ahead a) p q = ((r : Cursor) → Accepts a p r → ⊥) × (p ≡ q)
