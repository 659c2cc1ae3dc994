-- ===== src/Regex/Suffix.antt =====
-- What the search for a pattern finds, and what a pattern of literals at the end of a text captures.
use concurrency_tcp_server.Base.{
  ℕ, ◌≡◌, refl, sym, ap, ◌∙◌, subst, some, [], ◌∷◌, ◌++◌, Text, length, reverse, append_assoc,
  ==_iff, Option-cases, inl, inr, impossible,
}
use mathlib.Core.List.{reverse-cons}
use concurrency_tcp_server.Regex.{Regex, Cursor, Found, cursor, run, search_at, search_re}
use concurrency_tcp_server.Regex.Forms.{literal}
use concurrency_tcp_server.Regex.Language.{Accepts}
use concurrency_tcp_server.Regex.Exact.{run-IsExact}
use concurrency_tcp_server.Regex.Groups.{some-injective}
use concurrency_tcp_server.Regex.Pieces.{passed, passed-nil, passed-again}

-- What a search finds is accepted at a place of the text.
pub record IsFoundIn (r : Regex) (b s : Text) (m : Found) : Type 0 where
  pub ahead_of : Text
  pub from_there : Text
  pub split_at : s ≡ ahead_of ++ from_there
  pub accepts : Accepts r (cursor (reverse ahead_of ++ b) from_there) m.stop

run-IsFoundIn :
    (r : Regex) (b s : Text) (n : ℕ) (q : Cursor) (m : Found)
    → run r (cursor b s) some ≡ some q
    → record { start = n; stop = q } ≡ m
    → IsFoundIn r b s m
run-IsFoundIn r b s n q m e f =
    let (z, a, g) = (run-IsExact r).sound (cursor b s) some q e in
    record {
      ahead_of = [];
      from_there = s;
      split_at = refl;
      accepts =
          subst (λ (c : Cursor). Accepts r (cursor b s) c)
            (some-injective g ∙ ap (λ (k : Found). k.stop) f) a;
    }

search_at-IsFoundIn :
    (r : Regex) (b s : Text) (m : Found) → search_at r b s ≡ some m → IsFoundIn r b s m
unfolding search_at
search_at-IsFoundIn r b [] m e = elim (Option-cases (run r (cursor b []) some)) [
  | inl n ↦ impossible (rw (n, search_at) at e)
  | inr (q, n) ↦ run-IsFoundIn r b [] (length b) q m n (some-injective (rw (n, search_at) at e))
]
search_at-IsFoundIn r b (c ∷ s) m e = elim (Option-cases (run r (cursor b (c ∷ s)) some)) [
  | inr (q, n) ↦
      run-IsFoundIn r b (c ∷ s) (length b) q m n (some-injective (rw (n, search_at) at e))
  | inl n ↦
      let further = search_at-IsFoundIn r (c ∷ b) s m (rw (n, search_at) at e) in
      record {
        ahead_of = c ∷ further.ahead_of;
        from_there = further.from_there;
        split_at = ap (λ (t : Text). c ∷ t) further.split_at;
        accepts =
            subst (λ (t : Text). Accepts r (cursor t further.from_there) m.stop)
              (sym (
                ap (λ (t : Text). t ++ b) (reverse-cons c further.ahead_of)
                ∙ append_assoc (reverse further.ahead_of) (c ∷ []) b))
              further.accepts;
      }
]

pub search_re-IsFoundIn :
    (r : Regex) (s : Text) (m : Found) → search_re r s ≡ some m → IsFoundIn r [] s m
unfolding search_re
search_re-IsFoundIn r s m e = search_at-IsFoundIn r [] s m e

-- The place behind a literal.
pub literal-passed : (t : Text) (p q : Cursor) → Accepts (literal t) p q → q ≡ passed t q.after p
unfolding Accepts
literal-passed [] p q e =
    sym e ∙ passed-nil p.after p refl ∙ ap (λ (c : Cursor). passed [] c.after p) e
literal-passed (x ∷ t) p q (r, (d, ds, a, h, e), l) =
    let same : x ≡ d = (==_iff x d).0 h in
    literal-passed t r q l
    ∙ ap (λ (c : Cursor). passed t q.after c) (sym e)
    ∙ passed-again d t q.after ds p
    ∙ ap (λ (y : ℕ). passed (y ∷ t) q.after p) (sym same)
