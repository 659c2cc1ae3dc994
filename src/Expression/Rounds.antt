-- ===== src/Expression/Rounds.antt =====
-- One round of the search in build_support/cpplint.py, as far as the brackets on the stack go.
use concurrency_tcp_server.Base.{
  ℕ, ◌≡◌, ◌≢◌, refl, sym, ◌∙◌, Bool, true, false, List, [], ◌∷◌, Text, ◌==◌, if◌then◌else◌, arith,
  inl, inr, Bool-cases,
}
use concurrency_tcp_server.Expression.{
  EndResult, gave_up, Round, keep, is_opener, is_closer, drop_angles, unless_empty, pop_angle,
  less_round, close_round, end_round, after_operator,
}
use concurrency_tcp_server.Expression.Grammar.{skeleton, IsRooted}

-- The stack afterwards, which holds the same brackets.
pub record SameBrackets (r : Round) (st : List ℕ) : Type 0 where
  pub next : List ℕ
  pub kept : r ≡ keep next
  pub rooted : IsRooted next
  pub same : skeleton next ≡ skeleton st

pub IsRooted-tail : (x : ℕ) (st : List ℕ) → IsRooted (x ∷ st) → IsRooted st
IsRooted-tail x [] h = tt
IsRooted-tail x (y ∷ st) h = h

pub IsRooted-cons : (x : ℕ) (st : List ℕ) → skeleton st ≢ [] → IsRooted st → IsRooted (x ∷ st)
IsRooted-cons x [] n h = absurd (n refl)
IsRooted-cons x (y ∷ st) n h = h

skeleton_angle : (x : ℕ) (st : List ℕ) → (x == b'<') ≡ true → skeleton (x ∷ st) ≡ skeleton st
skeleton_angle x st h = rw h

unless_empty-SameBrackets :
    (r : EndResult) (st : List ℕ)
    → IsRooted st
    → skeleton st ≢ []
    → SameBrackets (unless_empty r st) st
unless_empty-SameBrackets r [] h n = absurd (n refl)
unless_empty-SameBrackets r (x ∷ st) h n = record {
  next = x ∷ st;
  kept = refl;
  rooted = h;
  same = refl;
}

keep-SameBrackets : (st : List ℕ) → IsRooted st → SameBrackets (keep st) st
keep-SameBrackets st h = record { next = st; kept = refl; rooted = h; same = refl }

SameBrackets-of :
    {r : Round} {st st' : List ℕ}
    → skeleton st ≡ skeleton st'
    → SameBrackets r st
    → SameBrackets r st'
SameBrackets-of e b = record { next = b.next; kept = b.kept; rooted = b.rooted; same = b.same ∙ e }

pop_angle-SameBrackets :
    (r : EndResult) (st : List ℕ)
    → IsRooted st
    → skeleton st ≢ []
    → SameBrackets (pop_angle r st) st
pop_angle-SameBrackets r [] h n = absurd (n refl)
pop_angle-SameBrackets r (x ∷ st) h n = elim (Bool-cases (x == b'<')) [
  | inl e ↦ rw e (
      SameBrackets-of (sym (skeleton_angle x st e)) (
        unless_empty-SameBrackets r st (IsRooted-tail x st h) (λ m. n (skeleton_angle x st e ∙ m))))
  | inr e ↦ record { next = x ∷ st; kept = rw e; rooted = h; same = refl }
]

pub drop_angles-skeleton : (st : List ℕ) → skeleton (drop_angles st) ≡ skeleton st
drop_angles-skeleton [] = refl
drop_angles-skeleton (x ∷ st) = ground (arith, drop_angles-skeleton st)

pub drop_angles-IsRooted : (st : List ℕ) → IsRooted st → IsRooted (drop_angles st)
drop_angles-IsRooted [] h = h
drop_angles-IsRooted (x ∷ st) h = elim (Bool-cases (x == b'<')) [
  | inl e ↦ rw e (drop_angles-IsRooted st (IsRooted-tail x st h))
  | inr e ↦ rw e h
]

if-SameBrackets :
    (b : Bool) (r r' : Round) {st : List ℕ}
    → SameBrackets r st
    → SameBrackets r' st
    → SameBrackets (if b then r else r') st
if-SameBrackets true r r' h k = h
if-SameBrackets false r r' h k = k

module _ {st : List ℕ} (h : IsRooted st) (n : skeleton st ≢ []) where
  less_round-SameBrackets : (before : Text) → SameBrackets (less_round before st) st
  unfolding less_round
  less_round-SameBrackets before =
      if-SameBrackets _ _ _ (pop_angle-SameBrackets gave_up st h n)
        (if-SameBrackets (after_operator before) _ _ (keep-SameBrackets st h) pushed)
    where
      pushed : SameBrackets (keep (b'<' ∷ st)) st
      pushed = record {
        next = b'<' ∷ st;
        kept = refl;
        rooted = IsRooted-cons b'<' st n h;
        same = refl;
      }

  statement-SameBrackets : SameBrackets (unless_empty gave_up (drop_angles st)) st
  statement-SameBrackets = SameBrackets-of (drop_angles-skeleton st) (
      unless_empty-SameBrackets gave_up (drop_angles st) (drop_angles-IsRooted st h)
        (λ m. n (sym (drop_angles-skeleton st) ∙ m)))

  -- A character that is no bracket leaves the brackets on the stack as they are.
  pub end_round-SameBrackets :
      (before : Text) (i c : ℕ)
      → is_opener c ≡ false
      → is_closer c ≡ false
      → SameBrackets (end_round before i c st) st
  unfolding end_round
  end_round-SameBrackets before i c o k =
      rw (o, k)
        (if-SameBrackets (c == b'<') _ _ (less_round-SameBrackets before) (
          if-SameBrackets (c == b'>') _ _
            (if-SameBrackets _ _ _ (keep-SameBrackets st h) (pop_angle-SameBrackets _ st h n))
            (if-SameBrackets (c == b';') _ _ statement-SameBrackets (keep-SameBrackets st h))))

-- An opening bracket goes on the stack.
pub end_round-opener :
    (before : Text) (i c : ℕ) (st : List ℕ)
    → is_opener c ≡ true
    → end_round before i c st ≡ keep (c ∷ st)
unfolding end_round
end_round-opener before i c st h = rw h

-- The stack without its pending `<` begins with its first bracket.
pub drop_angles-cons :
    (st : List ℕ) (o : ℕ) (sk : List ℕ)
    → skeleton st ≡ o ∷ sk
    → (rest : List ℕ) × (drop_angles st ≡ o ∷ rest) × (skeleton rest ≡ sk)
drop_angles-cons [] o sk e = cc
drop_angles-cons (x ∷ st) o sk e = elim (Bool-cases (x == b'<')) [
  | inl a ↦
      let (rest, d, k) = drop_angles-cons st o sk (sym (skeleton_angle x st a) ∙ e) in
      (rest, ground arith, k)
  | inr a ↦ (st, ground arith, ground arith)
]

-- A closing bracket is met by `close_round` on the stack without its pending `<`.
pub end_round-closer :
    (before : Text) (i c : ℕ) (st : List ℕ)
    → is_closer c ≡ true
    → end_round before i c st ≡ close_round i c (drop_angles st)
unfolding end_round
end_round-closer before i c st h = ground arith
