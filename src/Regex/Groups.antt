-- ===== src/Regex/Groups.antt =====
-- How long the texts are that the groups of a match capture.
use mathlib.Core.Option
use concurrency_tcp_server.Base.{
  ℕ, ◌+◌, ◌-◌, ◌≤◌, ◌≡◌, refl, ap, ◌∙◌, Bool, true, false, Option, none, some, List, [], ◌∷◌,
  reverse, take, Text, length, arith, ◌==◌, length-take, length-reverse,
}
use concurrency_tcp_server.Regex.{
  Regex, eps, seq, group, char_in, bol, eol, at_start, at_end, Cursor, Capture, Found, advance,
  capture, find_group, capture_text, at_place, group_text, match_re, run, cursor,
}
use concurrency_tcp_server.Regex.Laws.{IsMove, groups_ok, run-Moves, consume-eq, guarded-eq}

pub some-injective : {A : Type 0} {a b : A} → some a ≡ some b → a ≡ b
some-injective e = cc

-- From p on to q: the places in between are passed, and a group whose number fails the test has
-- captured the same.
pub record Reaches (ok : ℕ → Bool) (p q : Cursor) : Type 0 where
  pub further : length p.before ≤ length q.before
  pub total : length q.before + length q.after ≡ length p.before + length p.after
  pub kept : (n : ℕ) → ok n ≡ false → find_group n q.groups ≡ find_group n p.groups

find_group-other :
    (ok : ℕ → Bool) (m n : ℕ) (c : Capture) (gs : List (ℕ × Capture))
    → ok m ≡ true
    → ok n ≡ false
    → find_group n ((m, c) ∷ gs) ≡ find_group n gs
unfolding find_group
find_group-other ok m n c gs g h = ground (arith, g, h)

pub find_group-same :
    (n : ℕ) (c : Capture) (gs : List (ℕ × Capture)) → find_group n ((n, c) ∷ gs) ≡ some c
unfolding find_group
find_group-same n c gs = ground arith

pub Reaches-IsMove : (ok : ℕ → Bool) → IsMove ok (Reaches ok)
Reaches-IsMove ok = record {
  stay = λ p. record { further = omega arith; total = refl; kept = λ n h. refl };
  both = λ p q r a b. record {
    further = omega (arith, a.further, b.further);
    total = b.total ∙ a.total;
    kept = λ n h. b.kept n h ∙ a.kept n h;
  };
  step = λ p c cs e. record {
    further = omega arith;
    total = omega (arith, ap length e);
    kept = λ n h. refl;
  };
  close = λ m p q g a. record {
    further = a.further;
    total = a.total;
    kept = λ n h. find_group-other ok m n _ q.groups g h ∙ a.kept n h;
  };
}

-- The text that a group captures.
abbrev pub captured : Cursor → Cursor → Text
captured p q = reverse (take (length q.before - length p.before) q.before)

pub length-captured :
    (p q : Cursor)
    → length p.before ≤ length q.before
    → length (captured p q) + length p.before ≡ length q.before
length-captured p q h =
    let cut = length-take (length q.before - length p.before) q.before (omega arith) in
    omega (arith, length-reverse (take (length q.before - length p.before) q.before), cut, h)

-- A run of a pattern from p ends at z.
pub record Runs (r : Regex) (p z : Cursor) : Type 0 where
  pub is : run r p some ≡ some z

-- One part of a pattern after another, with the test for the groups of the part.
pub first_part :
    (ok : ℕ → Bool) {a b : Regex} {p z : Cursor}
    → groups_ok ok a ≡ true
    → Runs (seq a b) p z
    → (q : Cursor) × Reaches ok p q × Runs b q z
unfolding run
first_part ok {a} {b} {p} {z} g e =
    let (q, h, e') = run-Moves (Reaches-IsMove ok) a g p (λ q. run b q some) z e.is in
    (q, h, record { is = e' })

pub first_group :
    (ok : ℕ → Bool) {n : ℕ} {a b : Regex} {p z : Cursor}
    → groups_ok ok a ≡ true
    → Runs (seq (group n a) b) p z
    → (q : Cursor) × Reaches ok p q × Runs b (capture n p q) z
unfolding run
first_group ok {n} {a} {b} {p} {z} g e =
    let (q, h, e') = run-Moves (Reaches-IsMove ok) a g p (λ q. run b (capture n p q) some) z e.is in
    (q, h, record { is = e' })

pub first_literal :
    {f : ℕ → Bool} {b : Regex} {p z : Cursor}
    → Runs (seq (seq (char_in f) eps) b) p z
    → (c : ℕ) × (cs : Text) × (p.after ≡ c ∷ cs) × Runs b (advance p c cs) z
unfolding run
first_literal {f} {b} {p} {z} e =
    let (c, cs, a, e') = consume-eq f p p.after (λ q. run b q some) z e.is in
    (c, cs, a, record { is = e' })

pub first_bol : {b : Regex} {p z : Cursor} → Runs (seq bol b) p z → Runs b p z
unfolding run
first_bol {b} {p} e = record { is = guarded-eq (at_start p.before) (run b p some) e.is }

pub last_eol : {p z : Cursor} → Runs eol p z → p ≡ z
unfolding run
last_eol {p} e = let e' = guarded-eq (at_end p.after) (some p) e.is in cc

pub match_re-Runs :
    (r : Regex) (s : Text) (m : Found) → match_re r s ≡ some m → Runs r (cursor [] s) m.stop
unfolding match_re
match_re-Runs r s m e = go (run r (cursor [] s) some) refl e
  where
    go :
        (o : Option Cursor)
        → run r (cursor [] s) some ≡ o
        → at_place 0 o ≡ some m
        → Runs r (cursor [] s) m.stop
    go none h q = cc
    go (some z) h q =
        let same : z ≡ m.stop = some-injective (ap (Option.map (λ (n : Found). n.stop)) q) in
        record { is = h ∙ ap some same }

-- The texts of the last group that was captured and of another one, at the end of a match.
pub group_text-last :
    (n : ℕ) (p q : Cursor) (m : Found)
    → m.stop ≡ capture n p q
    → group_text n m ≡ some (captured p q)
unfolding group_text
group_text-last n p q m e =
    ap (λ (z : Cursor). capture_text (find_group n z.groups)) e
    ∙ ap capture_text
        (find_group-same n (record { start = length p.before; text = captured p q }) q.groups)

pub group_text-other :
    (n k : ℕ) (p q : Cursor) (m : Found) {c : Capture}
    → (n == k) ≡ false
    → m.stop ≡ capture n p q
    → find_group k q.groups ≡ some c
    → group_text k m ≡ some c.text
unfolding group_text find_group
group_text-other n k p q m {c} h e f =
    ap (λ (z : Cursor). capture_text (find_group k z.groups)) e ∙ rw (h, f)

pub first_group_char :
    {n : ℕ} {f : ℕ → Bool} {b : Regex} {p z : Cursor}
    → Runs (seq (group n (char_in f)) b) p z
    → (c : ℕ) × (cs : Text) × (p.after ≡ c ∷ cs) × Runs b (capture n p (advance p c cs)) z
unfolding run
first_group_char {n} {f} {b} {p} {z} e =
    let (c, cs, a, e') = consume-eq f p p.after (λ q. run b (capture n p q) some) z e.is in
    (c, cs, a, record { is = e' })

pub find_group-second :
    (n k : ℕ) (c d : Capture) (gs : List (ℕ × Capture))
    → (n == k) ≡ false
    → find_group k ((n, c) ∷ (k, d) ∷ gs) ≡ some d
unfolding find_group
find_group-second n k c d gs h = rw h (find_group-same k d gs)
