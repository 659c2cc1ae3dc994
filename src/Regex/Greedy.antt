-- ===== src/Regex/Greedy.antt =====
-- What the matcher of patterns takes where a repeated set of characters is stopped by another character.
use concurrency_tcp_server.Base.{
  ℕ, zero, suc, ◌≤◌, ◌≡◌, refl, ap, ◌∙◌, Bool, true, false, Option, some, List, [], ◌∷◌, ◌++◌, Text,
  all, arith, length,
}
use concurrency_tcp_server.Regex.{Cursor, Capture, char_in, repeat, run, progressed}
use concurrency_tcp_server.Regex.Pieces.{passed, passed-nil, passed-again}

abbrev pub place : Text → Text → List (ℕ × Capture) → Cursor
place b a gs = record { before = b; after = a; groups = gs }

-- A greedy repetition of a set takes all the characters up to one that is not in it, if the rest of the
-- pattern matches from there.
pub repeat_chars :
    (f : ℕ → Bool) (u behind : Text) (d n : ℕ) (b : Text) (gs : List (ℕ × Capture))
    (k : Cursor → Option Cursor) (z : Cursor)
    → length u ≤ n
    → all f u ≡ true
    → f d ≡ false
    → k (passed u (d ∷ behind) (place b (u ++ (d ∷ behind)) gs)) ≡ some z
    → repeat (run (char_in f)) n (place b (u ++ (d ∷ behind)) gs) k ≡ some z
unfolding repeat run
repeat_chars f [] behind d zero b gs k z l h g x =
    ap k (passed-nil (d ∷ behind) (place b (d ∷ behind) gs) refl) ∙ x
repeat_chars f [] behind d (suc n) b gs k z l h g x =
    rw (g, repeat) (ap k (passed-nil (d ∷ behind) (place b (d ∷ behind) gs) refl) ∙ x)
repeat_chars f (c ∷ u) behind d zero b gs k z l h g x = absurd (omega (arith, l))
repeat_chars f (c ∷ u) behind d (suc n) b gs k z l h g x =
    let rest = u ++ (d ∷ behind) in
    let here = place b (c ∷ rest) gs in
    let next = place (c ∷ b) rest gs in
    let c_in : f c ≡ true = ground (arith, h) in
    let moved : progressed here next ≡ true = ground arith in
    let further =
      repeat_chars f u behind d n (c ∷ b) gs k z (omega (arith, l)) (ground (arith, h)) g
        (ap k (passed-again c u (d ∷ behind) rest here) ∙ x) in
    rw (c_in, moved, further, repeat) refl
