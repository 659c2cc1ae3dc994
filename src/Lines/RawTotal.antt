-- ===== src/Lines/RawTotal.antt =====
-- CleanseRawStrings of build_support/cpplint.py returns: its loops end and no match fails.
use concurrency_tcp_server.Base.{
  ℕ, suc, ◌+◌, ◌≡◌, refl, ap, true, false, Option, none, some, List, [], ◌∷◌, ◌++◌, Text, length,
  drop, arith, is_space, find, inl, inr, Option-cases,
}
use concurrency_tcp_server.Lines.RawStrings.{
  group_or_empty, two_quotes, close_raw, cleanse_line, cleanse_go, cleanse_raw_strings,
}
use concurrency_tcp_server.Lines.RawOpen.{is_visible, open_raw-total}
use concurrency_tcp_server.Lines.RawIndent.{find-visible, leading_space-total}

close_raw-total :
    (x : ℕ) (p line : Text) {stop : ℕ}
    → is_space x ≡ false
    → find (x ∷ p) line ≡ some stop
    → (l : Text) × (close_raw (x ∷ p) line stop ≡ some l)
unfolding close_raw
close_raw-total x p line {stop} v e =
    let (m, f) = leading_space-total line (find-visible x p line v e) in
    (group_or_empty 1 m ++ (two_quotes ++ drop (stop + length (x ∷ p)) line), rw f refl)

cleanse_line-total :
    (d : Option Text) (line : Text)
    → is_visible d ≡ true
    → (r : Text × Option Text) × (cleanse_line d line ≡ some r) × (is_visible r.1 ≡ true)
unfolding cleanse_line
cleanse_line-total none line v = open_raw-total line
cleanse_line-total (some []) line v = cc
cleanse_line-total (some (x ∷ p)) line v = elim (Option-cases (find (x ∷ p) line)) [
  | inl n ↦ ((two_quotes, some (x ∷ p)), rw (n, cleanse_line) refl, v)
  | inr (stop, n) ↦
      let (l, e) = close_raw-total x p line (ground (arith, v)) n in
      let (r, f, w) = open_raw-total l in (r, rw (n, e, cleanse_line) f, w)
]

cleanse_go-total :
    (d : Option Text) (lines : List Text)
    → is_visible d ≡ true
    → (outs : List Text) × (cleanse_go d lines ≡ some outs) × (length outs ≡ length lines)
unfolding cleanse_go
cleanse_go-total d [] v = ([], refl, refl)
cleanse_go-total d (line ∷ lines) v =
    let (r, e, w) = cleanse_line-total d line v in
    let (outs, f, h) = cleanse_go-total r.1 lines w in
    (r.0 ∷ outs, rw (e, f, cleanse_go) refl, ap suc h)

-- For every list of lines: CleanseRawStrings returns, and it returns a line for each line.
pub cleanse_raw_strings-total :
    (lines : List Text)
    → (outs : List Text) × (cleanse_raw_strings lines ≡ some outs) × (length outs ≡ length lines)
unfolding cleanse_raw_strings
cleanse_raw_strings-total lines = cleanse_go-total none lines refl
