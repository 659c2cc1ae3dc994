-- ===== src/Lines/CollapseTotal.antt =====
-- _CollapseStrings of build_support/cpplint.py returns: each round shortens what is left of the line.
use concurrency_tcp_server.Base.{
  is_some, append-nil, subst, all, replace, ℕ, zero, suc, ◌+◌, ◌≤◌, ◌<◌, ◌≡◌, refl, sym, ap, ◌∙◌,
  Bool, true, not, some, [], ◌∷◌, ◌++◌, Text, codes, length, drop, arith, ◌==◌, or_default, find,
  length-drop, inl, inr, impossible, Bool-cases, Option-cases,
}
use concurrency_tcp_server.Regex.{Found, capture, advance, cursor, match_re, searches, matches, sub}
use concurrency_tcp_server.Regex.Groups.{
  match_re-Runs, group_text-other, group_text-last, captured, first_bol, first_group,
  first_group_char, last_eol, find_group-second, length-captured,
}
use concurrency_tcp_server.Regex.Groups.{some-injective}
use concurrency_tcp_server.Regex.Language.{Accepts}
use concurrency_tcp_server.Regex.Finding.{match_re-Accepts}
use concurrency_tcp_server.Regex.Pieces.{star_chars-Passes, captured-passed}
use concurrency_tcp_server.Regex.Eats.{
  bol-matches, seq-EatsAll, group-Eats, star-Eats_nil, chars-Eats, eol-EatsAll,
}
use concurrency_tcp_server.Lines.RawStrings.{group_or_empty}
use concurrency_tcp_server.Lines.Collapse.{
  include_re, escapes_re, quote_re, number_end_re, digits_re, is_double, Step, collapse_quoted,
  collapse_number, collapse_round, collapse_go, collapse_strings,
}

abbrev not_newline : ℕ → Bool
not_newline c = not (c == b'\n')

abbrev not_first : ℕ → Bool
not_first n = not (n == 1)

-- The text before the first quote and the text behind it are shorter together than the line.
quote-lengths :
    (line : Text) (m : Found)
    → match_re quote_re line ≡ some m
    → length (group_or_empty 1 m) + length (group_or_empty 3 m) < length line
quote-lengths line m e =
    let (q1, r1, e1) = first_group (λ _. true) refl (first_bol (match_re-Runs quote_re line m e)) in
    let (c, cs, a, e2) = first_group_char e1 in
    let p3 =
      capture 2 (capture 1 (cursor [] line) q1) (advance (capture 1 (cursor [] line) q1) c cs) in
    let (q3, r3, e3) = first_group not_first refl e2 in
    let ends = sym (last_eol e3) in
    let first = r3.kept 1 refl ∙ find_group-second 2 1 _ _ q1.groups refl in
    let one = ap (or_default []) (group_text-other 3 1 p3 q3 m refl ends first) in
    let three = ap (or_default []) (group_text-last 3 p3 q3 m ends) in
    let len1 = length-captured (cursor [] line) q1 (omega arith) in
    let len3 = length-captured p3 q3 r3.further in
    omega (
      arith,
      ap length one,
      ap length three,
      len1,
      len3,
      r3.further,
      r1.total,
      ap length a,
      r3.total,
    )

digits-length :
    (line : Text) (m : Found)
    → match_re digits_re line ≡ some m
    → length (group_or_empty 2 m) ≤ length line
digits-length line m e =
    let (q1, r1, e1) =
      first_group (λ _. true) refl (first_bol (match_re-Runs digits_re line m e)) in
    let p2 = capture 1 (cursor [] line) q1 in
    let (q2, r2, e2) = first_group (λ _. true) refl e1 in
    let two = ap (or_default []) (group_text-last 2 p2 q2 m (sym (last_eol e2))) in
    omega (arith, ap length two, length-captured p2 q2 r2.further, r1.total, r2.total)

collapse_quoted-left :
    (quote empty elided head tail left : Text)
    → (collapse_quoted quote empty elided head tail).left ≡ some left
    → length left ≤ length tail
unfolding collapse_quoted
collapse_quoted-left quote empty elided head tail left e = elim (Option-cases (find quote tail)) [
  | inl n ↦ impossible (rw (n, collapse_quoted) at e)
  | inr (k, n) ↦
      let e' : some (drop (k + 1) tail) ≡ some left = cc (rw (n, collapse_quoted) at e) in
      let same : drop (k + 1) tail ≡ left = cc in
      omega (arith, ap length same, length-drop (k + 1) tail)
]

-- The text behind the first quote is on one line, since dots match it.
tail-dots :
    (line : Text) (m : Found)
    → match_re quote_re line ≡ some m
    → all not_newline (group_or_empty 3 m) ≡ true
unfolding Accepts
tail-dots line m e =
    let (_, _, (_, _, (p, _, (_, (q, x, c), (_, stop_is))))) = match_re-Accepts quote_re line m e in
    let tail = star_chars-Passes not_newline x in
    let text_is : group_or_empty 3 m ≡ tail.text =
      ap (or_default []) (group_text-last 3 p q m (sym stop_is ∙ sym c))
      ∙ ap (captured p) tail.place_is
      ∙ captured-passed tail.text q.after p in
    subst (λ (t : Text). all not_newline t ≡ true) (sym text_is) tail.are

-- So what stands behind it, with the quote, is matched by the pattern of numbers.
digits-matches : (u : Text) → all not_newline u ≡ true → matches digits_re u ≡ true
digits-matches u h =
    subst (λ (t : Text). matches digits_re t ≡ true) (append-nil u)
      (bol-matches (
        seq-EatsAll (group-Eats 1 (star-Eats_nil _))
          (seq-EatsAll (group-Eats 2 (chars-Eats not_newline u h)) eol-EatsAll)))

digits-found : (u : Text) → all not_newline u ≡ true → (k : Found) × (match_re digits_re u ≡ some k)
unfolding matches
digits-found u h = elim (Option-cases (match_re digits_re u)) [
  | inl n ↦ absurd (ground (arith, sym (digits-matches u h) ∙ ap is_some n))
  | inr x ↦ x
]

-- A number stands before the quote only if some text does.
number-filled : (head : Text) → searches number_end_re head ≡ true → 0 < length head
unfolding searches
number-filled [] e = cc
number-filled (c ∷ head) e = omega arith

-- A round gives a step, which leaves less of the line.
collapse_round-steps :
    (elided : Text) (m : Found)
    → match_re quote_re elided ≡ some m
    → (step : Step) × (collapse_round elided m ≡ some step)
      × ((left : Text) → step.left ≡ some left → length left < length elided)
unfolding collapse_round collapse_number
collapse_round-steps elided m e =
    let head = group_or_empty 1 m in
    let tail = group_or_empty 3 m in
    let short = quote-lengths elided m e in
    elim (Bool-cases (is_double (group_or_empty 2 m))) [
      | inl d ↦ (
        collapse_quoted (codes "\"") (codes "\"\"") elided head tail,
        rw (d, collapse_round) refl,
        λ left q. omega (
          arith,
          short,
          collapse_quoted-left (codes "\"") (codes "\"\"") elided head tail left q,
        ),
      )
      | inr d ↦ elim (Bool-cases (searches number_end_re head)) [
        | inr n ↦ (
          collapse_quoted (codes "'") (codes "''") elided head tail,
          rw (d, n, collapse_round) refl,
          λ left q.
              omega (
                arith,
                short,
                collapse_quoted-left (codes "'") (codes "''") elided head tail left q,
              ),
        )
        | inl n ↦
            let (k, f) = digits-found (b'\'' ∷ tail) (tail-dots elided m e) in
            (
              record {
                collapsed = head ++ replace (codes "'") [] (group_or_empty 1 k);
                left = some (group_or_empty 2 k);
              },
              rw (d, n, f, collapse_round) refl,
              λ left q. omega (
                arith,
                short,
                number-filled head n,
                digits-length (b'\'' ∷ tail) k f,
                ap length (some-injective q),
              ),
            )
      ]
    ]

collapse_go-total :
    (fuel : ℕ) (collapsed elided : Text)
    → length elided < fuel
    → (r : Text) × (collapse_go fuel collapsed elided ≡ some r)
unfolding collapse_go
collapse_go-total zero collapsed elided h = absurd (omega (arith, h))
collapse_go-total (suc fuel) collapsed elided h = elim (Option-cases (match_re quote_re elided)) [
  | inl n ↦ (collapsed ++ elided, rw (n, collapse_go) refl)
  | inr (m, n) ↦
      let (step, s, short) = collapse_round-steps elided m n in
      elim (Option-cases step.left) [
        | inl k ↦ (collapsed ++ step.collapsed, rw (n, s, k, collapse_go) refl)
        | inr (left, k) ↦
            let (r, e) =
              collapse_go-total fuel (collapsed ++ step.collapsed) left
                (omega (arith, h, short left k)) in
            (r, rw (n, s, k, collapse_go) e)
      ]
]

pub collapse_strings-total : (line : Text) → (r : Text) × (collapse_strings line ≡ some r)
unfolding collapse_strings
collapse_strings-total line = elim (Bool-cases (matches include_re line)) [
  | inl e ↦ (line, rw (e, collapse_strings) refl)
  | inr e ↦
      let plain = sub escapes_re [] line in
      let (r, q) = collapse_go-total (length plain + 1) [] plain (omega arith) in
      (r, rw (e, collapse_strings) q)
]
