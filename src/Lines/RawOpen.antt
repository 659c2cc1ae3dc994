-- ===== src/Lines/RawOpen.antt =====
-- The search for the beginning of raw strings on a line (build_support/cpplint.py, CleanseRawStrings) ends.
use concurrency_tcp_server.Base.{
  ℕ, zero, suc, ◌+◌, ◌≤◌, ◌<◌, ◌≡◌, refl, ap, Bool, true, false, not, Option, none, some, [], ◌∷◌,
  ◌++◌, Text, codes, length, drop, arith, is_space, starts_with, find, length-append, length-drop,
  inl, inr, impossible, Bool-cases, Option-cases,
}
use concurrency_tcp_server.Regex.{Found, match_re, matches}
use concurrency_tcp_server.Lines.RawStrings.{
  raw_string_re, comment_prefix_re, group_or_empty, two_quotes, Opening, opening_of, find_opening,
  open_go, open_raw,
}
use concurrency_tcp_server.Lines.RawLengths.{raw-lengths}

starts_with-length : (p s : Text) → starts_with p s ≡ true → length p ≤ length s
unfolding starts_with
starts_with-length [] s e = omega arith
starts_with-length (x ∷ p) [] e = cc
starts_with-length (x ∷ p) (c ∷ s) e = ground (arith, e, starts_with-length p s)

find-length : (p s : Text) {i : ℕ} → find p s ≡ some i → i + length p ≤ length s
unfolding find
find-length p [] {i} e = elim (Bool-cases (starts_with p [])) [
  | inr h ↦ cc (rw h at e)
  | inl h ↦
      let e' : some 0 ≡ some i = cc (rw h at e) in
      let z : 0 ≡ i = cc in omega (arith, z, starts_with-length p [] h)
]
find-length p (c ∷ s) {i} e = elim (Bool-cases (starts_with p (c ∷ s))) [
  | inl h ↦
      let e' : some 0 ≡ some i = cc (rw h at e) in
      let z : 0 ≡ i = cc in omega (arith, z, starts_with-length p (c ∷ s) h)
  | inr h ↦ elim (Option-cases (find p s)) [
    | inl n ↦ cc (rw (h, n) at e)
    | inr (j, n) ↦
        let e' : some (suc j) ≡ some i = cc (rw (h, n) at e) in
        let z : suc j ≡ i = cc in omega (arith, z, find-length p s n)
  ]
]

-- A delimiter that begins with a character that is not whitespace.
abbrev pub is_visible : Option Text → Bool
is_visible none = true
is_visible (some []) = false
is_visible (some (c ∷ _)) = not (is_space c)

-- The opening of a raw string takes a character of the line at least, and its delimiter has two.
opening_of-lengths :
    (m : Found) (o : Opening)
    → opening_of m ≡ some o
    → (length o.prefix + length o.tail ≡ length (group_or_empty 1 m) + length (group_or_empty 3 m))
      × (2 ≤ length o.delimiter)
      × (is_visible (some o.delimiter) ≡ true)
unfolding opening_of is_space
opening_of-lengths m o e = elim (Bool-cases (matches comment_prefix_re (group_or_empty 1 m))) [
  | inl h ↦ impossible (rw h at e)
  | inr h ↦
      let same : o ≡ record {
        prefix = group_or_empty 1 m;
        delimiter = codes ")" ++ (group_or_empty 2 m ++ codes "\"");
        tail = group_or_empty 3 m;
      } =
        cc (rw h at e) in
      let long = length-append (group_or_empty 2 m) (codes "\"") in
      (
        ap (λ (x : Opening). length x.prefix + length x.tail) same,
        omega (arith, ap (λ (x : Opening). length x.delimiter) same, long),
        ap (λ (x : Opening). is_visible (some x.delimiter)) same,
      )
]

find_opening-lengths :
    (line : Text) (o : Opening)
    → find_opening line ≡ some o
    → (length o.prefix + length o.tail < length line)
      × (2 ≤ length o.delimiter)
      × (is_visible (some o.delimiter) ≡ true)
unfolding find_opening
find_opening-lengths line o e = elim (Option-cases (match_re raw_string_re line)) [
  | inl h ↦ impossible (rw (h, find_opening) at e)
  | inr (m, h) ↦
      let (a, b, v) = opening_of-lengths m o (rw (h, find_opening) at e) in
      (omega (arith, a, raw-lengths line m h), b, v)
]

open_go-total :
    (fuel : ℕ) (line : Text)
    → length line < fuel
    → (r : Text × Option Text) × (open_go fuel line ≡ some r) × (is_visible r.1 ≡ true)
unfolding open_go
open_go-total zero line h = absurd (omega (arith, h))
open_go-total (suc fuel) line h = elim (Option-cases (find_opening line)) [
  | inl n ↦ ((line, none), rw (n, open_go), refl)
  | inr (o, n) ↦ elim (Option-cases (find o.delimiter o.tail)) [
    | inl d ↦ (
      (o.prefix ++ two_quotes, some o.delimiter),
      rw (n, d, open_go),
      (find_opening-lengths line o n).2,
    )
    | inr (stop, d) ↦
        let (a, b, _) = find_opening-lengths line o n in
        let rest = drop (stop + length o.delimiter) o.tail in
        let within = find-length o.delimiter o.tail d in
        let cut = length-drop (stop + length o.delimiter) o.tail in
        let long = length-append o.prefix (two_quotes ++ rest) in
        let (r, q, v) =
          open_go-total fuel (o.prefix ++ (two_quotes ++ rest))
            (omega (arith, h, a, b, within, cut, long)) in
        (r, rw (n, d, open_go) q, v)
  ]
]

pub open_raw-total :
    (line : Text) → (r : Text × Option Text) × (open_raw line ≡ some r) × (is_visible r.1 ≡ true)
unfolding open_raw
open_raw-total line = open_go-total (length line + 1) line (omega arith)
