-- ===== src/Lines/RawLengths.antt =====
-- The lengths of what CleanseRawStrings of build_support/cpplint.py finds on a line.
use concurrency_tcp_server.Base.{
  ℕ, ◌+◌, ◌≤◌, ◌<◌, ◌≡◌, refl, sym, ap, ◌∙◌, Bool, true, not, ◌&&◌, some, [], ◌∷◌, Text, codes,
  length, arith, ◌==◌, or_default, is_space,
}
use concurrency_tcp_server.Regex.{
  Regex, char_in, group, star, Cursor, Found, capture, cursor, find_group, match_re, run,
}
use concurrency_tcp_server.Regex.Forms.{any_lit, in_set}
use concurrency_tcp_server.Regex.Groups.{
  match_re-Runs, group_text-other, group_text-last, first_bol, first_group, first_part,
  first_literal, last_eol, find_group-same, captured, length-captured,
}
use concurrency_tcp_server.Lines.RawStrings.{raw_string_re, group_or_empty}

-- Every group but the first.
abbrev not_first : ℕ → Bool
not_first n = not (n == 1)

abbrev prefixes : Regex
prefixes = any_lit (codes "R" ∷ codes "u8R" ∷ codes "uR" ∷ codes "UR" ∷ codes "LR" ∷ [])

abbrev delimiter : Regex
delimiter = group 2 (star (char_in (λ c. not (is_space c) && not (in_set "\\()" c))))

-- The end of a match, with the two places where its first and its third group end.
record RawMatch (line : Text) (z : Cursor) : Type 0 where
  q1 : Cursor
  p3 : Cursor
  q3 : Cursor
  ends : z ≡ capture 3 p3 q3
  first : find_group 1 q3.groups ≡ some (record { start = 0; text = captured (cursor [] line) q1 })
  strict : length q1.before < length p3.before
  third : length p3.before ≤ length q3.before
  within : length q3.before ≤ length line

run-RawMatch :
    (line : Text) (z : Cursor) → run raw_string_re (cursor [] line) some ≡ some z → RawMatch line z
run-RawMatch line z e =
    let (q1, r1, e1) = first_group (λ _. true) refl (first_bol (record { is = e })) in
    let (q2, r2, e2) = first_part not_first refl e1 in
    let (q3, r3, e3) = first_part not_first refl e2 in
    let (c, cs, a, e4) = first_literal e3 in
    let (q5, r5, e5) = first_part not_first refl e4 in
    let (q6, r6, e6) = first_part not_first refl e5 in
    let (q7, r7, e7) = first_group not_first refl e6 in
    record {
      q1 = q1;
      p3 = q6;
      q3 = q7;
      ends = sym (last_eol e7);
      first =
          r7.kept 1 refl
          ∙ r6.kept 1 refl
          ∙ r5.kept 1 refl
          ∙ r3.kept 1 refl
          ∙ r2.kept 1 refl
          ∙ find_group-same 1 _ q1.groups;
      strict = omega (arith, r2.further, r3.further, r5.further, r6.further);
      third = r7.further;
      within =
          omega (arith, r1.total, r2.total, r3.total, ap length a, r5.total, r6.total, r7.total);
    }

-- The text before a raw string and the text behind its opening are shorter together than the line.
pub raw-lengths :
    (line : Text) (m : Found)
    → match_re raw_string_re line ≡ some m
    → length (group_or_empty 1 m) + length (group_or_empty 3 m) < length line
raw-lengths line m e =
    let r = run-RawMatch line m.stop (match_re-Runs raw_string_re line m e).is in
    let one = ap (or_default []) (group_text-other 3 1 r.p3 r.q3 m refl r.ends r.first) in
    let three = ap (or_default []) (group_text-last 3 r.p3 r.q3 m r.ends) in
    let len1 = length-captured (cursor [] line) r.q1 (omega arith) in
    let len3 = length-captured r.p3 r.q3 r.third in
    omega (arith, ap length one, ap length three, len1, len3, r.strict, r.within)
