-- ===== src/Nesting/Tokens.antt =====
-- build_support/cpplint.py: what the pattern for braces in NestingState.Update finds on a line.
use concurrency_tcp_server.Base.{
  ℕ, ◌≡◌, refl, sym, ap, ◌∙◌, subst, Bool, true, not, some, [], ◌∷◌, ◌++◌, Text, length, all, arith,
  ◌==◌, or_default, append-nil,
}
use concurrency_tcp_server.Regex.{
  Found, match_re, matches, cursor, Cursor, find_group, advance, capture, at_end,
}
use concurrency_tcp_server.Regex.Forms.{in_set}
use concurrency_tcp_server.Regex.Groups.{
  captured, group_text-last, group_text-other, find_group-same,
}
use concurrency_tcp_server.Regex.Language.{Accepts}
use concurrency_tcp_server.Regex.Finding.{match_re-Accepts, matches_iff}
use concurrency_tcp_server.Regex.Pieces.{
  passed, star_chars, star_chars-Passes, captured-passed, captured-advance, passed-groups,
  passed-after,
}
use concurrency_tcp_server.Lines.RawStrings.{group_or_empty}
use concurrency_tcp_server.Nesting.Braces.{brace_re}

abbrev pub is_token : ℕ → Bool
is_token c = in_set "{;)}" c

abbrev pub not_newline : ℕ → Bool
not_newline c = not (c == b'\n')

-- What a match of the pattern says of the line.
pub record BraceMatch (line : Text) (m : Found) : Type 0 where
  pub skipped : Text
  pub token : ℕ
  pub rest : Text
  pub line_is : line ≡ skipped ++ (token ∷ rest)
  pub skips : all (λ c. not (is_token c)) skipped ≡ true
  pub takes : is_token token ≡ true
  pub token_is : group_or_empty 1 m ≡ token ∷ []
  pub rest_is : group_or_empty 2 m ≡ rest

pub all-append :
    (f : ℕ → Bool) (u v : Text) → all f (u ++ v) ≡ true → (all f u ≡ true) × (all f v ≡ true)
all-append f [] v h = (refl, h)
all-append f (c ∷ u) v h =
    let (a, b) = all-append f u v (ground (arith, h)) in ground (arith, h, a, b)

-- Where a line has no newline, its end is where nothing follows.
at_end-nil : (s : Text) → all not_newline s ≡ true → at_end s ≡ true → s ≡ []
at_end-nil [] h e = refl
at_end-nil (c ∷ []) h e = ground (arith, h, e)
at_end-nil (c ∷ d ∷ s) h e = cc

pub brace_re-BraceMatch :
    (line : Text) (m : Found)
    → all not_newline line ≡ true
    → match_re brace_re line ≡ some m
    → BraceMatch line m
unfolding Accepts
brace_re-BraceMatch line m n e =
    let (r0, (_, e0), (r1, i, (r2, (r', (c, cs, a, t, e1), e2), (r3, (r4, j, e3), (f, e4))))) =
      match_re-Accepts brace_re line m e in
    let A = star_chars-Passes (λ c. not (is_token c)) i in
    let B = star_chars-Passes not_newline j in
    let line_is : line ≡ A.text ++ (c ∷ cs) =
      ap (λ (z : Cursor). z.after) e0 ∙ A.after_is ∙ ap (λ (s : Text). A.text ++ s) a in
    let cs_is : cs ≡ B.text ++ r4.after =
      ap (λ (z : Cursor). z.after) e1 ∙ ap (λ (z : Cursor). z.after) e2 ∙ B.after_is in
    let n_cs =
      (all-append not_newline A.text (c ∷ cs)
        (subst (λ s. all not_newline s ≡ true) line_is n)).1 in
    let end : r4.after ≡ [] =
      at_end-nil r4.after
        (all-append not_newline B.text r4.after
          (subst (λ s. all not_newline s ≡ true) cs_is (ground (arith, n_cs)))).1
        (subst (λ (z : Cursor). at_end z.after ≡ true) (sym e3) f) in
    let tail : B.text ≡ cs =
      sym (append-nil B.text) ∙ ap (λ (s : Text). B.text ++ s) (sym end) ∙ sym cs_is in
    let stop_is : m.stop ≡ capture 2 r2 r4 = sym e4 ∙ sym e3 in
    let second : captured r2 r4 ≡ cs =
      ap (λ z. captured r2 z) B.place_is ∙ captured-passed B.text r4.after r2 ∙ tail in
    let groups_is : r4.groups ≡ r2.groups =
      ap (λ (z : Cursor). z.groups) B.place_is ∙ passed-groups B.text r4.after r2 in
    let first : captured r1 r' ≡ c ∷ [] =
      ap (λ z. captured r1 z) (sym e1) ∙ captured-advance c cs r1 in
    record {
      skipped = A.text;
      token = c;
      rest = cs;
      line_is = line_is;
      skips = A.are;
      takes = t;
      token_is =
          ap (or_default []) (
            group_text-other 2 1 r2 r4 m refl stop_is (
              ap (find_group 1) (groups_is ∙ ap (λ (z : Cursor). z.groups) (sym e2))
              ∙ find_group-same 1 (record { start = length r1.before; text = captured r1 r' })
                  r'.groups))
          ∙ first;
      rest_is = ap (or_default []) (group_text-last 2 r2 r4 m stop_is) ∙ second;
    }

-- A line with such a character is matched.
pub brace_re-found :
    (skipped : Text) (token : ℕ) (rest : Text)
    → all (λ c. not (is_token c)) skipped ≡ true
    → is_token token ≡ true
    → all not_newline rest ≡ true
    → matches brace_re (skipped ++ (token ∷ rest)) ≡ true
unfolding Accepts
brace_re-found skipped token rest s t n =
    let p = cursor [] (skipped ++ (token ∷ rest)) in
    let p1 = passed skipped (token ∷ rest) p in
    let p2 = capture 1 p1 (advance p1 token rest) in
    let p3 = capture 2 p2 (passed rest [] p2) in
    (matches_iff brace_re (skipped ++ (token ∷ rest))).1 (
      p3,
      (
        p,
        (refl, refl),
        (
          p1,
          star_chars (λ c. not (is_token c)) skipped (token ∷ rest) p s refl,
          (
            p2,
            (
              advance p1 token rest,
              (token, rest, passed-after skipped (token ∷ rest) p, t, refl),
              refl,
            ),
            (
              p3,
              (
                passed rest [] p2,
                star_chars not_newline rest [] p2 n (sym (append-nil rest)),
                refl,
              ),
              (ap at_end (passed-after rest [] p2), refl),
            ),
          ),
        ),
      ),
    )
