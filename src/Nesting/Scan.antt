-- ===== src/Nesting/Scan.antt =====
-- build_support/cpplint.py: the loop of NestingState.Update over braces, said as a scan over characters.
use concurrency_tcp_server.Base.{
  ℕ, zero, suc, ◌≤◌, ◌≡◌, ◌⊎◌, refl, sym, ap, ◌∙◌, subst, Bool, true, false, not, none, some, List,
  [], ◌∷◌, ◌++◌, Text, length, all, arith, Option-cases, Bool-cases, inl, inr, length-append,
  append-nil,
}
use concurrency_tcp_server.Regex.{Found, match_re, matches}
use concurrency_tcp_server.Lines.Cleansed.{CleansedLines}
use concurrency_tcp_server.Lines.RawStrings.{group_or_empty}
use concurrency_tcp_server.Nesting.Block.{Block}
use concurrency_tcp_server.Nesting.Braces.{
  Stacked, add_calls, brace_re, brace_token, braces_go, consume_braces,
}
use concurrency_tcp_server.Nesting.Tokens.{
  is_token, not_newline, brace_re-BraceMatch, brace_re-found, all-append,
}

-- The characters of a line in turn; `seg` is what the line held behind the last brace, semicolon or
-- parenthesis.
unfoldable pub scan : Text → CleansedLines → ℕ → Text → Text → List Block → Stacked
scan filename clean linenum seg [] st = (st, [])
scan filename clean linenum seg (c ∷ cs) st = elim (is_token c) [
  | true ↦
      let r = brace_token filename clean linenum (c ∷ []) seg st in
      add_calls r.1 (scan filename clean linenum cs cs r.0)
  | false ↦ scan filename clean linenum seg cs st
]

abbrev no_token : Text → Bool
no_token u = all (λ c. not (is_token c)) u

-- A first such character, if there is one.
pub record FirstToken (line : Text) : Type 0 where
  pub skipped : Text
  pub token : ℕ
  pub rest : Text
  pub line_is : line ≡ skipped ++ (token ∷ rest)
  pub skips : no_token skipped ≡ true
  pub takes : is_token token ≡ true

first_token : (line : Text) → (no_token line ≡ true) ⊎ FirstToken line
first_token [] = inl refl
first_token (c ∷ cs) = elim (Bool-cases (is_token c)) [
  | inl t ↦
      inr (record { skipped = []; token = c; rest = cs; line_is = refl; skips = refl; takes = t })
  | inr f ↦ elim (first_token cs) [
    | inl h ↦ inl (ground (arith, f, h))
    | inr x ↦ inr (record {
      skipped = c ∷ x.skipped;
      token = x.token;
      rest = x.rest;
      line_is = ap (◌∷◌ c) x.line_is;
      skips = ground (arith, f, x.skips);
      takes = x.takes;
    })
  ]
]

module _ (filename : Text) (clean : CleansedLines) (linenum : ℕ) where
  pub scan-skip :
      (seg u v : Text) (st : List Block)
      → no_token u ≡ true
      → scan filename clean linenum seg (u ++ v) st ≡ scan filename clean linenum seg v st
  unfolding scan
  scan-skip seg [] v st h = refl
  scan-skip seg (c ∷ u) v st h =
      let t : is_token c ≡ false = ground (arith, h) in
      rw (t, scan) (scan-skip seg u v st (ground (arith, h)))

  scan-none :
      (seg u : Text) (st : List Block)
      → no_token u ≡ true
      → scan filename clean linenum seg u st ≡ (st, [])
  scan-none seg u st h =
      ap (λ (t : Text). scan filename clean linenum seg t st) (sym (append-nil u))
      ∙ scan-skip seg u [] st h
      ∙ unfold scan in refl

  pub scan-token :
      (seg cs : Text) (c : ℕ) (st : List Block)
      → is_token c ≡ true
      → scan filename clean linenum seg (c ∷ cs) st ≡ (
          let r = brace_token filename clean linenum (c ∷ []) seg st in
          add_calls r.1 (scan filename clean linenum cs cs r.0))
  unfolding scan
  scan-token seg cs c st t = rw (t, scan) refl

  no_match :
      (line : Text)
      → all not_newline line ≡ true
      → match_re brace_re line ≡ none
      → no_token line ≡ true
  no_match line n e = elim (first_token line) [
    | inl h ↦ h
    | inr x ↦
        let (_, n') =
          all-append not_newline x.skipped (x.token ∷ x.rest)
            (subst (λ s. all not_newline s ≡ true) x.line_is n) in
        let found = brace_re-found x.skipped x.token x.rest x.skips x.takes (ground (arith, n')) in
        let there = subst (λ s. matches brace_re s ≡ true) (sym x.line_is) found in
        absurd (unfold matches in cc)
  ]

  braces_go-none :
      (n : ℕ) (line : Text) (st : List Block)
      → match_re brace_re line ≡ none
      → braces_go (suc n) filename clean linenum line st ≡ (st, [])
  unfolding braces_go
  braces_go-none n line st e = rw (e, braces_go) refl

  braces_go-some :
      (n : ℕ) (line : Text) (st : List Block) (m : Found)
      → match_re brace_re line ≡ some m
      → braces_go (suc n) filename clean linenum line st ≡ (
          let r = brace_token filename clean linenum (group_or_empty 1 m) line st in
          add_calls r.1 (braces_go n filename clean linenum (group_or_empty 2 m) r.0))
  unfolding braces_go
  braces_go-some n line st m e = rw (e, braces_go) refl

  pub braces_go-eq :
      (n : ℕ) (line : Text) (st : List Block)
      → length line ≤ n
      → all not_newline line ≡ true
      → braces_go n filename clean linenum line st ≡ scan filename clean linenum line line st
  braces_go-eq zero [] st l h = unfold braces_go scan in refl
  braces_go-eq zero (c ∷ cs) st l h = absurd (omega (arith, l))
  braces_go-eq (suc n) line st l h = elim (Option-cases (match_re brace_re line)) [
    | inl e ↦ braces_go-none n line st e ∙ sym (scan-none line line st (no_match line h e))
    | inr (m, e) ↦
        let b = brace_re-BraceMatch line m h e in
        let (_, h') =
          all-append not_newline b.skipped (b.token ∷ b.rest)
            (subst (λ s. all not_newline s ≡ true) b.line_is h) in
        let shorter : length b.rest ≤ n =
          omega (arith, l, ap length b.line_is, length-append b.skipped (b.token ∷ b.rest)) in
        let r = brace_token filename clean linenum (b.token ∷ []) line st in
        braces_go-some n line st m e
        ∙ rw (b.token_is, b.rest_is)
            (ap (add_calls r.1) (braces_go-eq n b.rest r.0 shorter (ground (arith, h'))))
        ∙ sym (scan-token line b.rest b.token st b.takes)
        ∙ sym (scan-skip line b.skipped (b.token ∷ b.rest) st b.skips)
        ∙ ap (λ (t : Text). scan filename clean linenum line t st) (sym b.line_is)
  ]

-- On a line without a newline, the loop over braces, semicolons and parentheses ends, on any fuel from
-- the length of the line on, and does what the scan of the characters does: the same stack of blocks
-- and the same reports.
pub braces_go-scan :
    (filename : Text) (clean : CleansedLines) (linenum n : ℕ) (line : Text) (st : List Block)
    → length line ≤ n
    → all not_newline line ≡ true
    → (braces_go n filename clean linenum line st ≡ scan filename clean linenum line line st)
      × (consume_braces filename clean linenum line st ≡ scan filename clean linenum line line st)
unfolding consume_braces
braces_go-scan filename clean linenum n line st l h = (
  braces_go-eq filename clean linenum n line st l h,
  braces_go-eq filename clean linenum (length line) line st (omega arith) h,
)
