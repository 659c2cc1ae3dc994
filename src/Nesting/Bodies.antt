-- ===== src/Nesting/Bodies.antt =====
-- build_support/cpplint.py: NestingState.Update over the lines of a body, in which braces are matched.
use concurrency_tcp_server.Base.{
  drop, ℕ, zero, suc, ◌≡◌, refl, sym, ap, ◌∙◌, subst, Bool, true, false, ◌&&◌, Option, none, some,
  List, [], ◌∷◌, map, Text, arith, Bool-cases, inl, inr, if◌then◌else◌, ◌==◌, impossible, text_eq,
}
use concurrency_tcp_server.Regex.Groups.{some-injective}
use concurrency_tcp_server.Lines.Cleansed.{CleansedLines}
use concurrency_tcp_server.Lint.Report.{Report}
use concurrency_tcp_server.Nesting.Block.{Block, no_asm, plain_block, extern_c}
use concurrency_tcp_server.Nesting.Ends.{check_end}
use concurrency_tcp_server.Nesting.Braces.{
  Stacked, add_calls, brace_token, open_brace, end_of_head, close_brace, opened_block,
}
use concurrency_tcp_server.Nesting.Tokens.{is_token}
use concurrency_tcp_server.Nesting.Scan.{scan, scan-token, scan-skip}

-- What a block is, without its parentheses and its inline assembly.
abbrev pub shape : Block → Block
shape b = record b { parens_opened = 0; parens_closed = 0; inline_asm = no_asm }

-- The top block, if there is one, has its brace.
abbrev pub is_complete : List Block → Bool
is_complete [] = true
is_complete (b ∷ _) = b.seen_open_brace

-- A block of braces only, also extern "C".
abbrev pub is_braces : Block → Bool
is_braces b = elim b.kind [ plain_block ↦ true | extern_c ↦ true | _ ↦ false ]

-- d blocks of braces stand on the blocks of st; below the top of st the blocks are the very same.
abbrev pub IsAbove : ℕ → List Block → List Block → Type 0
IsAbove zero st full = (map shape full ≡ map shape st) × (drop 1 full ≡ drop 1 st)
IsAbove (suc d) st full =
    (b : Block) × (bs : List Block) × (full ≡ b ∷ bs)
    × ((b.seen_open_brace && is_braces b) ≡ true)
    × IsAbove d st bs

-- The number of open braces behind a character, and behind a text; none if one is closed too many.
abbrev pub step_depth : ℕ → ℕ → Option ℕ
step_depth d c =
    if c == b'{'
    then some (suc d)
    else if c == b'}'
    then elim d [ zero ↦ none | suc e ↦ some e ]
    else some d

unfoldable pub depth : ℕ → Text → Option ℕ
depth d [] = some d
depth d (c ∷ cs) = elim (step_depth d c) [ none ↦ none | some e ↦ depth e cs ]

check_end-braces :
    (filename : Text) (clean : CleansedLines) (linenum : ℕ) (b : Block)
    → is_braces b ≡ true
    → check_end filename clean linenum b ≡ []
unfolding check_end
check_end-braces filename clean linenum b h = ground (arith, h)

opened_block-braces :
    (linenum : ℕ) (line : Text)
    → ((opened_block linenum line).seen_open_brace && is_braces (opened_block linenum line)) ≡ true
unfolding opened_block
opened_block-braces linenum line = ground arith

pub IsAbove-complete :
    (d : ℕ) (st full : List Block)
    → is_complete st ≡ true
    → IsAbove d st full
    → is_complete full ≡ true
IsAbove-complete zero [] [] c a = refl
IsAbove-complete zero [] (b ∷ bs) c (a, _) = cc
IsAbove-complete zero (x ∷ st) [] c (a, _) = cc
IsAbove-complete zero (x ∷ st) (b ∷ bs) c (a, _) = ap is_complete a ∙ c
IsAbove-complete (suc d) st full c (b, bs, e, s, a) = rw e (ground (arith, s))

open_brace_complete :
    (linenum : ℕ) (seg : Text) (full : List Block)
    → is_complete full ≡ true
    → open_brace linenum seg full ≡ opened_block linenum seg ∷ full
unfolding open_brace
open_brace_complete linenum seg [] c = refl
open_brace_complete linenum seg (b ∷ bs) c = rw c refl

end_of_head_complete : (full : List Block) → is_complete full ≡ true → end_of_head full ≡ full
unfolding end_of_head
end_of_head_complete [] c = refl
end_of_head_complete (b ∷ bs) c = rw c refl

-- The four kinds of characters.
data CharKind (c : ℕ) : Type 0 where
  opens : (c == b'{') ≡ true → CharKind c
  shuts : (c == b'{') ≡ false → (c == b'}') ≡ true → CharKind c
  ends_head : (c == b'{') ≡ false → (c == b'}') ≡ false → is_token c ≡ true → CharKind c
  plain : (c == b'{') ≡ false → (c == b'}') ≡ false → is_token c ≡ false → CharKind c

char_kind : (c : ℕ) → CharKind c
char_kind c = elim (Bool-cases (c == b'{')) [
  | inl e ↦ opens e
  | inr e ↦ elim (Bool-cases (c == b'}')) [
    | inl f ↦ shuts e f
    | inr f ↦ elim (Bool-cases (is_token c)) [ inl t ↦ ends_head e f t | inr t ↦ plain e f t ]
  ]
]

depth-same :
    (d c : ℕ) (t : Text) → (c == b'{') ≡ false → (c == b'}') ≡ false → depth d (c ∷ t) ≡ depth d t
unfolding depth
depth-same d c t o s = rw (o, s, depth) refl

depth-opens : (d c : ℕ) (t : Text) → (c == b'{') ≡ true → depth d (c ∷ t) ≡ depth (suc d) t
unfolding depth
depth-opens d c t o = rw (o, depth) refl

depth-shuts :
    (d c : ℕ) (t : Text)
    → (c == b'{') ≡ false
    → (c == b'}') ≡ true
    → depth (suc d) (c ∷ t) ≡ depth d t
unfolding depth
depth-shuts d c t o s = rw (o, s, depth) refl

depth-none : (c : ℕ) (t : Text) → (c == b'{') ≡ false → (c == b'}') ≡ true → depth 0 (c ∷ t) ≡ none
unfolding depth
depth-none c t o s = rw (o, s, depth) refl

module _ (filename : Text) (clean : CleansedLines) (linenum : ℕ) where
  token_opens :
      (c : ℕ) (seg : Text) (full : List Block)
      → (c == b'{') ≡ true
      → brace_token filename clean linenum (c ∷ []) seg full ≡ (open_brace linenum seg full, [])
  unfolding brace_token text_eq
  token_opens c seg full e = rw e refl

  token_shuts :
      (c : ℕ) (seg : Text) (full : List Block)
      → (c == b'{') ≡ false
      → (c == b'}') ≡ true
      → brace_token filename clean linenum (c ∷ []) seg full
        ≡ close_brace filename clean linenum full
  unfolding brace_token text_eq
  token_shuts c seg full e f = ground (arith, e, f)

  token_ends :
      (c : ℕ) (seg : Text) (full : List Block)
      → (c == b'{') ≡ false
      → (c == b'}') ≡ false
      → is_token c ≡ true
      → brace_token filename clean linenum (c ∷ []) seg full ≡ (end_of_head full, [])
  unfolding brace_token text_eq
  token_ends c seg full e f t = ground (arith, e, f, t)

  close_brace-silent :
      (b : Block) (bs full : List Block)
      → full ≡ b ∷ bs
      → is_braces b ≡ true
      → close_brace filename clean linenum full ≡ (bs, [])
  unfolding close_brace
  close_brace-silent b bs full e h =
      rw e (ap (λ (r : List Report). (bs, r)) (check_end-braces filename clean linenum b h))

  scan-silent :
      (c : ℕ) (seg t : Text) (full next : List Block)
      → is_token c ≡ true
      → brace_token filename clean linenum (c ∷ []) seg full ≡ (next, [])
      → scan filename clean linenum seg (c ∷ t) full ≡ scan filename clean linenum t t next
  scan-silent c seg t full next h e =
      scan-token filename clean linenum seg t c full h
      ∙ ap (λ (r : Stacked). add_calls r.1 (scan filename clean linenum t t r.0)) e

  -- A scan that ends e blocks of braces above st, without a report.
  abbrev Reaches : List Block → ℕ → Stacked → Type 0
  Reaches st e r = IsAbove e st r.0 × (r.1 ≡ [])

  pub scan-Reaches :
      (st : List Block) (d e : ℕ) (seg t : Text) (full : List Block)
      → is_complete st ≡ true
      → IsAbove d st full
      → depth d t ≡ some e
      → Reaches st e (scan filename clean linenum seg t full)
  scan-Reaches st d e seg [] full c a h =
      unfold scan depth in (subst (λ n. IsAbove n st full) (some-injective h) a, refl)
  scan-Reaches st d e seg (x ∷ t) full c a h =
      let k = IsAbove-complete d st full c a in
      elim (char_kind x) [
        | plain o s f ↦
            subst (Reaches st e)
              (sym (scan-skip filename clean linenum seg (x ∷ []) t full (rw f refl)))
              (scan-Reaches st d e seg t full c a (sym (depth-same d x t o s) ∙ h))
        | ends_head o s f ↦
            subst (Reaches st e)
              (sym (
                scan-silent x seg t full full f
                  (token_ends x seg full o s f ∙ ap (λ b. (b, [])) (end_of_head_complete full k))))
              (scan-Reaches st d e t t full c a (sym (depth-same d x t o s) ∙ h))
        | opens o ↦
            subst (Reaches st e)
              (sym (
                scan-silent x seg t full (opened_block linenum seg ∷ full) (ground (arith, o)) (
                  token_opens x seg full o
                  ∙ ap (λ b. (b, [])) (open_brace_complete linenum seg full k))))
              (scan-Reaches st (suc d) e t t (opened_block linenum seg ∷ full) c
                (opened_block linenum seg, full, refl, opened_block-braces linenum seg, a)
                (sym (depth-opens d x t o) ∙ h))
        | shuts o s ↦
            elim d
                as (λ d.
                  IsAbove d st full
                  → depth d (x ∷ t) ≡ some e
                  → Reaches st e (scan filename clean linenum seg (x ∷ t) full)) [
                    | zero ↦ λ a h. impossible (sym (depth-none x t o s) ∙ h)
                    | suc d ↦ λ a h.
                        let (b, bs, f, u, rest) = a in
                        subst (Reaches st e)
                          (sym (
                            scan-silent x seg t full bs (ground (arith, s)) (
                              token_shuts x seg full o s
                              ∙ close_brace-silent b bs full f (ground (arith, u)))))
                          (scan-Reaches st d e t t bs c rest (sym (depth-shuts d x t o s) ∙ h))
                  ]
              a h
      ]
