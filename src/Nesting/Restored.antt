-- ===== src/Nesting/Restored.antt =====
-- build_support/cpplint.py: NestingState.Update over the lines of a body restores the stack of blocks.
use concurrency_tcp_server.Base.{
  ℕ, zero, suc, ◌+◌, ◌<◌, ◌≡◌, refl, ap, ◌∙◌, subst, true, Option, none, some, List, [], ◌++◌, map,
  Text, arith, get_or, drop, impossible,
}
use concurrency_tcp_server.Regex.Groups.{some-injective}
use concurrency_tcp_server.Lines.Cleansed.{CleansedLines}
use concurrency_tcp_server.Lint.Report.{Report}
use concurrency_tcp_server.Nesting.Block.{Block, NestingState}
use concurrency_tcp_server.Nesting.Update.{update, top}
use concurrency_tcp_server.Nesting.Bodies.{shape, is_complete, IsAbove, depth}
use concurrency_tcp_server.Nesting.BodyLines.{
  IsBodyLine, update_stack-IsAbove, update_preprocessor-none,
}

-- The calls of Update for n lines from a line on, with all their reports.
unfoldable pub update_lines :
    Text → CleansedLines → ℕ → ℕ → NestingState → NestingState × List Report
unfolding update
update_lines filename clean linenum zero s = (s, [])
update_lines filename clean linenum (suc n) s =
    let first = update filename clean linenum s in
    let rest = update_lines filename clean (linenum + 1) n first.0 in (rest.0, first.1 ++ rest.1)

-- The number of open braces behind n lines from a line on.
unfoldable pub lines_depth : CleansedLines → ℕ → ℕ → ℕ → Option ℕ
lines_depth clean linenum zero d = some d
lines_depth clean linenum (suc n) d = elim (depth d (get_or clean.elided linenum [])) [
  | none ↦ none
  | some e ↦ lines_depth clean (linenum + 1) n e
]

some_of :
    (o : Option ℕ) (f : ℕ → Option ℕ) {e : ℕ}
    → (elim o [ none ↦ none | some x ↦ f x ]) ≡ some e
    → (x : ℕ) × (o ≡ some x) × (f x ≡ some e)
some_of none f h = impossible h
some_of (some x) f h = (x, refl, h)

lines_depth-first :
    (clean : CleansedLines) (linenum n d e : ℕ)
    → lines_depth clean linenum (suc n) d ≡ some e
    → (x : ℕ) × (depth d (get_or clean.elided linenum []) ≡ some x)
      × (lines_depth clean (linenum + 1) n x ≡ some e)
unfolding lines_depth
lines_depth-first clean linenum n d e h =
    some_of (depth d (get_or clean.elided linenum [])) (λ x. lines_depth clean (linenum + 1) n x) h

lines_depth-zero :
    (clean : CleansedLines) (linenum d e : ℕ) → lines_depth clean linenum 0 d ≡ some e → d ≡ e
unfolding lines_depth
lines_depth-zero clean linenum d e h = some-injective h

-- The state after an update, d blocks of braces above a stack.
record Follows (st : List Block) (d : ℕ) (s : NestingState) (r : NestingState × List Report)
    : Type 0 where
  above : IsAbove d st r.0.stack
  silent : r.1 ≡ []
  same_pp : r.0.pp_stack ≡ s.pp_stack

update-Follows :
    (filename : Text) (clean : CleansedLines) (linenum d e : ℕ) (st : List Block) (s : NestingState)
    → IsBodyLine (get_or clean.elided linenum [])
    → is_complete st ≡ true
    → IsAbove d st s.stack
    → depth d (get_or clean.elided linenum []) ≡ some e
    → Follows st e s (update filename clean linenum s)
unfolding update
update-Follows filename clean linenum d e st s p c a h =
    let line = get_or clean.elided linenum [] in
    let (x, y) = update_stack-IsAbove filename clean linenum d e line st s.stack p c a h in
    rw
      (update_preprocessor-none line (record s { previous_stack_top = top s.stack }) p.directive_is)
      (record { above = x; silent = y; same_pp = refl })

update_lines-Follows :
    (filename : Text) (clean : CleansedLines) (linenum n d e : ℕ) (st : List Block)
    (s : NestingState)
    → ((j : ℕ) → j < n → IsBodyLine (get_or clean.elided (linenum + j) []))
    → is_complete st ≡ true
    → IsAbove d st s.stack
    → lines_depth clean linenum n d ≡ some e
    → Follows st e s (update_lines filename clean linenum n s)
unfolding update_lines
update_lines-Follows filename clean linenum zero d e st s p c a h = record {
  above = subst (λ k. IsAbove k st s.stack) (lines_depth-zero clean linenum d e h) a;
  silent = refl;
  same_pp = refl;
}
update_lines-Follows filename clean linenum (suc n) d e st s p c a h =
    let (x, f, g) = lines_depth-first clean linenum n d e h in
    let one =
      update-Follows filename clean linenum d x st s
        (subst (λ k. IsBodyLine (get_or clean.elided k [])) (omega arith) (p 0 (omega arith))) c a
        f in
    let rest =
      update_lines-Follows filename clean (linenum + 1) n x e st (update filename clean linenum s).0
        (λ j l.
          subst (λ k. IsBodyLine (get_or clean.elided k [])) (omega arith)
            (p (j + 1) (omega (arith, l))))
        c one.above g in
    record {
      above = rest.above;
      silent =
          ap
            (λ (r : List Report).
              r
              ++ (update_lines filename clean (linenum + 1) n
                  (update filename clean linenum s).0).1)
            one.silent
          ∙ rest.silent;
      same_pp = rest.same_pp ∙ one.same_pp;
    }

-- Over any lines that hold no directive, no head of a namespace or class and no access specifier, and in
-- which the braces are matched across the lines and none is closed too many: NestingState.Update leaves
-- the blocks below the top of the stack exactly as they were and the block on top except for its count of
-- parentheses and its inline assembly, adds and removes no block, reports nothing and leaves the stack of
-- preprocessor conditions. The block on top has its brace before.
pub update_lines-restores :
    (filename : Text) (clean : CleansedLines) (linenum n : ℕ) (s : NestingState)
    → ((j : ℕ) → j < n → IsBodyLine (get_or clean.elided (linenum + j) []))
    → is_complete s.stack ≡ true
    → lines_depth clean linenum n 0 ≡ some 0
    → (map shape (update_lines filename clean linenum n s).0.stack ≡ map shape s.stack)
      × (drop 1 (update_lines filename clean linenum n s).0.stack ≡ drop 1 s.stack)
      × ((update_lines filename clean linenum n s).1 ≡ [])
      × ((update_lines filename clean linenum n s).0.pp_stack ≡ s.pp_stack)
update_lines-restores filename clean linenum n s p c h =
    let r = update_lines-Follows filename clean linenum n 0 0 s.stack s p c (refl, refl) h in
    let (shapes, below) = r.above in (shapes, below, r.silent, r.same_pp)
