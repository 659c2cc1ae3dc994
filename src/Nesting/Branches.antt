-- ===== src/Nesting/Branches.antt =====
-- Conditional blocks of the preprocessor, and what build_support/cpplint.py keeps of their branches.
use concurrency_tcp_server.Base.{
  ◌≡◌, refl, ap, ◌∙◌, true, false, List, [], ◌∷◌, Text, if◌then◌else◌, arith,
}
use concurrency_tcp_server.Nesting.Block.{Block, PreprocessorInfo, NestingState}
use concurrency_tcp_server.Nesting.Preprocessor.{
  begins_if, begins_else, ends_if, directive_of, at_else, at_endif, apply_directive,
  update_preprocessor,
}

-- The lines of a branch change the stack of blocks only; nested conditionals leave pp_stack as it was.
abbrev pub edited : List Block → NestingState → NestingState
edited stack s = record s { stack = stack }

-- One branch that an #else or an #elif line begins, with the stack at its end.
pub record Branch : Type 0 where
  pub line : Text
  pub is_else : directive_of line ≡ begins_else
  pub stack_after : List Block

pub run_branches : List Branch → NestingState → NestingState
run_branches [] s = s
run_branches (b ∷ bs) s = run_branches bs (edited b.stack_after (update_preprocessor b.line s))

-- A conditional block: #if, the first branch, the other branches, #endif.
pub run_conditional : Text → List Block → List Branch → Text → NestingState → NestingState
unfolding run_branches
run_conditional if_line first bs endif_line s =
    update_preprocessor endif_line (run_branches bs (edited first (update_preprocessor if_line s)))

-- The checkpoint of a block: the stack before #if, and the stack at the end of the first branch.
abbrev checkpoint : List Block → List Block → PreprocessorInfo
checkpoint before first = record {
  stack_before_if = before;
  stack_before_else = first;
  seen_else = true;
}

else-pp_stack :
    (line : Text) (s : NestingState) (p : PreprocessorInfo) (ps : List PreprocessorInfo)
    → directive_of line ≡ begins_else
    → s.pp_stack ≡ p ∷ ps
    → update_preprocessor line s ≡ record s {
      stack = p.stack_before_if;
      pp_stack =
          (if p.seen_else then p else record p { seen_else = true; stack_before_else = s.stack })
          ∷ ps;
    }
unfolding update_preprocessor apply_directive at_else
else-pp_stack line s p ps d e = rw (d, e) (ground arith)

endif-pp_stack :
    (line : Text) (s : NestingState) (p : PreprocessorInfo) (ps : List PreprocessorInfo)
    → directive_of line ≡ ends_if
    → s.pp_stack ≡ p ∷ ps
    → update_preprocessor line s
      ≡ record s { stack = if p.seen_else then p.stack_before_else else s.stack; pp_stack = ps }
unfolding update_preprocessor apply_directive at_endif
endif-pp_stack line s p ps d e = rw (d, e) refl

if-pp_stack :
    (line : Text) (s : NestingState)
    → directive_of line ≡ begins_if
    → update_preprocessor line s ≡ record s {
      pp_stack =
          record { stack_before_if = s.stack; stack_before_else = []; seen_else = false }
          ∷ s.pp_stack;
    }
unfolding update_preprocessor apply_directive
if-pp_stack line s d = rw d refl

-- After further branches the checkpoint is the same.
later-pp_stack :
    (before first : List Block) (ps : List PreprocessorInfo) (bs : List Branch) (s : NestingState)
    → s.pp_stack ≡ checkpoint before first ∷ ps
    → ((run_branches bs s).pp_stack ≡ checkpoint before first ∷ ps)
      × ((run_branches bs s).previous_stack_top ≡ s.previous_stack_top)
unfolding run_branches
later-pp_stack before first ps [] s e = (e, refl)
later-pp_stack before first ps (b ∷ bs) s e =
    let step = else-pp_stack b.line s (checkpoint before first) ps b.is_else e in
    let (p, q) =
      later-pp_stack before first ps bs (edited b.stack_after (update_preprocessor b.line s))
        (ap (λ (t : NestingState). t.pp_stack) step) in
    (p, q ∙ ap (λ (t : NestingState). t.previous_stack_top) step)

module _ (if_line : Text) (first : List Block) (s : NestingState)
    (d : directive_of if_line ≡ begins_if) where
  abbrev opened : NestingState
  opened = edited first (update_preprocessor if_line s)

  opened-is : opened ≡ record s {
    stack = first;
    pp_stack =
        record { stack_before_if = s.stack; stack_before_else = []; seen_else = false }
        ∷ s.pp_stack;
  }
  opened-is = ap (edited first) (if-pp_stack if_line s d)

  -- The first further branch starts from the stack before #if, and saves the first branch.
  first_else :
      (line : Text)
      → directive_of line ≡ begins_else
      → update_preprocessor line opened
        ≡ record s { stack = s.stack; pp_stack = checkpoint s.stack first ∷ s.pp_stack }
  first_else line e =
      ap (update_preprocessor line) opened-is ∙ else-pp_stack line _ _ s.pp_stack e refl

  after_branches :
      (b : Branch) (bs : List Branch)
      → ((run_branches (b ∷ bs) opened).pp_stack ≡ checkpoint s.stack first ∷ s.pp_stack)
        × ((run_branches (b ∷ bs) opened).previous_stack_top ≡ s.previous_stack_top)
  unfolding run_branches
  after_branches b bs =
      let e = ap (edited b.stack_after) (first_else b.line b.is_else) in
      let (p, q) =
        later-pp_stack s.stack first s.pp_stack bs
          (edited b.stack_after (update_preprocessor b.line opened))
          (ap (λ (t : NestingState). t.pp_stack) e) in
      (p, q ∙ ap (λ (t : NestingState). t.previous_stack_top) e)

  pub branch_start :
      (bs : List Branch) (line : Text)
      → directive_of line ≡ begins_else
      → (update_preprocessor line (run_branches bs opened)).stack ≡ s.stack
  unfolding run_branches
  branch_start [] line e = ap (λ (t : NestingState). t.stack) (first_else line e)
  branch_start (b ∷ bs) line e =
      ap (λ (t : NestingState). t.stack)
        (else-pp_stack line (run_branches (b ∷ bs) opened) (checkpoint s.stack first) s.pp_stack e
          (after_branches b bs).0)

  pub conditional_first :
      (bs : List Branch) (endif_line : Text)
      → directive_of endif_line ≡ ends_if
      → run_conditional if_line first bs endif_line s ≡ edited first s
  unfolding run_conditional
  conditional_first [] endif_line e =
      unfold run_branches in
      (ap (update_preprocessor endif_line) opened-is
        ∙ endif-pp_stack endif_line _ _ s.pp_stack e refl)
  conditional_first (b ∷ bs) endif_line e =
      let (p, q) = after_branches b bs in
      endif-pp_stack endif_line (run_branches (b ∷ bs) opened) (checkpoint s.stack first) s.pp_stack
        e p
      ∙ ap (λ t. record { stack = first; previous_stack_top = t; pp_stack = s.pp_stack }) q

-- Whatever the branches of a conditional block do to the stack of blocks: after #endif the stack is the
-- one at the end of the first branch, and the rest of the state is the one before #if; and each #else
-- or #elif line, behind any branches, starts from the stack before #if.
pub run_conditional-first :
    (if_line : Text) (first : List Block) (bs : List Branch) (else_line endif_line : Text)
    (s : NestingState)
    → directive_of if_line ≡ begins_if
    → directive_of else_line ≡ begins_else
    → directive_of endif_line ≡ ends_if
    → (run_conditional if_line first bs endif_line s ≡ edited first s)
      × ((update_preprocessor else_line
            (run_branches bs (edited first (update_preprocessor if_line s)))).stack
          ≡ s.stack)
run_conditional-first if_line first bs else_line endif_line s d e f = (
  conditional_first if_line first s d bs endif_line f,
  branch_start if_line first s d bs else_line e,
)
