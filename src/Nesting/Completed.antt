-- ===== src/Nesting/Completed.antt =====
-- build_support/cpplint.py: NestingState.CheckCompletedBlocks.
use mathlib.Core.List.{reverse-append, reverse-cons}
use concurrency_tcp_server.Base.{
  ◌≡◌, refl, sym, ap, ◌∙◌, List, [], ◌∷◌, ◌++◌, reverse, Text, codes, append_assoc, append-nil,
}
use concurrency_tcp_server.Lint.Report.{Report}
use concurrency_tcp_server.Nesting.Block.{
  Block, NestingState, plain_block, extern_c, class_block, namespace_block,
}
use concurrency_tcp_server.Nesting.Ends.{completed_calls, incomplete_calls, check_completed_blocks}

abbrev report_of : Text → Text → Block → Text → Report
report_of filename category b message = record {
  filename = filename;
  linenum = b.starting_linenum;
  category = category;
  confidence = 5;
  message = message;
}

-- What is to be reported of an open block: a class and a namespace by name, at the line where it began.
abbrev pub open_reports : Text → Block → List Report
open_reports filename b = elim b.kind [
  | plain_block ↦ []
  | extern_c ↦ []
  | class_block c ↦
      report_of filename (codes "build/class") b
        (codes "Failed to find complete declaration of class " ++ c.name)
      ∷ []
  | namespace_block name ↦
      report_of filename (codes "build/namespaces") b
        (codes "Failed to find complete declaration of namespace " ++ name)
      ∷ []
]

incomplete_calls-open :
    (filename : Text) (b : Block) → incomplete_calls filename b ≡ open_reports filename b
incomplete_calls-open filename b = elim b.kind [
  | plain_block ↦ refl
  | extern_c ↦ refl
  | class_block c ↦ refl
  | namespace_block name ↦ refl
]

completed_calls-append :
    (filename : Text) (a b : List Block)
    → completed_calls filename (a ++ b) ≡ completed_calls filename a ++ completed_calls filename b
unfolding completed_calls
completed_calls-append filename [] b = refl
completed_calls-append filename (x ∷ a) b =
    ap (λ (r : List Report). incomplete_calls filename x ++ r) (completed_calls-append filename a b)
    ∙ sym (append_assoc (incomplete_calls filename x) _ _)

abbrev with_stack : List Block → NestingState → NestingState
with_stack blocks s = record s { stack = blocks }

-- CheckCompletedBlocks reports nothing of an empty stack. For a block anywhere in the stack, it makes the
-- reports of the blocks around it, then one for it if it is a class or a namespace, with its name, at the
-- line where it began and with its category, none if it is any other block, and then the reports of the
-- blocks within it.
pub check_completed_blocks-open_reports :
    (filename : Text) (s : NestingState) (within around : List Block) (b : Block)
    → (check_completed_blocks filename (with_stack [] s) ≡ [])
      × (check_completed_blocks filename (with_stack (within ++ (b ∷ around)) s)
          ≡ check_completed_blocks filename (with_stack around s)
            ++ (open_reports filename b ++ check_completed_blocks filename (with_stack within s)))
unfolding check_completed_blocks completed_calls
check_completed_blocks-open_reports filename s within around b =
    let calls = completed_calls filename in
    let one : calls (b ∷ []) ≡ open_reports filename b =
      append-nil (incomplete_calls filename b) ∙ incomplete_calls-open filename b in
    let turned : reverse (within ++ (b ∷ around)) ≡ (reverse around ++ (b ∷ [])) ++ reverse within =
      reverse-append within (b ∷ around)
      ∙ ap (λ (r : List Block). r ++ reverse within) (reverse-cons b around) in
    (
      refl,
      ap calls turned
          ∙ completed_calls-append filename (reverse around ++ (b ∷ [])) (reverse within)
          ∙ ap (λ (r : List Report). r ++ calls (reverse within))
              (completed_calls-append filename (reverse around) (b ∷ [])
                ∙ ap (λ (r : List Report). calls (reverse around) ++ r) one)
          ∙ append_assoc (calls (reverse around)) (open_reports filename b)
              (calls (reverse within)),
    )
