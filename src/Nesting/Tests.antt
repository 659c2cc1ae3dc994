-- ===== src/Nesting/Tests.antt =====
-- Runs of the models of NestingState at concrete lines.
use concurrency_tcp_server.Base.{◌≡◌, refl, true, some, List, [], ◌∷◌, Text, codes}
use concurrency_tcp_server.Nesting.Block.{
  Block, NestingState, new_block, new_nesting_state, get_indent_level, find_last_line, new_extern_c,
  new_namespace,
}
use concurrency_tcp_server.Nesting.Preprocessor.{
  begins_if, begins_else, ends_if, no_directive, directive_of, update_preprocessor,
}
use concurrency_tcp_server.Nesting.Branches.{
  Branch, edited, run_branches, run_conditional, run_conditional-first,
}

abbrev if_line : Text
if_line = codes "#ifdef DEBUG"

abbrev else_line : Text
else_line = codes " # else"

abbrev elif_line : Text
elif_line = codes "#elif defined(NDEBUG)"

abbrev endif_line : Text
endif_line = codes "#endif  // DEBUG"

if_line-is : directive_of if_line ≡ begins_if
unfolding directive_of
if_line-is = refl

else_line-is : directive_of else_line ≡ begins_else
unfolding directive_of
else_line-is = refl

elif_line-is : directive_of elif_line ≡ begins_else
unfolding directive_of
elif_line-is = refl

endif_line-is : directive_of endif_line ≡ ends_if
unfolding directive_of
endif_line-is = refl

-- A word that only starts with a directive is none.
no_directive-is : directive_of (codes "#iffy") ≡ no_directive
unfolding directive_of
no_directive-is = refl

get_indent_level-four : get_indent_level (codes "    class A {") ≡ 4
unfolding get_indent_level
get_indent_level-four = refl

find_last_line-third :
    find_last_line 0 0 0
      (codes "class A {" ∷ codes "  void f() {}" ∷ codes "};" ∷ codes "int i;" ∷ [])
    ≡ 2
unfolding find_last_line
find_last_line-third = refl

abbrev outer : Block
outer = new_namespace (some (codes "net")) 1

abbrev before_if : NestingState
before_if = record new_nesting_state { stack = outer ∷ [] }

abbrev first_stack : List Block
first_stack = new_block 3 true ∷ outer ∷ []

abbrev elif_branch : Branch
elif_branch = record {
  line = elif_line;
  is_else = elif_line-is;
  stack_after = new_extern_c 5 ∷ outer ∷ [];
}

run_conditional-first_example :
    (run_conditional if_line first_stack (elif_branch ∷ []) endif_line before_if
      ≡ edited first_stack before_if)
    × ((update_preprocessor else_line (
          run_branches
            (elif_branch ∷ [])
            (edited first_stack (update_preprocessor if_line before_if)))).stack
        ≡ outer ∷ [])
run_conditional-first_example =
    run_conditional-first if_line first_stack (elif_branch ∷ []) else_line endif_line before_if
      if_line-is else_line-is endif_line-is
