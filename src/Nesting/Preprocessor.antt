-- ===== src/Nesting/Preprocessor.antt =====
-- build_support/cpplint.py: NestingState.UpdatePreprocessor.
use concurrency_tcp_server.Base.{true, false, not, List, [], ◌∷◌, Text, if◌then◌else◌, codes}
use concurrency_tcp_server.Regex.{Regex, bol, word_boundary, matches}
use concurrency_tcp_server.Regex.Forms.{◌⊙◌, lit, any_lit, spaces}
use concurrency_tcp_server.Nesting.Block.{PreprocessorInfo, NestingState}

-- What a line is to the preprocessor stack.
pub data Directive : Type 0 where
  begins_if begins_else ends_if no_directive : Directive

abbrev directive_re : List Text → Regex
directive_re names = bol ⊙ spaces ⊙ lit "#" ⊙ spaces ⊙ any_lit names ⊙ word_boundary

unfoldable pub directive_of : Text → Directive
unfolding matches
directive_of line =
    if matches (directive_re (codes "if" ∷ codes "ifdef" ∷ codes "ifndef" ∷ [])) line
    then begins_if
    else if matches (directive_re (codes "else" ∷ codes "elif" ∷ [])) line
    then begins_else
    else if matches (directive_re (codes "endif" ∷ [])) line
    then ends_if
    else no_directive

-- The branch for #else and #elif, on the preprocessor stack.
unfoldable pub at_else : List PreprocessorInfo → NestingState → NestingState
at_else [] s = s
at_else (p ∷ ps) s = record s {
  stack = p.stack_before_if;
  pp_stack =
      (if not p.seen_else then record p { seen_else = true; stack_before_else = s.stack } else p)
      ∷ ps;
}

-- The branch for #endif.
unfoldable pub at_endif : List PreprocessorInfo → NestingState → NestingState
at_endif [] s = s
at_endif (p ∷ ps) s = record s {
  stack = if p.seen_else then p.stack_before_else else s.stack;
  pp_stack = ps;
}

unfoldable pub apply_directive : Directive → NestingState → NestingState
unfolding at_else at_endif
apply_directive begins_if s = record s {
  pp_stack =
      record { stack_before_if = s.stack; stack_before_else = []; seen_else = false } ∷ s.pp_stack;
}
apply_directive begins_else s = at_else s.pp_stack s
apply_directive ends_if s = at_endif s.pp_stack s
apply_directive no_directive s = s

-- UpdatePreprocessor
unfoldable pub update_preprocessor : Text → NestingState → NestingState
unfolding apply_directive
update_preprocessor line s = apply_directive (directive_of line) s
