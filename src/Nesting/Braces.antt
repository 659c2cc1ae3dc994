-- ===== src/Nesting/Braces.antt =====
-- build_support/cpplint.py: the loop of NestingState.Update over braces, semicolons and parentheses.
use concurrency_tcp_server.Base.{
  ℕ, zero, suc, true, not, none, some, List, [], ◌∷◌, ◌++◌, Text, if◌then◌else◌, codes, length,
  text_eq, one_of,
}
use concurrency_tcp_server.Regex.{Regex, bol, eol, group, star, match_re, matches, group_text}
use concurrency_tcp_server.Regex.Forms.{
  ◌⊙◌, lit, any_lit, opt, spaces, space, plus, dot, set_of, none_of,
}
use concurrency_tcp_server.Lines.Cleansed.{CleansedLines}
use concurrency_tcp_server.Lines.RawStrings.{group_or_empty}
use concurrency_tcp_server.Lint.Report.{Report}
use concurrency_tcp_server.Nesting.Block.{Block, new_block, new_extern_c, no_asm, block_asm}
use concurrency_tcp_server.Nesting.Ends.{check_end}

-- ^\s*(?:asm|_asm|__asm|__asm__)(?:\s+(volatile|__volatile__))?\s*[{(]
abbrev pub match_asm : Regex
match_asm =
    bol
    ⊙ spaces
    ⊙ any_lit (codes "asm" ∷ codes "_asm" ∷ codes "__asm" ∷ codes "__asm__" ∷ [])
    ⊙ opt (plus space ⊙ group 1 (any_lit (codes "volatile" ∷ codes "__volatile__" ∷ [])))
    ⊙ spaces
    ⊙ set_of "{("

-- ^extern\s*"[^"]*"\s*\{
abbrev pub extern_re : Regex
extern_re =
    bol ⊙ lit "extern" ⊙ spaces ⊙ lit "\"" ⊙ star (none_of "\"") ⊙ lit "\"" ⊙ spaces ⊙ lit "{"

-- ^[^{;)}]*([{;)}])(.*)$
abbrev pub brace_re : Regex
brace_re = bol ⊙ star (none_of "{;)}") ⊙ group 1 (set_of "{;)}") ⊙ group 2 (star dot) ⊙ eol

-- A stack of blocks, its top in front, and the reports that were made.
abbrev pub Stacked : Type 0
Stacked = List Block × List Report

-- The block that a brace opens on a stack whose top is complete.
unfoldable pub opened_block : ℕ → Text → Block
unfolding matches
opened_block linenum line =
    if matches extern_re line then new_extern_c linenum else record (new_block linenum true) {
      inline_asm = if matches match_asm line then block_asm else no_asm;
    }

-- {
unfoldable pub open_brace : ℕ → Text → List Block → List Block
unfolding opened_block
open_brace linenum line [] = opened_block linenum line ∷ []
open_brace linenum line (b ∷ bs) =
    if not b.seen_open_brace
    then record b { seen_open_brace = true } ∷ bs
    else opened_block linenum line ∷ b ∷ bs

-- ; and )
unfoldable pub end_of_head : List Block → List Block
end_of_head [] = []
end_of_head (b ∷ bs) = if not b.seen_open_brace then bs else b ∷ bs

-- }
unfoldable pub close_brace : Text → CleansedLines → ℕ → List Block → Stacked
unfolding check_end
close_brace filename clean linenum [] = ([], [])
close_brace filename clean linenum (b ∷ bs) = (bs, check_end filename clean linenum b)

-- One round, for the character that the pattern has found on the line.
unfoldable pub brace_token : Text → CleansedLines → ℕ → Text → Text → List Block → Stacked
unfolding open_brace end_of_head close_brace
brace_token filename clean linenum token line st =
    if text_eq token (codes "{")
    then (open_brace linenum line st, [])
    else if one_of token (codes ";" ∷ codes ")" ∷ [])
    then (end_of_head st, [])
    else close_brace filename clean linenum st

abbrev pub add_calls : List Report → Stacked → Stacked
add_calls calls r = (r.0, calls ++ r.1)

-- The loop, on fuel.
unfoldable pub braces_go : ℕ → Text → CleansedLines → ℕ → Text → List Block → Stacked
unfolding brace_token match_re group_text
braces_go zero filename clean linenum line st = (st, [])
braces_go (suc n) filename clean linenum line st = elim (match_re brace_re line) [
  | none ↦ (st, [])
  | some m ↦
      let r = brace_token filename clean linenum (group_or_empty 1 m) line st in
      add_calls r.1 (braces_go n filename clean linenum (group_or_empty 2 m) r.0)
]

-- Each round takes a character away.
unfoldable pub consume_braces : Text → CleansedLines → ℕ → Text → List Block → Stacked
unfolding braces_go
consume_braces filename clean linenum line st =
    braces_go (length line) filename clean linenum line st
