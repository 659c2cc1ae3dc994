-- ===== src/Nesting/Update.antt =====
-- build_support/cpplint.py: NestingState.Update.
use concurrency_tcp_server.Base.{
  ℕ, zero, suc, ◌+◌, Bool, true, false, not, ◌&&◌, ◌||◌, Option, none, some, List, [], ◌∷◌, ◌++◌,
  Text, ◌==◌, if◌then◌else◌, codes, length, drop, get_or, count, find, is_word, or_default,
}
use concurrency_tcp_server.Regex.{
  Regex, Found, bol, eol, word_boundary, char_in, group, star, match_re, matches, group_text,
}
use concurrency_tcp_server.Regex.Forms.{
  ◌⊙◌, ◌∣∣◌, lit, any_lit, opt, spaces, space, plus, dot, word, none_of, in_set,
}
use concurrency_tcp_server.Lines.Cleansed.{CleansedLines}
use concurrency_tcp_server.Lines.RawStrings.{group_or_empty}
use concurrency_tcp_server.Lint.Report.{Report, say, say_if}
use concurrency_tcp_server.Nesting.Block.{
  Asm, no_asm, inside_asm, end_asm, block_asm, Block, ClassInfo, Kind, NestingState, plain_block,
  extern_c, class_block, namespace_block, new_namespace, new_class,
}
use concurrency_tcp_server.Nesting.Preprocessor.{update_preprocessor}
use concurrency_tcp_server.Nesting.Ends.{check_begin, parent_of}
use concurrency_tcp_server.Functions.{blank_re}
use concurrency_tcp_server.Nesting.Templates.{in_template_argument_list}
use concurrency_tcp_server.Nesting.Braces.{match_asm, Stacked, consume_braces}

abbrev pub top : List Block → Option Block
top [] = none
top (b ∷ _) = some b

-- open_parentheses == n, for the numbers 0 and 1
abbrev pub parentheses_are : ℕ → Block → Bool
parentheses_are n b = b.parens_opened == b.parens_closed + n

-- The new inline_asm, for a block whose parentheses are counted.
unfoldable pub next_asm : Text → Bool → Block → Asm
unfolding matches
next_asm line changed b =
    let entered = changed && parentheses_are 1 b && matches match_asm line in
    elim b.inline_asm [
      | no_asm ↦ if entered then inside_asm else no_asm
      | end_asm ↦ if entered then inside_asm else no_asm
      | inside_asm ↦ if parentheses_are 0 b then end_asm else inside_asm
      | block_asm ↦ block_asm
    ]

-- The count of parentheses, and the start and the end of inline assembly.
unfoldable pub count_parentheses : Text → Block → Block
unfolding count next_asm
count_parentheses line b =
    let opened = count (codes "(") line in
    let closed = count (codes ")") line in
    let counted = record b {
      parens_opened = b.parens_opened + opened;
      parens_closed = b.parens_closed + closed;
    } in
    record counted { inline_asm = next_asm line (not (opened == closed)) counted }

abbrev pub change_top : (Block → Block) → List Block → List Block
change_top f [] = []
change_top f (b ∷ bs) = f b ∷ bs

-- ^\s*namespace\b\s*([:\w]+)?(.*)$
abbrev pub namespace_re : Regex
namespace_re =
    bol
    ⊙ spaces
    ⊙ lit "namespace"
    ⊙ word_boundary
    ⊙ spaces
    ⊙ opt (group 1 (plus (char_in (λ c. c == b':' || is_word c))))
    ⊙ group 2 (star dot)
    ⊙ eol

-- The line behind a namespace head, and whether its brace was seen.
abbrev behind_brace : Text → Option ℕ → Text × Bool
behind_brace line none = (line, false)
behind_brace line (some i) = (drop (i + 1) line, true)

unfoldable pub after_head : Text → Text × Bool
unfolding find
after_head line = behind_brace line (find (codes "{") line)

-- What is left of the line, and the stack.
abbrev pub Left : Type 0
Left = Text × List Block

push_namespace : ℕ → Found → List Block → Left
unfolding group_text after_head
push_namespace linenum m st =
    let (rest, seen) = after_head (group_or_empty 2 m) in
    (rest, record (new_namespace (group_text 1 m) linenum) { seen_open_brace = seen } ∷ st)

-- The loop over namespace heads, on fuel.
unfoldable pub namespaces_go : ℕ → ℕ → Text → List Block → Left
unfolding push_namespace match_re
namespaces_go zero linenum line st = (line, st)
namespaces_go (suc n) linenum line st = elim (match_re namespace_re line) [
  | none ↦ (line, st)
  | some m ↦ let next = push_namespace linenum m st in namespaces_go n linenum next.0 next.1
]

-- Each round takes a character away.
unfoldable pub consume_namespaces : ℕ → Text → List Block → Left
unfolding namespaces_go
consume_namespaces linenum line st = namespaces_go (length line) linenum line st

-- ^(\s*(?:template\s*<[\w\s<>,:=]*>\s*)?(class|struct)\s+(?:[A-Z_]+\s+)*(\w+(?:::\w+)*))(.*)$
abbrev pub class_re : Regex
unfolding is_word
class_re =
    bol
    ⊙ group 1 (
        spaces
        ⊙ opt (
            lit "template"
            ⊙ spaces
            ⊙ lit "<"
            ⊙ star (word ∣∣ space ∣∣ char_in (in_set "<>,:="))
            ⊙ lit ">"
            ⊙ spaces)
        ⊙ group 2 (any_lit (codes "class" ∷ codes "struct" ∷ []))
        ⊙ plus space
        ⊙ star (plus (char_in (in_set "ABCDEFGHIJKLMNOPQRSTUVWXYZ_")) ⊙ plus space)
        ⊙ group 3 (plus word ⊙ star (lit "::" ⊙ plus word)))
    ⊙ group 4 (star dot)
    ⊙ eol

abbrev no_open_parenthesis : List Block → Bool
no_open_parenthesis [] = true
no_open_parenthesis (b ∷ _) = parentheses_are 0 b

-- A class head that is no template argument is pushed. A position at which the search for the end of a
-- template argument list raises does not occur.
class_at : CleansedLines → ℕ → Text → List Block → Found → Left
unfolding group_text new_class in_template_argument_list
class_at clean linenum line st m =
    if no_open_parenthesis st
      && not
          (or_default false (in_template_argument_list clean linenum (length (group_or_empty 1 m))))
    then (
      group_or_empty 4 m,
      new_class (group_or_empty 3 m) (group_or_empty 2 m) clean linenum ∷ st,
    )
    else (line, st)

unfoldable pub consume_class : CleansedLines → ℕ → Text → List Block → Left
unfolding class_at match_re
consume_class clean linenum line st = elim (match_re class_re line) [
  | none ↦ (line, st)
  | some m ↦ class_at clean linenum line st m
]

-- CheckBegin on the innermost block, as long as its brace was not seen
unfoldable pub begin_top : CleansedLines → ℕ → List Block → List Block
unfolding check_begin
begin_top clean linenum st =
    change_top (λ b. if not b.seen_open_brace then check_begin clean linenum b else b) st

-- ^(.*)\b(public|private|protected|signals)(\s+(?:slots\s*)?)?:(?:[^:]|$)
abbrev pub access_re : Regex
access_re =
    bol
    ⊙ group 1 (star dot)
    ⊙ word_boundary
    ⊙ group 2
        (any_lit (codes "public" ∷ codes "private" ∷ codes "protected" ∷ codes "signals" ∷ []))
    ⊙ opt (group 3 (plus space ⊙ opt (lit "slots" ⊙ spaces)))
    ⊙ lit ":"
    ⊙ (none_of ":" ∣∣ eol)

access_calls : Text → ℕ → ClassInfo → Found → List Report
unfolding group_text matches
access_calls filename linenum c m =
    let indent = group_or_empty 1 m in
    say_if (not (length indent == c.class_indent + 1) && matches blank_re indent) (
      say filename linenum "whitespace/indent" 3 (
        group_or_empty 2 m
        ++ group_or_empty 3 m
        ++ codes ": should be indented +1 space inside "
        ++ parent_of c))

unfoldable pub class_access : Text → ℕ → Text → Block → ClassInfo → Block × List Report
unfolding match_re group_text access_calls
class_access filename linenum line b c = elim (match_re access_re line) [
  | none ↦ (b, [])
  | some m ↦ (
    record b { kind = class_block (record c { access = group_or_empty 2 m }) },
    access_calls filename linenum c m,
  )
]

unfoldable pub kind_access : Text → ℕ → Text → Block → Kind → Block × List Report
unfolding class_access
kind_access filename linenum line b (class_block c) = class_access filename linenum line b c
kind_access filename linenum line b plain_block = (b, [])
kind_access filename linenum line b extern_c = (b, [])
kind_access filename linenum line b (namespace_block _) = (b, [])

-- The access control of the innermost block, if it is a class.
unfoldable pub update_access : Text → ℕ → Text → List Block → Stacked
unfolding kind_access
update_access filename linenum line [] = ([], [])
update_access filename linenum line (b ∷ bs) =
    let r = kind_access filename linenum line b b.kind in (r.0 ∷ bs, r.1)

-- The part of Update that reads a line into the stack of blocks.
unfoldable pub update_stack : Text → CleansedLines → ℕ → Text → List Block → Stacked
unfolding count_parentheses consume_namespaces consume_class begin_top update_access consume_braces
update_stack filename clean linenum line st =
    let (rest, st1) = consume_namespaces linenum line (change_top (count_parentheses line) st) in
    let (rest2, st2) = consume_class clean linenum rest st1 in
    let (st3, calls) = update_access filename linenum rest2 (begin_top clean linenum st2) in
    let (st4, calls2) = consume_braces filename clean linenum rest2 st3 in (st4, calls ++ calls2)

-- Update
unfoldable pub update : Text → CleansedLines → ℕ → NestingState → NestingState × List Report
unfolding update_stack update_preprocessor
update filename clean linenum s =
    let line = get_or clean.elided linenum [] in
    let ready = update_preprocessor line (record s { previous_stack_top = top s.stack }) in
    let r = update_stack filename clean linenum line ready.stack in
    (record ready { stack = r.0 }, r.1)
