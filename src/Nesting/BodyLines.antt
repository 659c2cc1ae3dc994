-- ===== src/Nesting/BodyLines.antt =====
-- build_support/cpplint.py: what NestingState.Update does at a line of a body.
use concurrency_tcp_server.Base.{
  ℕ, zero, suc, ◌≡◌, refl, ap, ◌∙◌, true, ◌&&◌, none, some, List, [], ◌∷◌, map, Text, all, arith,
  length,
}
use concurrency_tcp_server.Regex.{match_re}
use concurrency_tcp_server.Lines.Cleansed.{CleansedLines}
use concurrency_tcp_server.Lint.Report.{Report}
use concurrency_tcp_server.Nesting.Block.{
  Block, ClassInfo, Kind, NestingState, plain_block, extern_c, class_block, namespace_block,
}
use concurrency_tcp_server.Nesting.Preprocessor.{
  no_directive, directive_of, apply_directive, update_preprocessor,
}
use concurrency_tcp_server.Nesting.Update.{
  namespace_re, class_re, access_re, change_top, count_parentheses, consume_namespaces,
  consume_class, begin_top, class_access, kind_access, update_access, update_stack, namespaces_go,
}
use concurrency_tcp_server.Nesting.Tokens.{not_newline}
use concurrency_tcp_server.Nesting.Scan.{braces_go-scan}
use concurrency_tcp_server.Nesting.Bodies.{
  shape, is_complete, is_braces, IsAbove, depth, IsAbove-complete, scan-Reaches,
}

-- A line of a body: no directive, no head of a namespace or a class, no access specifier.
pub record IsBodyLine (line : Text) : Type 0 where
  pub one_line : all not_newline line ≡ true
  pub directive_is : directive_of line ≡ no_directive
  pub no_namespace : match_re namespace_re line ≡ none
  pub no_class : match_re class_re line ≡ none
  pub no_access : match_re access_re line ≡ none

count_parentheses-shape : (line : Text) (b : Block) → shape (count_parentheses line b) ≡ shape b
unfolding count_parentheses
count_parentheses-shape line b = refl

counted-IsAbove :
    (line : Text) (d : ℕ) (st full : List Block)
    → IsAbove d st full
    → IsAbove d st (change_top (count_parentheses line) full)
counted-IsAbove line zero st [] a = a
counted-IsAbove line zero st (b ∷ bs) (a, same) =
    (ap (λ c. c ∷ map shape bs) (count_parentheses-shape line b) ∙ a, same)
counted-IsAbove line (suc d) st full (b, bs, e, h, a) =
    let same = count_parentheses-shape line b in
    (
      count_parentheses line b,
      bs,
      ap (change_top (count_parentheses line)) e,
      ap (λ (c : Block). c.seen_open_brace && is_braces c) same ∙ h,
      a,
    )

namespaces_go-none :
    (n linenum : ℕ) (line : Text) (st : List Block)
    → match_re namespace_re line ≡ none
    → namespaces_go n linenum line st ≡ (line, st)
namespaces_go-none zero linenum line st e = unfold namespaces_go in refl
namespaces_go-none (suc n) linenum line st e = unfold namespaces_go in rw (e, namespaces_go) refl

consume_namespaces-none :
    (linenum : ℕ) (line : Text) (st : List Block)
    → match_re namespace_re line ≡ none
    → consume_namespaces linenum line st ≡ (line, st)
unfolding consume_namespaces
consume_namespaces-none linenum line st e = namespaces_go-none (length line) linenum line st e

consume_class-none :
    (clean : CleansedLines) (linenum : ℕ) (line : Text) (st : List Block)
    → match_re class_re line ≡ none
    → consume_class clean linenum line st ≡ (line, st)
unfolding consume_class
consume_class-none clean linenum line st e = rw (e, consume_class) refl

begin_top_complete :
    (clean : CleansedLines) (linenum : ℕ) (st : List Block)
    → is_complete st ≡ true
    → begin_top clean linenum st ≡ st
unfolding begin_top
begin_top_complete clean linenum [] c = refl
begin_top_complete clean linenum (b ∷ bs) c = rw c refl

class_access-none :
    (filename : Text) (linenum : ℕ) (line : Text) (b : Block) (c : ClassInfo)
    → match_re access_re line ≡ none
    → class_access filename linenum line b c ≡ (b, [])
unfolding class_access
class_access-none filename linenum line b c e = rw (e, class_access) refl

kind_access-none :
    (filename : Text) (linenum : ℕ) (line : Text) (b : Block) (k : Kind)
    → match_re access_re line ≡ none
    → kind_access filename linenum line b k ≡ (b, [])
unfolding kind_access
kind_access-none filename linenum line b (class_block c) e =
    class_access-none filename linenum line b c e
kind_access-none filename linenum line b plain_block e = refl
kind_access-none filename linenum line b extern_c e = refl
kind_access-none filename linenum line b (namespace_block _) e = refl

update_access-none :
    (filename : Text) (linenum : ℕ) (line : Text) (st : List Block)
    → match_re access_re line ≡ none
    → update_access filename linenum line st ≡ (st, [])
unfolding update_access
update_access-none filename linenum line [] e = refl
update_access-none filename linenum line (b ∷ bs) e =
    ap (λ (r : Block × List Report). (r.0 ∷ bs, r.1))
      (kind_access-none filename linenum line b b.kind e)

pub update_stack-IsAbove :
    (filename : Text) (clean : CleansedLines) (linenum d e : ℕ) (line : Text) (st full : List Block)
    → IsBodyLine line
    → is_complete st ≡ true
    → IsAbove d st full
    → depth d line ≡ some e
    → IsAbove e st (update_stack filename clean linenum line full).0
      × ((update_stack filename clean linenum line full).1 ≡ [])
unfolding update_stack
update_stack-IsAbove filename clean linenum d e line st full p c a h =
    let full' = change_top (count_parentheses line) full in
    let a' = counted-IsAbove line d st full a in
    let k = IsAbove-complete d st full' c a' in
    rw
      (
        consume_namespaces-none linenum line full' p.no_namespace,
        consume_class-none clean linenum line full' p.no_class,
        begin_top_complete clean linenum full' k,
        update_access-none filename linenum line full' p.no_access,
        (braces_go-scan filename clean linenum (length line) line full' (omega arith) p.one_line).1,
      )
      (scan-Reaches filename clean linenum st d e line line full' c a' h)

pub update_preprocessor-none :
    (line : Text) (s : NestingState)
    → directive_of line ≡ no_directive
    → update_preprocessor line s ≡ s
unfolding update_preprocessor apply_directive
update_preprocessor-none line s e = rw e refl
