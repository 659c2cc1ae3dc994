-- ===== src/Nesting/Ends.antt =====
-- build_support/cpplint.py: CheckBegin and CheckEnd of the classes of blocks, and CheckCompletedBlocks.
use concurrency_tcp_server.Base.{
  ℕ, zero, suc, ◌+◌, ◌-◌, Bool, true, false, not, ◌&&◌, ◌||◌, none, some, List, [], ◌∷◌, ◌++◌, Text,
  ltb, ◌==◌, if◌then◌else◌, codes, get_or, length, reverse,
}
use concurrency_tcp_server.Regex.{
  Regex, bol, eol, word_boundary, group, star, match_re, search_re, matches, searches, group_text,
}
use concurrency_tcp_server.Regex.Forms.{
  ◌⊙◌, ◌∣∣◌, lit, literal, any_lit, spaces, space, plus, dot, set_of, none_of,
}
use concurrency_tcp_server.Lines.Cleansed.{CleansedLines}
use concurrency_tcp_server.Lines.RawStrings.{group_or_empty}
use concurrency_tcp_server.Functions.{blank_re}
use concurrency_tcp_server.Lint.Report.{Report, say, say_if}
use concurrency_tcp_server.Nesting.Block.{
  Block, ClassInfo, NestingState, class_block, namespace_block,
}

-- (^|[^:]):($|[^:])
abbrev pub bare_colon_re : Regex
bare_colon_re = (bol ∣∣ none_of ":") ⊙ lit ":" ⊙ (eol ∣∣ none_of ":")

-- The kind of a block after its CheckBegin: only _ClassInfo does something there.
abbrev begin_kind : Bool → Block → Block
begin_kind bare b = elim b.kind [
  | class_block c ↦ record b {
    kind = class_block (if bare then record c { is_derived = true } else c);
  }
  | _ ↦ b
]

-- CheckBegin
unfoldable pub check_begin : CleansedLines → ℕ → Block → Block
unfolding searches
check_begin clean linenum b = begin_kind (searches bare_colon_re (get_or clean.elided linenum [])) b

-- \b(DISALLOW_COPY_AND_ASSIGN|DISALLOW_IMPLICIT_CONSTRUCTORS)\(name\); a name is made of word
-- characters and colons, so it matches itself only.
abbrev pub disallow_re : Text → Regex
disallow_re name =
    word_boundary
    ⊙ group 1
        (any_lit (codes "DISALLOW_COPY_AND_ASSIGN" ∷ codes "DISALLOW_IMPLICIT_CONSTRUCTORS" ∷ []))
    ⊙ lit "("
    ⊙ literal name
    ⊙ lit ")"

-- The loop over the lines start + n to start + 1 that looks for a DISALLOW macro.
unfoldable pub disallow_calls : Text → Text → CleansedLines → ℕ → ℕ → Bool → List Report
unfolding search_re matches group_text
disallow_calls filename name clean start zero seen_last = []
disallow_calls filename name clean start (suc n) seen_last =
    let line = get_or clean.elided (start + suc n) [] in
    let later =
      disallow_calls filename name clean start n (seen_last || not (matches blank_re line)) in
    elim (search_re (disallow_re name) line) [
      | some m ↦ say_if seen_last (
          say filename (start + suc n) "readability/constructors" 3
            (group_or_empty 1 m ++ codes " should be the last thing in the class"))
      | none ↦ later
    ]

-- ^( *)\}
abbrev pub closing_indent_re : Regex
closing_indent_re = bol ⊙ group 1 (star (lit " ")) ⊙ lit "}"

-- 'struct ' + name or 'class ' + name
abbrev pub parent_of : ClassInfo → Text
parent_of c = (if c.is_struct then codes "struct " else codes "class ") ++ c.name

unfoldable pub aligned_calls : Text → CleansedLines → ℕ → ClassInfo → List Report
unfolding match_re group_text
aligned_calls filename clean linenum c =
    elim (match_re closing_indent_re (get_or clean.elided linenum [])) [
      | none ↦ []
      | some m ↦ say_if (not (length (group_or_empty 1 m) == c.class_indent)) (
          say filename linenum "whitespace/indent" 3
            (codes "Closing brace should be aligned with beginning of " ++ parent_of c))
    ]

-- _ClassInfo.CheckEnd
unfoldable pub check_end_class : Text → CleansedLines → ℕ → ℕ → ClassInfo → List Report
unfolding disallow_calls aligned_calls
check_end_class filename clean linenum start c =
    disallow_calls filename c.name clean start (linenum - 1 - start) false
    ++ aligned_calls filename clean linenum c

-- ^\s*};*\s*(//|/\*).*\bnamespace
abbrev pub end_comment_re : Regex → Regex
end_comment_re tail =
    bol
    ⊙ spaces
    ⊙ lit "}"
    ⊙ star (lit ";")
    ⊙ spaces
    ⊙ group 1 (lit "//" ∣∣ lit "/*")
    ⊙ star dot
    ⊙ word_boundary
    ⊙ lit "namespace"
    ⊙ tail

-- \s+name[\*/\.\\\s]*$, with the name escaped
abbrev pub comment_tail : Regex
comment_tail = star (set_of "*/.\\" ∣∣ space)

abbrev pub named_end_re : Text → Regex
named_end_re name = end_comment_re (plus space ⊙ literal name ⊙ comment_tail ⊙ eol)

abbrev pub anonymous_end_re : Regex
anonymous_end_re = end_comment_re (comment_tail ⊙ eol)

-- ^\s*}.*\b(namespace anonymous|anonymous namespace)\b
abbrev pub anonymous_words_re : Regex
anonymous_words_re =
    bol
    ⊙ spaces
    ⊙ lit "}"
    ⊙ star dot
    ⊙ word_boundary
    ⊙ group 1 (lit "namespace anonymous" ∣∣ lit "anonymous namespace")
    ⊙ word_boundary

unfoldable pub named_calls : Text → ℕ → Text → Text → List Report
unfolding matches
named_calls filename linenum name line = say_if (not (matches (named_end_re name) line)) (
    say filename linenum "readability/namespace" 5
      (codes "Namespace should be terminated with \"// namespace " ++ name ++ codes "\""))

unfoldable pub anonymous_calls : Text → ℕ → Text → List Report
unfolding matches
anonymous_calls filename linenum line =
    if matches anonymous_end_re line
    then []
    else if matches anonymous_words_re line
    then say filename linenum "readability/namespace" 5 (
        codes
          "Anonymous namespace should be terminated with \"// namespace\" or \"// anonymous namespace\"")
    else say filename linenum "readability/namespace" 5
        (codes "Anonymous namespace should be terminated with \"// namespace\"")

-- The branches on the name.
unfoldable pub comment_calls : Text → ℕ → Text → Text → List Report
unfolding named_calls anonymous_calls
comment_calls filename linenum [] line = anonymous_calls filename linenum line
comment_calls filename linenum (c ∷ cs) line = named_calls filename linenum (c ∷ cs) line

-- A namespace of fewer than ten lines with no comment at its end is let pass.
pub short_without_comment : ℕ → ℕ → Text → Bool
unfolding matches
short_without_comment linenum start line =
    ltb linenum (start + 10) && not (matches (end_comment_re word_boundary) line)

-- _NamespaceInfo.CheckEnd
unfoldable pub check_end_namespace : Text → CleansedLines → ℕ → ℕ → Text → List Report
unfolding comment_calls short_without_comment
check_end_namespace filename clean linenum start name =
    let line = get_or clean.raw_lines linenum [] in
    if short_without_comment linenum start line
    then []
    else comment_calls filename linenum name line

-- CheckEnd
unfoldable pub check_end : Text → CleansedLines → ℕ → Block → List Report
unfolding check_end_class check_end_namespace
check_end filename clean linenum b = elim b.kind [
  | class_block c ↦ check_end_class filename clean linenum b.starting_linenum c
  | namespace_block name ↦ check_end_namespace filename clean linenum b.starting_linenum name
  | _ ↦ []
]

abbrev pub incomplete_calls : Text → Block → List Report
incomplete_calls filename b = elim b.kind [
  | class_block c ↦
      say filename b.starting_linenum "build/class" 5
        (codes "Failed to find complete declaration of class " ++ c.name)
  | namespace_block name ↦
      say filename b.starting_linenum "build/namespaces" 5
        (codes "Failed to find complete declaration of namespace " ++ name)
  | _ ↦ []
]

-- The loop of CheckCompletedBlocks, from the outermost block on.
unfoldable pub completed_calls : Text → List Block → List Report
completed_calls filename [] = []
completed_calls filename (b ∷ bs) = incomplete_calls filename b ++ completed_calls filename bs

-- CheckCompletedBlocks
unfoldable pub check_completed_blocks : Text → NestingState → List Report
unfolding completed_calls
check_completed_blocks filename s = completed_calls filename (reverse s.stack)
