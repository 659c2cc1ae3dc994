-- ===== src/Checks/Nonstandard.antt =====
-- build_support/cpplint.py: CheckForNonStandardConstructs.
use concurrency_tcp_server.Base.{
  Bool, List, Option, Text, [], codes, count, false, get_or, if◌then◌else◌, leb, length, ltb, none,
  not, replace, some, split, strip, text_eq, true, ℕ, ◌&&◌, ◌++◌, ◌+◌, ◌-◌, ◌==◌, ◌||◌, ◌∷◌,
}
use concurrency_tcp_server.Regex.{
  Regex, group, group_text, match_re, matches, searches, star, word_boundary,
}
use concurrency_tcp_server.Regex.Forms.{
  any_lit, lit, literal, none_of, opt, plus, space, spaces, word, ◌∣∣◌, ◌⊙◌,
}
use concurrency_tcp_server.Lines.Cleansed.{CleansedLines}
use concurrency_tcp_server.Lines.RawStrings.{group_or_empty}
use concurrency_tcp_server.Lint.Report.{Report, say, say_if}
use concurrency_tcp_server.Nesting.Block.{Block, NestingState, class_block, innermost_class}
use concurrency_tcp_server.Checks.Places.{contains}
use concurrency_tcp_server.Checks.Formats.{format_calls, declaration_calls}

last_part : Text → List Text → Text
last_part d [] = d
last_part d (w ∷ ws) = last_part w ws

-- name.split('::')[-1]
unfoldable pub base_classname : Text → Text
unfolding replace split last_part
base_classname name = last_part [] (split b'\n' (replace (codes "::") (codes "\n") name))

-- \s+(?:(?:inline|constexpr)\s+)*(explicit\s+)?(?:(?:inline|constexpr)\s+)*%s\s*\(((?:[^()]|\([^()]*\))*)\)
abbrev pub constructor_re : Text → Regex
constructor_re base =
    plus space
    ⊙ star (any_lit (codes "inline" ∷ codes "constexpr" ∷ []) ⊙ plus space)
    ⊙ opt (group 1 (lit "explicit" ⊙ plus space))
    ⊙ star (any_lit (codes "inline" ∷ codes "constexpr" ∷ []) ⊙ plus space)
    ⊙ literal base
    ⊙ spaces
    ⊙ lit "("
    ⊙ group 2 (star (none_of "()" ∣∣ (lit "(" ⊙ star (none_of "()") ⊙ lit ")")))
    ⊙ lit ")"

-- The test of the inner loop that joins arguments: an argument that opens more brackets than it closes.
abbrev pub is_partial : Text → Bool
is_partial arg =
    ltb (count (codes ">") arg) (count (codes "<") arg)
    || ltb (count (codes ")") arg) (count (codes "(") arg)

-- The loops that join arguments. `none` is the IndexError where no argument is left to join.
unfoldable pub collapse_from : Text → List Text → Option (List Text)
unfolding count
collapse_from arg [] = if is_partial arg then none else some (arg ∷ [])
collapse_from arg (next ∷ rest) = elim (is_partial arg) [
  | true ↦ collapse_from (arg ++ codes "," ++ next) rest
  | false ↦ elim (collapse_from next rest) [ none ↦ none | some args ↦ some (arg ∷ args) ]
]

unfoldable pub collapse_args : List Text → Option (List Text)
unfolding collapse_from
collapse_args [] = some []
collapse_args (arg ∷ rest) = collapse_from arg rest

-- The arguments of the constructor, as group 2 gives them.
abbrev pub constructor_args : Text → List Text
constructor_args [] = []
constructor_args (c ∷ text) = split b',' (c ∷ text)

-- [arg for arg in constructor_args if part in arg], which is only measured
unfoldable pub count_containing : Text → List Text → ℕ
unfolding contains
count_containing part [] = 0
count_containing part (arg ∷ args) =
    (if contains part arg then 1 else 0) + count_containing part args

unfoldable pub noarg_constructor : List Text → Bool
unfolding strip text_eq
noarg_constructor [] = true
noarg_constructor (arg ∷ []) = text_eq (strip arg) (codes "void")
noarg_constructor (a ∷ b ∷ args) = false

-- The three ways to be callable with one argument.
unfoldable pub onearg_constructor : List Text → Bool
unfolding noarg_constructor count_containing
onearg_constructor args =
    let n = length args in
    let named = not (noarg_constructor args) in
    n == 1 && named
    || leb 1 n && named && leb (n - 1) (count_containing (codes "=") args)
    || leb n 2 && leb 1 (count_containing (codes "&&...") args)

abbrev first_arg : List Text → Text
first_arg [] = []
first_arg (arg ∷ _) = arg

-- \bstd\s*::\s*initializer_list\b
abbrev pub initializer_list_re : Regex
initializer_list_re =
    word_boundary ⊙ lit "std" ⊙ spaces ⊙ lit "::" ⊙ spaces ⊙ lit "initializer_list" ⊙ word_boundary

-- (const\s+)?%s(\s*<[^>]*>)?(\s+const)?\s*(?:<\w+>\s*)?&
abbrev pub copy_re : Text → Regex
copy_re base =
    opt (group 1 (lit "const" ⊙ plus space))
    ⊙ literal base
    ⊙ opt (group 2 (spaces ⊙ lit "<" ⊙ star (none_of ">") ⊙ lit ">"))
    ⊙ opt (group 3 (plus space ⊙ lit "const"))
    ⊙ spaces
    ⊙ opt (lit "<" ⊙ plus word ⊙ lit ">" ⊙ spaces)
    ⊙ lit "&"

-- The reports on a constructor, with its arguments collapsed.
unfoldable pub explicit_calls : Text → ℕ → Text → Bool → List Text → List Report
unfolding onearg_constructor searches matches
explicit_calls filename linenum base is_marked_explicit args =
    let one = onearg_constructor args in
    let from_list = one && searches initializer_list_re (first_arg args) in
    let copies = one && matches (copy_re base) (strip (first_arg args)) in
    if not is_marked_explicit && one && not from_list && not copies
    then if leb 1 (count_containing (codes "=") args)
        || leb 1 (count_containing (codes "&&...") args)
      then say filename linenum "runtime/explicit" 5
          (codes "Constructors callable with one argument should be marked explicit.")
      else say filename linenum "runtime/explicit" 5
          (codes "Single-parameter constructors should be marked explicit.")
    else if is_marked_explicit && not one
    then say_if (noarg_constructor args) (
        say filename linenum "runtime/explicit" 5
          (codes "Zero-parameter constructors should not be marked explicit."))
    else []

-- The part for classes: the constructor on the line of the innermost class, whose brace was seen. An
-- IndexError in the loop over arguments is `none`.
unfoldable pub constructor_calls : Text → ℕ → Text → Text → Option (List Report)
unfolding match_re group_text explicit_calls collapse_args base_classname
constructor_calls filename linenum name line =
    let base = base_classname name in
    elim (match_re (constructor_re base) line) [
      | none ↦ some []
      | some m ↦ elim (collapse_args (constructor_args (group_or_empty 2 m))) [
        | none ↦ none
        | some args ↦
            some (explicit_calls filename linenum base (leb 1 (length (group_or_empty 1 m))) args)
      ]
    ]

class_calls : Text → ℕ → Text → Option Block → Option (List Report)
unfolding constructor_calls
class_calls filename linenum line none = some []
class_calls filename linenum line (some b) = elim b.kind [
  | class_block c ↦
      if b.seen_open_brace then constructor_calls filename linenum c.name line else some []
  | _ ↦ some []
]

-- CheckForNonStandardConstructs
unfoldable pub check_for_non_standard_constructs :
    Text → CleansedLines → ℕ → NestingState → Option (List Report)
unfolding format_calls declaration_calls class_calls innermost_class
check_for_non_standard_constructs filename clean linenum s =
    let line = get_or clean.elided linenum [] in
    elim (class_calls filename linenum line (innermost_class s.stack)) [
      | none ↦ none
      | some calls ↦ some (
          format_calls filename linenum (get_or clean.lines linenum [])
          ++ declaration_calls filename linenum line
          ++ calls)
    ]
