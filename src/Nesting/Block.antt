-- ===== src/Nesting/Block.antt =====
-- build_support/cpplint.py: _BlockInfo and its subclasses, and the fields of NestingState.
use concurrency_tcp_server.Base.{
  ℕ, ◌+◌, Bool, true, false, Option, none, some, List, [], ◌∷◌, Text, ◌==◌, if◌then◌else◌, codes,
  text_eq, count, drop, get_or, length, or_default,
}
use concurrency_tcp_server.Regex.{Regex, bol, group, star, match_re, group_text}
use concurrency_tcp_server.Regex.Forms.{◌⊙◌, lit, non_space}
use concurrency_tcp_server.Lines.Cleansed.{CleansedLines}
use concurrency_tcp_server.Lines.RawStrings.{group_or_empty}

-- _NO_ASM to _BLOCK_ASM
pub data Asm : Type 0 where
  no_asm inside_asm end_asm block_asm : Asm

pub record ClassInfo : Type 0 where
  pub name : Text
  pub is_derived : Bool
  pub access : Text
  pub is_struct : Bool
  pub class_indent : ℕ
  pub last_line : ℕ

-- The class of a block, with the fields that it adds.
pub data Kind : Type 0 where
  plain_block : Kind
  extern_c : Kind
  class_block : ClassInfo → Kind
  namespace_block : Text → Kind

-- open_parentheses, which may be negative, is parens_opened - parens_closed.
pub record Block : Type 0 where
  pub starting_linenum : ℕ
  pub seen_open_brace : Bool
  pub parens_opened : ℕ
  pub parens_closed : ℕ
  pub inline_asm : Asm
  pub check_namespace_indentation : Bool
  pub kind : Kind

-- _BlockInfo.__init__
abbrev pub new_block : ℕ → Bool → Block
new_block linenum seen = record {
  starting_linenum = linenum;
  seen_open_brace = seen;
  parens_opened = 0;
  parens_closed = 0;
  inline_asm = no_asm;
  check_namespace_indentation = false;
  kind = plain_block;
}

-- _ExternCInfo.__init__
abbrev pub new_extern_c : ℕ → Block
new_extern_c linenum = record (new_block linenum true) { kind = extern_c }

-- _NamespaceInfo.__init__; a name that did not match is ''
abbrev pub new_namespace : Option Text → ℕ → Block
new_namespace name linenum = record (new_block linenum false) {
  kind = namespace_block (or_default [] name);
  check_namespace_indentation = true;
}

-- ^( *)\S
abbrev pub indent_re : Regex
indent_re = bol ⊙ group 1 (star (lit " ")) ⊙ non_space

-- GetIndentLevel
unfoldable pub get_indent_level : Text → ℕ
unfolding match_re group_text
get_indent_level line = elim (match_re indent_re line) [
  | none ↦ 0
  | some m ↦ length (group_or_empty 1 m)
]

-- The first line, from line i on, where as many braces were closed as opened; 0 if there is none.
unfoldable pub find_last_line : ℕ → ℕ → ℕ → List Text → ℕ
unfolding count
find_last_line i opened closed [] = 0
find_last_line i opened closed (line ∷ rest) =
    let o = opened + count (codes "{") line in
    let c = closed + count (codes "}") line in
    let later = find_last_line (i + 1) o c rest in if o == c then i else later

-- _ClassInfo.__init__
unfoldable pub new_class : Text → Text → CleansedLines → ℕ → Block
unfolding get_indent_level find_last_line
new_class name class_or_struct clean linenum =
    let is_struct = text_eq class_or_struct (codes "struct") in
    record (new_block linenum false) {
      kind = class_block (record {
        name = name;
        is_derived = false;
        access = if is_struct then codes "public" else codes "private";
        is_struct = is_struct;
        class_indent = get_indent_level (get_or clean.raw_lines linenum []);
        last_line = find_last_line linenum 0 0 (drop linenum clean.elided);
      });
      check_namespace_indentation = true;
    }

-- IsBlockInfo
abbrev pub is_block_info : Block → Bool
is_block_info b = elim b.kind [ plain_block ↦ true | _ ↦ false ]

abbrev pub is_class : Block → Bool
is_class b = elim b.kind [ class_block _ ↦ true | _ ↦ false ]

abbrev pub is_namespace : Block → Bool
is_namespace b = elim b.kind [ namespace_block _ ↦ true | _ ↦ false ]

abbrev pub is_extern_c : Block → Bool
is_extern_c b = elim b.kind [ extern_c ↦ true | _ ↦ false ]

-- _PreprocessorInfo. Stacks have their top in front.
pub record PreprocessorInfo : Type 0 where
  pub stack_before_if : List Block
  pub stack_before_else : List Block
  pub seen_else : Bool

-- The fields of NestingState. Blocks are values: that two names hold one object is not modelled.
pub record NestingState : Type 0 where
  pub stack : List Block
  pub previous_stack_top : Option Block
  pub pp_stack : List PreprocessorInfo

abbrev pub new_nesting_state : NestingState
new_nesting_state = record { stack = []; previous_stack_top = none; pp_stack = [] }

abbrev on_top : (Block → Bool) → Bool → List Block → Bool
on_top f d [] = d
on_top f d (b ∷ _) = f b

-- SeenOpenBrace
abbrev pub seen_open_brace : NestingState → Bool
seen_open_brace s = on_top (λ b. b.seen_open_brace) true s.stack

-- InNamespaceBody, InExternC, InClassDeclaration, InAsmBlock
abbrev pub in_namespace_body : NestingState → Bool
in_namespace_body s = on_top is_namespace false s.stack

abbrev pub in_extern_c : NestingState → Bool
in_extern_c s = on_top is_extern_c false s.stack

abbrev pub in_class_declaration : NestingState → Bool
in_class_declaration s = on_top is_class false s.stack

abbrev pub in_asm_block : NestingState → Bool
in_asm_block s = on_top (λ b. elim b.inline_asm [ no_asm ↦ false | _ ↦ true ]) false s.stack

-- InnermostClass
unfoldable pub innermost_class : List Block → Option Block
innermost_class [] = none
innermost_class (b ∷ bs) = if is_class b then some b else innermost_class bs
