-- ===== src/Include.antt =====
-- build_support/cpplint.py: the class _IncludeState, the order in which a file includes its headers.
pub mod Order
pub mod Alphabet
pub mod History
mod Tests
use concurrency_tcp_server.Base.{
  ℕ, zero, suc, ◌+◌, ◌-◌, Bool, true, false, not, ◌&&◌, Option, none, some, List, [], ◌∷◌, ◌++◌,
  Text, String, ◌==◌, leb, if◌then◌else◌, codes, text_eq, text_lt, one_of, replace, lower, get_or,
}
use concurrency_tcp_server.Regex.{bol, word_boundary, matches}
use concurrency_tcp_server.Regex.Forms.{◌⊙◌, lit, spaces}

-- _C_SYS_HEADER to _OTHER_HEADER
pub data HeaderType : Type 0 where
  c_sys_header cpp_sys_header likely_my_header possible_my_header other_header : HeaderType

abbrev pub initial_section : ℕ
initial_section = 0

abbrev pub my_h_section : ℕ
my_h_section = 1

abbrev pub c_section : ℕ
c_section = 2

abbrev pub cpp_section : ℕ
cpp_section = 3

abbrev pub other_h_section : ℕ
other_h_section = 4

type_name : HeaderType → Text
type_name c_sys_header = codes "C system header"
type_name cpp_sys_header = codes "C++ system header"
type_name likely_my_header = codes "header this file implements"
type_name possible_my_header = codes "header this file may implement"
type_name other_header = codes "other header"

section_names : List Text
section_names =
    codes "... nothing. (This can't be an error.)"
    ∷ codes "a header this file implements"
    ∷ codes "C system header"
    ∷ codes "C++ system header"
    ∷ codes "other header"
    ∷ []

pub record IncludeState : Type 0 where
  pub include_list : List (List (Text × ℕ))
  pub section : ℕ
  pub last_header : Text

-- include_list[-1] = v
abbrev set_last : List (List (Text × ℕ)) → List (Text × ℕ) → List (List (Text × ℕ))
set_last [] v = []
set_last (x ∷ []) v = v ∷ []
set_last (x ∷ y ∷ xs) v = x ∷ set_last (y ∷ xs) v

abbrev update_list : Text → List (List (Text × ℕ)) → List (List (Text × ℕ))
update_list directive list =
    if one_of directive (codes "if" ∷ codes "ifdef" ∷ codes "ifndef" ∷ [])
    then list ++ ([] ∷ [])
    else if one_of directive (codes "else" ∷ codes "elif" ∷ [])
    then set_last list []
    else list

-- ResetSection
unfoldable pub reset_section : Text → IncludeState → IncludeState
unfolding text_eq
reset_section directive s = record {
  include_list = update_list directive s.include_list;
  section = initial_section;
  last_header = [];
}

-- __init__, which calls ResetSection('')
unfoldable pub new_include_state : IncludeState
unfolding reset_section
new_include_state =
    reset_section []
      (record { include_list = [] ∷ []; section = initial_section; last_header = [] })

find_in_section : Text → List (Text × ℕ) → Option ℕ
find_in_section header [] = none
find_in_section header ((f, line) ∷ rest) =
    if text_eq f header then some line else find_in_section header rest

find_in_list : Text → List (List (Text × ℕ)) → Option ℕ
unfolding find_in_section
find_in_list header [] = none
find_in_list header (section ∷ rest) = elim (find_in_section header section) [
  | some line ↦ some line
  | none ↦ find_in_list header rest
]

-- FindHeader, with `none` for -1
unfoldable pub find_header : Text → IncludeState → Option ℕ
unfolding find_in_list
find_header header s = find_in_list header s.include_list

-- SetLastHeader
abbrev pub set_last_header : Text → IncludeState → IncludeState
set_last_header header_path s = record s { last_header = header_path }

-- include_list[-1].append(entry)
append_last : List (List (Text × ℕ)) → Text × ℕ → List (List (Text × ℕ))
append_last [] e = []
append_last (x ∷ []) e = (x ++ (e ∷ [])) ∷ []
append_last (x ∷ y ∷ xs) e = x ∷ append_last (y ∷ xs) e

-- include_state.include_list[-1].append((include, linenum)) of CheckIncludeLine
unfoldable pub add_include : Text → ℕ → IncludeState → IncludeState
unfolding append_last
add_include include linenum s = record s {
  include_list = append_last s.include_list (include, linenum);
}

-- CanonicalizeAlphabeticalOrder
unfoldable pub canonicalize_alphabetical_order : Text → Text
canonicalize_alphabetical_order header_path =
    lower (replace (codes "-") (codes "_") (replace (codes "-inl.h") (codes ".h") header_path))

-- Match(r'^\s*#\s*include\b', line)
unfoldable pub is_include_line : Text → Bool
unfolding matches
is_include_line line =
    matches (bol ⊙ spaces ⊙ lit "#" ⊙ spaces ⊙ lit "include" ⊙ word_boundary) line

-- clean_lines.elided[linenum - 1]; the index -1 is the last line
get_last : Text → List Text → Text
get_last x [] = x
get_last x (y ∷ ys) = get_last y ys

line_above : List Text → ℕ → Text
unfolding get_last
line_above [] linenum = []
line_above (x ∷ xs) zero = get_last x xs
line_above (x ∷ xs) (suc linenum) = get_or (x ∷ xs) linenum []

-- IsInAlphabeticalOrder
unfoldable pub is_in_alphabetical_order : List Text → ℕ → Text → IncludeState → Bool
unfolding is_include_line text_lt line_above
is_in_alphabetical_order elided linenum header_path s =
    not (text_lt header_path s.last_header && is_include_line (line_above elided linenum))

-- The branches of CheckNextIncludeOrder: the new section, or none where the message is returned.
unfoldable pub next_section : HeaderType → ℕ → Option ℕ
next_section c_sys_header section = if leb section c_section then some c_section else none
next_section cpp_sys_header section = if leb section cpp_section then some cpp_section else none
next_section likely_my_header section =
    some (if leb section my_h_section then my_h_section else other_h_section)
next_section possible_my_header section =
    some (if leb section my_h_section then my_h_section else other_h_section)
next_section other_header section = some other_h_section

order_message : HeaderType → ℕ → Text
order_message header_type section =
    codes "Found "
    ++ (type_name header_type ++ (codes " after " ++ get_or section_names section []))

-- CheckNextIncludeOrder: the message, empty if the order is right, and the state.
unfoldable pub check_next_include_order : HeaderType → IncludeState → Text × IncludeState
unfolding next_section order_message type_name section_names
check_next_include_order header_type s = elim (next_section header_type s.section) [
  | none ↦ (order_message header_type s.section, record s { last_header = [] })
  | some section ↦ (
    [],
    record s {
      section = section;
      last_header = if s.section == section then s.last_header else [];
    },
  )
]
