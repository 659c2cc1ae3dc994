-- ===== src/Include/Order.antt =====
-- What CheckNextIncludeOrder of build_support/cpplint.py accepts, and how its state moves.
use concurrency_tcp_server.Base.{
  ◌==◌, ℕ, ◌≤◌, ◌≡◌, refl, ◌∙◌, Bool, true, false, not, ◌&&◌, ◌||◌, none, some, List, [], ◌∷◌, Text,
  if◌then◌else◌, arith, all,
}
use concurrency_tcp_server.Include.{
  HeaderType, c_sys_header, cpp_sys_header, likely_my_header, possible_my_header, other_header,
  IncludeState, new_include_state, next_section, check_next_include_order,
}

-- The headers of a file, checked one after another: no message is returned.
abbrev pub is_empty : Text → Bool
is_empty [] = true
is_empty (_ ∷ _) = false

pub all_accepted : List HeaderType → IncludeState → Bool
all_accepted [] s = true
all_accepted (h ∷ hs) s =
    let rest = all_accepted hs (check_next_include_order h s).1 in
    is_empty (check_next_include_order h s).0 && rest

abbrev is_c_sys : HeaderType → Bool
is_c_sys c_sys_header = true
is_c_sys _ = false

abbrev is_cpp_sys : HeaderType → Bool
is_cpp_sys cpp_sys_header = true
is_cpp_sys _ = false

abbrev is_my : HeaderType → Bool
is_my likely_my_header = true
is_my possible_my_header = true
is_my _ = false

abbrev is_system : HeaderType → Bool
is_system h = is_c_sys h || is_cpp_sys h

-- The list without the longest beginning that satisfies the test.
abbrev skip : (HeaderType → Bool) → List HeaderType → List HeaderType
skip f [] = []
skip f (h ∷ hs) = if f h then skip f hs else h ∷ hs

-- Own headers, then C system headers, then C++ system headers, then no system header any more.
abbrev pub in_order : List HeaderType → Bool
in_order hs = all (λ h. not (is_system h)) (skip is_cpp_sys (skip is_c_sys (skip is_my hs)))

passes : ℕ → List HeaderType → Bool
passes section [] = true
passes section (h ∷ hs) = elim (next_section h section) [
  | none ↦ false
  | some section' ↦ passes section' hs
]

passes_other : (hs : List HeaderType) → passes 4 hs ≡ all (λ h. not (is_system h)) hs
unfolding passes next_section
passes_other [] = refl
passes_other (c_sys_header ∷ hs) = refl
passes_other (cpp_sys_header ∷ hs) = refl
passes_other (h ∷ hs) = passes_other hs

passes_cpp :
    (hs : List HeaderType) → passes 3 hs ≡ all (λ h. not (is_system h)) (skip is_cpp_sys hs)
unfolding passes next_section
passes_cpp [] = refl
passes_cpp (c_sys_header ∷ hs) = refl
passes_cpp (cpp_sys_header ∷ hs) = passes_cpp hs
passes_cpp (h ∷ hs) = passes_other hs

passes_c :
    (hs : List HeaderType)
    → passes 2 hs ≡ all (λ h. not (is_system h)) (skip is_cpp_sys (skip is_c_sys hs))
unfolding passes next_section
passes_c [] = refl
passes_c (c_sys_header ∷ hs) = passes_c hs
passes_c (cpp_sys_header ∷ hs) = passes_cpp hs
passes_c (h ∷ hs) = passes_other hs

passes_my : (hs : List HeaderType) → passes 1 hs ≡ in_order hs
unfolding passes next_section
passes_my [] = refl
passes_my (c_sys_header ∷ hs) = passes_c hs
passes_my (cpp_sys_header ∷ hs) = passes_cpp hs
passes_my (other_header ∷ hs) = passes_other hs
passes_my (h ∷ hs) = passes_my hs

passes_initial : (hs : List HeaderType) → passes 0 hs ≡ in_order hs
unfolding passes next_section
passes_initial [] = refl
passes_initial (c_sys_header ∷ hs) = passes_c hs
passes_initial (cpp_sys_header ∷ hs) = passes_cpp hs
passes_initial (other_header ∷ hs) = passes_other hs
passes_initial (h ∷ hs) = passes_my hs

all_accepted-passes :
    (hs : List HeaderType) (s : IncludeState) → all_accepted hs s ≡ passes s.section hs
unfolding all_accepted passes check_next_include_order
all_accepted-passes [] s = refl
all_accepted-passes (h ∷ hs) s =
    ground (arith, all_accepted-passes hs (check_next_include_order h s).1)

-- The headers of a file pass with no message exactly if own headers come first, then the C system
-- headers, then the C++ system headers, and no system header after that.
pub all_accepted-in_order : (hs : List HeaderType) → all_accepted hs new_include_state ≡ in_order hs
unfolding new_include_state
all_accepted-in_order hs = all_accepted-passes hs new_include_state ∙ passes_initial hs

-- A header moves the section forward or leaves it, and never past the last one; a message leaves the
-- section as it is; the remembered header is kept if there is no message and the section stays, and
-- is forgotten otherwise; the list of includes is not touched.
pub record Moves (s t : IncludeState) (message : Text) : Type 0 where
  pub forward : s.section ≤ t.section
  pub bounded : t.section ≤ 4
  pub on_message : t.section ≡ (if is_empty message then t.section else s.section)
  pub last_is :
      t.last_header ≡ (if is_empty message && s.section == t.section then s.last_header else [])
  pub list_kept : t.include_list ≡ s.include_list

-- From a section up to the last, CheckNextIncludeOrder makes such a move, on every branch.
pub check_next_include_order-Moves :
    (h : HeaderType) (s : IncludeState)
    → s.section ≤ 4
    → Moves s (check_next_include_order h s).1 (check_next_include_order h s).0
unfolding check_next_include_order
check_next_include_order-Moves c_sys_header s b = ground arith
check_next_include_order-Moves cpp_sys_header s b = ground arith
check_next_include_order-Moves likely_my_header s b = ground arith
check_next_include_order-Moves possible_my_header s b = ground arith
check_next_include_order-Moves other_header s b = ground arith
