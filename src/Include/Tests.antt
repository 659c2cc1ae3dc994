-- ===== src/Include/Tests.antt =====
-- The order of includes on concrete headers, and instances of the theorems about it.
use concurrency_tcp_server.Base.{
  ◌≡◌, ◌≢◌, refl, true, inl, some, none, List, [], ◌∷◌, codes, arith, if◌then◌else◌, text_eq, lower,
  replace, all,
}
use concurrency_tcp_server.Include.{
  HeaderType, c_sys_header, cpp_sys_header, likely_my_header, other_header, IncludeState,
  new_include_state, check_next_include_order, canonicalize_alphabetical_order,
  is_in_alphabetical_order, find_header, add_include, reset_section,
}
use concurrency_tcp_server.Include.Order.{
  all_accepted, all_accepted-in_order, Moves, check_next_include_order-Moves,
}
use concurrency_tcp_server.Include.Alphabet.{is_canonical, canonicalize_idem, in_order_after_change}
use concurrency_tcp_server.Include.History.{
  or_else, outer, find_header-add_include, find_header-reset_section,
}

abbrev usual : List HeaderType
usual = likely_my_header ∷ c_sys_header ∷ cpp_sys_header ∷ other_header ∷ []

abbrev late_c : IncludeState
late_c = record { include_list = [] ∷ []; section = 3; last_header = codes "string" }

late_message :
    (check_next_include_order c_sys_header late_c).0
    ≡ codes "Found C system header after C++ system header"
unfolding check_next_include_order
late_message = refl

canonical_path : canonicalize_alphabetical_order (codes "Foo/my-bar-inl.h") ≡ codes "foo/my_bar.h"
unfolding canonicalize_alphabetical_order lower replace
canonical_path = refl

all_accepted-in_order_example : all_accepted usual new_include_state ≡ true
all_accepted-in_order_example = all_accepted-in_order usual

check_next_include_order-Moves_example :
    Moves late_c
      (check_next_include_order c_sys_header late_c).1
      (check_next_include_order c_sys_header late_c).0
check_next_include_order-Moves_example =
    check_next_include_order-Moves c_sys_header late_c (omega arith)

late-ne-nil : (check_next_include_order c_sys_header late_c).0 ≢ []
unfolding check_next_include_order
late-ne-nil e = cc

abbrev seen : IncludeState
seen = record {
  include_list = ((codes "a.h", 3) ∷ []) ∷ ((codes "b.h", 5) ∷ []) ∷ [];
  section = 4;
  last_header = codes "b.h";
}

seen-ne-nil : seen.include_list ≢ []
seen-ne-nil e = cc

canonicalize_idem_example :
    (canonicalize_alphabetical_order (canonicalize_alphabetical_order (codes "a-B.h"))
      ≡ canonicalize_alphabetical_order (codes "a-B.h"))
    × (all is_canonical (canonicalize_alphabetical_order (codes "a-B.h")) ≡ true)
canonicalize_idem_example = canonicalize_idem (codes "a-B.h")

find_header-add_include_example :
    find_header (codes "c.h") (add_include (codes "c.h") 9 seen)
    ≡ or_else
        (find_header (codes "c.h") seen)
        (if text_eq (codes "c.h") (codes "c.h") then some 9 else none)
find_header-add_include_example =
    find_header-add_include (codes "c.h") (codes "c.h") 9 seen seen-ne-nil

find_header-reset_section_example :
    (find_header (codes "b.h") (reset_section (codes "if") seen) ≡ find_header (codes "b.h") seen)
    × (find_header (codes "b.h") (reset_section (codes "else") seen)
        ≡ find_header (codes "b.h") (record seen { include_list = outer seen.include_list }))
    × (find_header (codes "b.h") (reset_section (codes "else") (reset_section (codes "if") seen))
        ≡ find_header (codes "b.h") seen)
find_header-reset_section_example = find_header-reset_section (codes "b.h") seen

in_order_after_change_example :
    is_in_alphabetical_order [] 3 (codes "a.h") (check_next_include_order c_sys_header late_c).1
    ≡ true
in_order_after_change_example =
    in_order_after_change c_sys_header late_c [] 3 (codes "a.h") (omega arith) (inl late-ne-nil)
