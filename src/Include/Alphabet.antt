-- ===== src/Include/Alphabet.antt =====
-- CanonicalizeAlphabeticalOrder and IsInAlphabeticalOrder of build_support/cpplint.py.
use concurrency_tcp_server.Base.{
  if◌then◌else◌, ◌∙◌, ℕ, ◌≡◌, ◌≢◌, ◌≤◌, refl, Bool, true, not, ◌&&◌, ◌⊎◌, inl, inr, List, [], ◌∷◌,
  Text, codes, ◌==◌, arith, all, map, replace, replace_go, lower, to_lower, is_upper,
}
use concurrency_tcp_server.Include.{
  HeaderType, IncludeState, canonicalize_alphabetical_order, is_in_alphabetical_order,
  check_next_include_order,
}
use concurrency_tcp_server.Include.Order.{is_empty, check_next_include_order-Moves}

abbrev pub no_hyphen : ℕ → Bool
no_hyphen c = not (c == b'-')

-- Neither a hyphen nor a capital letter.
abbrev pub is_canonical : ℕ → Bool
is_canonical c = no_hyphen c && not (is_upper c)

-- With no hyphen in the text, a pattern that begins with one is replaced nowhere.
replace-no_hyphen : (p new s : Text) → all no_hyphen s ≡ true → replace_go 0 (b'-' ∷ p) new s ≡ s
unfolding replace_go
replace-no_hyphen p new [] h = refl
replace-no_hyphen p new (c ∷ s) h = ground (arith, replace-no_hyphen p new s)

no_hyphen-replace : (s : Text) → all no_hyphen (replace_go 0 (b'-' ∷ []) (b'_' ∷ []) s) ≡ true
unfolding replace_go
no_hyphen-replace [] = refl
no_hyphen-replace (c ∷ s) = ground (arith, no_hyphen-replace s)

is_canonical-lower : (s : Text) → all no_hyphen s ≡ true → all is_canonical (map to_lower s) ≡ true
unfolding to_lower
is_canonical-lower [] h = refl
is_canonical-lower (c ∷ s) h = ground (arith, is_canonical-lower s)

lower_canonical : (s : Text) → all is_canonical s ≡ true → map to_lower s ≡ s
unfolding to_lower
lower_canonical [] h = refl
lower_canonical (c ∷ s) h = ground (arith, lower_canonical s)

no_hyphen_canonical : (s : Text) → all is_canonical s ≡ true → all no_hyphen s ≡ true
no_hyphen_canonical [] h = refl
no_hyphen_canonical (c ∷ s) h = ground (arith, no_hyphen_canonical s)

-- Canonical paths have no hyphen and no capital letter.
pub canonicalize-is_canonical :
    (path : Text) → all is_canonical (canonicalize_alphabetical_order path) ≡ true
unfolding canonicalize_alphabetical_order lower replace
canonicalize-is_canonical path =
    let stem = replace_go 0 (codes "-inl.h") (codes ".h") path in
    is_canonical-lower (replace_go 0 (codes "-") (codes "_") stem) (no_hyphen-replace stem)

canonicalize_canonical :
    (s : Text) → all is_canonical s ≡ true → canonicalize_alphabetical_order s ≡ s
unfolding canonicalize_alphabetical_order lower replace
canonicalize_canonical s h =
    let plain = no_hyphen_canonical s h in
    rw
      (
        replace-no_hyphen (codes "inl.h") (codes ".h") s plain,
        replace-no_hyphen [] (codes "_") s plain,
      )
      (lower_canonical s h)

-- To canonicalize a path twice is to canonicalize it once, and the result has no hyphen and no capital
-- letter.
pub canonicalize_idem :
    (path : Text)
    → (canonicalize_alphabetical_order (canonicalize_alphabetical_order path)
        ≡ canonicalize_alphabetical_order path)
      × (all is_canonical (canonicalize_alphabetical_order path) ≡ true)
canonicalize_idem path =
    (canonicalize_canonical _ (canonicalize-is_canonical path), canonicalize-is_canonical path)

first_in_order :
    (elided : List Text) (linenum : ℕ) (path : Text) (s : IncludeState)
    → s.last_header ≡ []
    → is_in_alphabetical_order elided linenum path s ≡ true
unfolding is_in_alphabetical_order
first_in_order elided linenum path s h = rw h

forgotten :
    (message last : Text) (m n : ℕ)
    → (message ≢ []) ⊎ (m ≢ n)
    → (if is_empty message && m == n then last else []) ≡ []
forgotten [] last m n (inl d) = absurd (d refl)
forgotten [] last m n (inr d) = ground arith
forgotten (c ∷ message) last m n d = refl

-- The first header of a section is always in alphabetical order, whatever stood before it: so is the
-- header that made CheckNextIncludeOrder change the section or return a message.
pub in_order_after_change :
    (h : HeaderType) (s : IncludeState) (elided : List Text) (linenum : ℕ) (path : Text)
    → s.section ≤ 4
    → ((check_next_include_order h s).0 ≢ [])
      ⊎ (s.section ≢ (check_next_include_order h s).1.section)
    → is_in_alphabetical_order elided linenum path (check_next_include_order h s).1 ≡ true
in_order_after_change h s elided linenum path b d =
    first_in_order elided linenum path _
      ((check_next_include_order-Moves h s b).last_is ∙ forgotten _ s.last_header _ _ d)
