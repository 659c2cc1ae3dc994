-- ===== src/Expression/Grammar.antt =====
-- Bracketed texts, independent of the search in build_support/cpplint.py: a round, square or curly
-- bracket is closed by its own kind, and every other character stands for itself.
use concurrency_tcp_server.Base.{
  ℕ, ◌≡◌, true, false, List, [], ◌∷◌, ◌++◌, Text, ◌==◌, Bool, codes, any, arith, if◌then◌else◌,
}
use concurrency_tcp_server.Expression.{is_opener, is_closer, closes}

abbrev pub is_left : ℕ → Bool
is_left c = any (◌==◌ c) (codes "([{")

abbrev pub is_right : ℕ → Bool
is_right c = any (◌==◌ c) (codes ")]}")

abbrev pub is_pair : ℕ → ℕ → Bool
is_pair o c =
    if o == b'('
    then c == b')'
    else if o == b'['
    then c == b']'
    else if o == b'{'
    then c == b'}'
    else false

pub is_left-opener : (c : ℕ) → is_left c ≡ is_opener c
is_left-opener c = ground arith

pub is_right-closer : (c : ℕ) → is_right c ≡ is_closer c
is_right-closer c = ground arith

pub is_pair-closes : (o c : ℕ) → is_pair o c ≡ closes o c
is_pair-closes o c = ground arith

pub data IsBalanced : Text → Type 0 where
  empty : IsBalanced []
  plain :
      (c : ℕ) {s : Text}
      → is_left c ≡ false
      → is_right c ≡ false
      → IsBalanced s
      → IsBalanced (c ∷ s)
  bracket :
      (o c : ℕ) (s t : Text) {u : Text}
      → is_pair o c ≡ true
      → IsBalanced s
      → IsBalanced t
      → u ≡ s ++ (c ∷ t)
      → IsBalanced (o ∷ u)

-- A text that closes the open brackets of a stack, the last of them with its last character.
pub data Closes : List ℕ → Text → Type 0 where
  done : Closes [] []
  level :
      (o c : ℕ) (s t : Text) {st : List ℕ} {u : Text}
      → is_pair o c ≡ true
      → IsBalanced s
      → Closes st t
      → u ≡ s ++ (c ∷ t)
      → Closes (o ∷ st) u

-- The brackets on a stack that may also hold `<`.
abbrev pub skeleton : List ℕ → List ℕ
skeleton [] = []
skeleton (x ∷ st) = if x == b'<' then skeleton st else x ∷ skeleton st

-- The lowest entry of the stack, if there is one, is a bracket.
abbrev pub IsRooted : List ℕ → Type 0
IsRooted [] = Unit {0}
IsRooted (x ∷ []) = (x == b'<') ≡ false
IsRooted (x ∷ y ∷ st) = IsRooted (y ∷ st)
