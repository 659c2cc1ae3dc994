-- ===== src/Base/Texts.antt =====
-- Python's `str` as the list of its code points, with the methods that the program calls.
-- Case folding and the word characters are those of ASCII.
use Prim.Native.Char.{code}
use Prim.Native.Nat.{ℕ, zero, suc, ◌+◌, ◌-◌}
use Prim.Native.String.{String}
use mathlib.Core.Bool.{Bool, true, false, ◌&&◌, ◌||◌}
use mathlib.Core.List.{List, [], ◌∷◌, ◌++◌, map, reverse, reverse-append}
use mathlib.Core.Logic.{◌↔◌}
use mathlib.Core.Option
use mathlib.Core.Option.{Option, none, some}
use mathlib.Core.Path.{◌≡◌, refl}
use native.Mathlib.Omega.{arith}
use concurrency_tcp_server.Base.Lists.{length, drop, any}
use concurrency_tcp_server.Base.Tests.{leb, ltb, ◌==◌, if◌then◌else◌}

abbrev pub Text : Type 0
Text = List ℕ

-- A literal.
abbrev pub codes : String → Text
codes String.[] = []
codes (String.◌∷◌ c s) = code c ∷ codes s

-- s == t
unfoldable pub text_eq : Text → Text → Bool
text_eq [] [] = true
text_eq (x ∷ xs) (y ∷ ys) = x == y && text_eq xs ys
text_eq _ _ = false

pub text_eq_iff : (a b : Text) → (text_eq a b ≡ true) ↔ (a ≡ b)
unfolding text_eq
text_eq_iff (x ∷ a) (y ∷ b) = ground (arith, text_eq_iff a b)
text_eq_iff _ _ = ground arith

pub text_eq_refl : (a : Text) → text_eq a a ≡ true
text_eq_refl a = (text_eq_iff a a).1 refl

-- s in texts
abbrev pub one_of : Text → List Text → Bool
one_of s texts = any (text_eq s) texts

abbrev between : ℕ → ℕ → ℕ → Bool
between lo hi c = leb lo c && leb c hi

-- str.isspace of one character
unfoldable pub is_space : ℕ → Bool
is_space c =
    between 9 13 c
    || between 28 32 c
    || c == 133
    || c == 160
    || c == 5760
    || between 8192 8202 c
    || between 8232 8233 c
    || c == 8239
    || c == 8287
    || c == 12288

unfoldable pub is_digit : ℕ → Bool
is_digit c = between b'0' b'9' c

unfoldable pub is_upper : ℕ → Bool
is_upper c = between b'A' b'Z' c

unfoldable pub is_alpha : ℕ → Bool
unfolding is_upper
is_alpha c = is_upper c || between b'a' b'z' c

-- `\w`
unfoldable pub is_word : ℕ → Bool
unfolding is_alpha is_digit
is_word c = is_alpha c || is_digit c || c == b'_'

unfoldable pub to_lower : ℕ → ℕ
unfolding is_upper
to_lower c = if is_upper c then c + 32 else c

-- str.lower
unfoldable pub lower : Text → Text
unfolding to_lower
lower s = map to_lower s

-- s.startswith(p)
unfoldable pub starts_with : Text → Text → Bool
starts_with [] s = true
starts_with (x ∷ p) [] = false
starts_with (x ∷ p) (c ∷ s) = x == c && starts_with p s

-- s.endswith(p)
unfoldable pub ends_with : Text → Text → Bool
unfolding starts_with
ends_with p s = starts_with (reverse p) (reverse s)

-- A text starts with a prefix of it and ends with a suffix of it.
pub starts_with-append : (p s : Text) → starts_with p (p ++ s) ≡ true
unfolding starts_with
starts_with-append [] s = refl
starts_with-append (x ∷ p) s = ground (arith, starts_with-append p s)

pub ends_with-append : (before p : Text) → ends_with p (before ++ p) ≡ true
unfolding ends_with
ends_with-append before p =
    rw (reverse-append before p) (starts_with-append (reverse p) (reverse before))

-- s.find(p), with `none` for -1
unfoldable pub find : Text → Text → Option ℕ
unfolding starts_with
find p [] = if starts_with p [] then some 0 else none
find p (c ∷ s) = if starts_with p (c ∷ s) then some 0 else Option.map suc (find p s)

-- s.find(p, start)
unfoldable pub find_from : ℕ → Text → Text → Option ℕ
unfolding find
find_from start p s =
    if ltb (length s) start then none else Option.map (λ i. start + i) (find p (drop start s))

unfoldable pub lstrip : Text → Text
unfolding is_space
lstrip [] = []
lstrip (c ∷ s) = if is_space c then lstrip s else c ∷ s

unfoldable pub rstrip : Text → Text
unfolding lstrip
rstrip s = reverse (lstrip (reverse s))

unfoldable pub strip : Text → Text
unfolding rstrip
strip s = rstrip (lstrip s)

-- The scan of s.replace(p, new) and s.count(p): `skip` characters belong to the occurrence of `p`
-- that was met last.
unfoldable pub replace_go : ℕ → Text → Text → Text → Text
unfolding starts_with
replace_go skip p new [] = []
replace_go (suc skip) p new (c ∷ s) = replace_go skip p new s
replace_go zero p new (c ∷ s) = elim (starts_with p (c ∷ s)) [
  | true ↦ new ++ replace_go (length p - 1) p new s
  | false ↦ c ∷ replace_go 0 p new s
]

-- s.replace(p, new), for a pattern that is not empty
unfoldable pub replace : Text → Text → Text → Text
unfolding replace_go
replace p new s = replace_go 0 p new s

unfoldable pub count_go : ℕ → Text → Text → ℕ
unfolding starts_with
count_go skip p [] = 0
count_go (suc skip) p (c ∷ s) = count_go skip p s
count_go zero p (c ∷ s) = elim (starts_with p (c ∷ s)) [
  | true ↦ 1 + count_go (length p - 1) p s
  | false ↦ count_go 0 p s
]

-- s.count(p), for a pattern that is not empty
unfoldable pub count : Text → Text → ℕ
unfolding count_go
count p s = count_go 0 p s

-- s.split(c), for one character
abbrev pub push_head : ℕ → List Text → List Text
push_head c [] = (c ∷ []) ∷ []
push_head c (w ∷ ws) = (c ∷ w) ∷ ws

unfoldable pub split : ℕ → Text → List Text
split sep [] = [] ∷ []
split sep (c ∷ s) = let rest = split sep s in if c == sep then [] ∷ rest else push_head c rest

pub split-cons : (sep : ℕ) (s : Text) → (w : Text) × (ws : List Text) × (split sep s ≡ w ∷ ws)
unfolding split
split-cons sep [] = ([], [], refl)
split-cons sep (c ∷ s) = go (split sep s) (c == sep)
  where
    go :
        (rest : List Text) (b : Bool)
        → (w : Text) × (ws : List Text) × ((if b then [] ∷ rest else push_head c rest) ≡ w ∷ ws)
    go rest true = ([], rest, refl)
    go [] false = (c ∷ [], [], refl)
    go (w ∷ ws) false = (c ∷ w, ws, refl)

-- a < b on texts: the order of code points, a prefix first
unfoldable pub text_lt : Text → Text → Bool
text_lt a [] = false
text_lt [] (y ∷ b) = true
text_lt (x ∷ a) (y ∷ b) = ltb x y || (x == y && text_lt a b)
