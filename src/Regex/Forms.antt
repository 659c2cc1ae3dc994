-- ===== src/Regex/Forms.antt =====
-- The forms that the patterns of build_support/cpplint.py are written with: literals, `[...]`, `.`,
-- `\s`, `\w`, `\d`, `+`, `?`.
use concurrency_tcp_server.Base.{
  ℕ, zero, suc, Bool, false, not, ◌&&◌, List, [], ◌∷◌, String, Text, codes, ◌==◌, leb, any,
  is_space, is_word, is_digit,
}
use concurrency_tcp_server.Regex.{Regex, eps, char_in, seq, alt, star, lazy_star}

-- The forms that patterns are written with.
infixr 40 ◌⊙◌
infixr 35 ◌∣∣◌
abbrev pub ◌⊙◌ : Regex → Regex → Regex
a ⊙ b = seq a b

abbrev pub ◌∣∣◌ : Regex → Regex → Regex
a ∣∣ b = alt a b

abbrev pub literal : Text → Regex
literal [] = eps
literal (c ∷ cs) = seq (char_in (◌==◌ c)) (literal cs)

abbrev pub lit : String → Regex
lit s = literal (codes s)

abbrev pub any_lit : List Text → Regex
any_lit [] = char_in (λ _. false)
any_lit (s ∷ []) = literal s
any_lit (s ∷ t ∷ ts) = alt (literal s) (any_lit (t ∷ ts))

abbrev pub plus : Regex → Regex
plus r = seq r (star r)

abbrev pub opt : Regex → Regex
opt r = alt r eps

-- `[...]` and `[^...]` over listed characters
abbrev pub in_set : String → ℕ → Bool
in_set s c = any (◌==◌ c) (codes s)

abbrev pub set_of : String → Regex
set_of s = char_in (in_set s)

abbrev pub none_of : String → Regex
none_of s = char_in (λ c. not (in_set s c))

-- `.`, `\s`, `\S`, `\w`, `\W`, `\d`
abbrev pub dot : Regex
dot = char_in (λ c. not (c == b'\n'))

abbrev pub space : Regex
space = char_in is_space

abbrev pub non_space : Regex
non_space = char_in (λ c. not (is_space c))

abbrev pub word : Regex
word = char_in is_word

abbrev pub non_word : Regex
non_word = char_in (λ c. not (is_word c))

abbrev pub digit : Regex
digit = char_in is_digit

abbrev pub spaces : Regex
spaces = star space

abbrev pub non_digit : Regex
non_digit = char_in (λ c. not (is_digit c))

-- `[a-b]`
abbrev pub in_range : ℕ → ℕ → ℕ → Bool
in_range lo hi c = leb lo c && leb c hi

-- `{0,n}`, `{n}` and `{n,}`
abbrev pub up_to : ℕ → Regex → Regex
up_to zero r = eps
up_to (suc n) r = opt (seq r (up_to n r))

abbrev pub exactly : ℕ → Regex → Regex
exactly zero r = eps
exactly (suc n) r = seq r (exactly n r)

abbrev pub at_least : ℕ → Regex → Regex
at_least n r = seq (exactly n r) (star r)

-- `+?` and `??`
abbrev pub lazy_plus : Regex → Regex
lazy_plus r = seq r (lazy_star r)

abbrev pub lazy_opt : Regex → Regex
lazy_opt r = alt eps r
