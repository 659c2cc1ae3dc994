-- ===== src/Checks/Width.antt =====
-- build_support/cpplint.py: GetLineWidth.
use concurrency_tcp_server.Base.{Bool, Text, [], if◌then◌else◌, ℕ, ◌+◌, ◌∷◌}

-- What GetLineWidth asks of the library unicodedata: the normal form NFC, whether the East Asian width of a
-- character is W or F, and whether it is a combining character.
pub record UnicodeData : Type 0 where
  pub nfc : Text → Text
  pub is_wide : ℕ → Bool
  pub is_combining : ℕ → Bool

char_width : UnicodeData → ℕ → ℕ
char_width u c = if u.is_wide c then 2 else if u.is_combining c then 0 else 1

unfoldable pub text_width : UnicodeData → Text → ℕ
unfolding char_width
text_width u [] = 0
text_width u (c ∷ s) = char_width u c + text_width u s

-- GetLineWidth, on Python 3.3 or later
unfoldable pub get_line_width : UnicodeData → Text → ℕ
unfolding text_width
get_line_width u line = text_width u (u.nfc line)
