-- ===== src/Base/Decimal.antt =====
-- Decimal numerals, as Python's `%d` and `%s` print a natural number.
use Prim.Native.Nat.{ℕ, zero, suc, ◌+◌, ◌/◌, ◌%◌}
use mathlib.Core.Bool.{true, false}
use mathlib.Core.List.{[], ◌∷◌}
use concurrency_tcp_server.Base.Tests.{ltb}
use concurrency_tcp_server.Base.Texts.{Text}

-- The digits of n in front of `rest`; the fuel n + 1 is enough, as n falls by each division.
decimal_go : ℕ → ℕ → Text → Text
decimal_go zero n rest = rest
decimal_go (suc fuel) n rest = elim (ltb n 10) [
  | true ↦ (b'0' + n) ∷ rest
  | false ↦ decimal_go fuel (n / 10) ((b'0' + n % 10) ∷ rest)
]

unfoldable pub decimal : ℕ → Text
unfolding decimal_go
decimal n = decimal_go (suc n) n []
