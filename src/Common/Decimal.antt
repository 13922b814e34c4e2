-- ===== src/Common/Decimal.antt =====
-- Numbers as texts, as `Display` writes them.
use Prim.Native.Nat.{ℕ, zero, suc, ◌/◌, ◌%◌}
use Prim.Native.String.{String, char_at}
use tinymcp.Common.Tests.{◌==◌, if◌then◌else◌}

-- The digits before `after`, the last one first: a number of `fuel` digits or fewer.
unfoldable pub decimal_from : ℕ → ℕ → String → String
decimal_from zero n after = after
decimal_from (suc fuel) n after =
    let digits = String.◌∷◌ (char_at "0123456789" (n % 10)) after in
    let rest = decimal_from fuel (n / 10) digits in if n / 10 == 0 then digits else rest

-- A `u64` has at most twenty digits.
abbrev pub decimal : ℕ → String
decimal n = decimal_from 20 n ""
