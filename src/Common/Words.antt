-- ===== src/Common/Words.antt =====
-- Machine words: Rust's saturating and checked operations, with the width written out.
use Prim.Native.Nat.{ℕ, ◌+◌, ◌*◌, ◌^◌, min}
use mathlib.Core.Option.{Option, none, some}
use tinymcp.Common.Tests.{ltb, if◌then◌else◌}

abbrev pub u32_max : ℕ
u32_max = 4294967295

abbrev pub u64_max : ℕ
u64_max = 18446744073709551615

abbrev pub i64_max : ℕ
i64_max = 9223372036854775807

-- `u32::saturating_add` and `u64::saturating_mul`.
abbrev pub saturating_add_u32 : ℕ → ℕ → ℕ
saturating_add_u32 a b = min (a + b) u32_max

abbrev pub saturating_mul_u64 : ℕ → ℕ → ℕ
saturating_mul_u64 a b = min (a * b) u64_max

-- `1_u64.checked_shl(n)`: `None` when the shift is as wide as the word.
abbrev pub checked_shl_one_u64 : ℕ → Option ℕ
checked_shl_one_u64 n = if ltb n 64 then some (2 ^ n) else none
