-- ===== src/Common/Options.antt =====
-- `Option::and_then`, for do blocks, and `Option::filter`.
use mathlib.Core.Bool.{Bool}
use mathlib.Core.Option.{Option, none, some}
use tinymcp.Common.Tests.{if◌then◌else◌}

infixl 5 ◌>>=◌
abbrev pub ◌>>=◌ {ℓ κ} : {A : Type ℓ} {B : Type κ} → Option A → (A → Option B) → Option B
none >>= f = none
some a >>= f = f a

abbrev pub keep_if {ℓ} : {A : Type ℓ} → (A → Bool) → A → Option A
keep_if p a = if p a then some a else none
