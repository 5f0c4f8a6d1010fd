-- ===== src/Base/Number.antt =====
-- JavaScript numbers as the program's guards see them. A finite number is a count of thousandths,
-- so a time in milliseconds is a count of microseconds, the resolution of the source's clocks.
use Prim.Native.Nat.{ℕ, zero, suc, ◌/◌, ◌%◌}
use mathlib.Core.Option.{Option, none, some}
use ksef_client_ts.Base.Tests.{◌==◌, if◌then◌else◌}

-- `thousandths n` is n / 1000, and `minus n` is -(n + 1) / 1000.
pub data Number : Type 0 where
  nan infinity minus_infinity : Number
  thousandths minus : ℕ → Number

-- `!Number.isInteger(x) || x <= 0` is `none`, and otherwise the integer.
abbrev pub positive_integer? : Number → Option ℕ
positive_integer? (thousandths zero) = none
positive_integer? (thousandths (suc n)) = if (suc n) % 1000 == 0 then some (suc n / 1000) else none
positive_integer? _ = none

-- `!Number.isInteger(x) || x < 0` is `none`, and otherwise the integer.
abbrev pub natural? : Number → Option ℕ
natural? (thousandths n) = if n % 1000 == 0 then some (n / 1000) else none
natural? _ = none

-- `!Number.isFinite(x) || x <= 0` is `none`, and otherwise the number, in thousandths.
abbrev pub positive_finite? : Number → Option ℕ
positive_finite? (thousandths zero) = none
positive_finite? (thousandths (suc n)) = some (suc n)
positive_finite? _ = none
