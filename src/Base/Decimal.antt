-- ===== src/Base/Decimal.antt =====
-- strconv.FormatInt in base 10.
use Prim.Native.Nat.{ℕ, zero, suc, ◌/◌, ◌%◌}
use Prim.Native.String
use Prim.Native.String.{String, [], ◌∷◌}
use mathlib.Core.Path.{◌≡◌, refl}
use praetor.Base.Int.{ℤ, pos, negsuc}
use praetor.Base.Tests.{ltb, if◌then◌else◌}

digit : ℕ → String
digit zero = "0"
digit (suc zero) = "1"
digit (suc (suc zero)) = "2"
digit (suc (suc (suc zero))) = "3"
digit (suc (suc (suc (suc zero)))) = "4"
digit (suc (suc (suc (suc (suc zero))))) = "5"
digit (suc (suc (suc (suc (suc (suc zero)))))) = "6"
digit (suc (suc (suc (suc (suc (suc (suc zero))))))) = "7"
digit (suc (suc (suc (suc (suc (suc (suc (suc zero)))))))) = "8"
digit _ = "9"

-- The fuel is the number of digits that are still allowed; an int64 has 19 at most.
digits_from : ℕ → ℕ → String → String
digits_from zero n acc = acc
digits_from (suc fuel) n acc =
    let d = String.◌++◌ (digit (n % 10)) acc in
    let more = digits_from fuel (n / 10) d in if ltb n 10 then d else more

unfoldable pub format_nat : ℕ → String
unfolding digits_from digit
format_nat n = digits_from 20 n ""

unfoldable pub format_int : ℤ → String
unfolding format_nat
format_int (pos n) = format_nat n
format_int (negsuc n) = String.◌++◌ "-" (format_nat (suc n))

format_int_min : format_int (negsuc 9223372036854775807) ≡ "-9223372036854775808"
unfolding format_int
format_int_min = refl
