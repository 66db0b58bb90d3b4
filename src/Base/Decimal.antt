-- ===== src/Base/Decimal.antt =====
-- `fmt` of integers.
use s3db.Base.Tests.{ltb}
use s3db.Base.Int.{ℤ, pos, negsuc}
use s3db.Base.Strings.{Text, codes}
use Prim.Native.Nat.{ℕ, zero, suc, ◌+◌, ◌/◌, ◌%◌}
use mathlib.Core.List.{[], ◌∷◌, ◌++◌}
use s3db.Base.Tests.{if◌then◌else◌}

-- `%d` at a natural number below `10 ^ fuel`
unfoldable pub decimal : ℕ → ℕ → Text
decimal zero n = []
decimal (suc fuel) n =
    let rest = decimal fuel (n / 10) in
    let digit = b'0' + n % 10 in if ltb n 10 then digit ∷ [] else rest ++ digit ∷ []

-- `%d`
unfoldable pub show_int : ℤ → Text
unfolding decimal
show_int (pos n) = decimal (suc n) n
show_int (negsuc n) = codes "-" ++ decimal (n + 2) (suc n)
