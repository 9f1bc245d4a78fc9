-- ===== src/Base/Words.antt =====
-- Go's 64-bit words.
use Prim.Native.Nat.{ℕ, ◌-◌, ◌%◌, ◌^◌}
use jobcrawler.Base.Tests.{ltb, if◌then◌else◌, ℤ, pos, negsuc}

-- An int of 64 bits, from a number: two's complement.
unfoldable pub wrap64 : ℕ → ℤ
wrap64 n = let m = n % 2 ^ 64 in if ltb m (2 ^ 63) then pos m else negsuc (2 ^ 64 - 1 - m)
