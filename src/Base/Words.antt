-- ===== src/Base/Words.antt =====
-- A C `int` of 32 bits as its bit pattern, a number below 2^32.
use Prim.Native.Nat.{ℕ, ◌+◌, ◌%◌, ◌^◌}
use mathlib.Core.Bool.{Bool}
use csci4730_operating_syste.Base.Tests.{ltb}

abbrev pub increment : ℕ → ℕ
increment c = (c + 1) % 2 ^ 32

abbrev pub decrement : ℕ → ℕ
decrement c = (c + 0xffff_ffff) % 2 ^ 32

-- `a < b` with the sign bit read as a sign.
abbrev pub less : ℕ → ℕ → Bool
less a b = ltb ((a + 2 ^ 31) % 2 ^ 32) ((b + 2 ^ 31) % 2 ^ 32)
