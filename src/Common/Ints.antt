-- ===== src/Common/Ints.antt =====
-- The casts to `int`.
use Prim.Native.Nat.{ℕ, ◌-◌, ◌^◌}
use algorithm.Common.Tests.{ltb, if◌then◌else◌}

-- An `int`: `minus n` is the number below 0 by `n`.
pub data Int32 : Type 0 where
  plus minus : ℕ → Int32

-- `(int)` of a `u_int32_t`.
abbrev pub to_i32 : ℕ → Int32
to_i32 n = if ltb n (2 ^ 31) then plus n else minus (2 ^ 32 - n)
