-- ===== src/Common/Word.antt =====
-- Unsigned machine words as natural numbers: what wraps and what saturates is written out.
use Prim.Native.Nat.{ℕ, ◌+◌, ◌%◌, ◌^◌}

abbrev pub u32_mod : ℕ
u32_mod = 2 ^ 32

abbrev pub u64_mod : ℕ
u64_mod = 2 ^ 64

abbrev pub u32_max : ℕ
u32_max = 4294967295

-- `+= 1` on a `u32` and on a `u64`, as a release build computes it.
abbrev pub next_u32 : ℕ → ℕ
next_u32 n = (n + 1) % u32_mod

abbrev pub next_u64 : ℕ → ℕ
next_u64 n = (n + 1) % u64_mod
