-- ===== src/Base/Int.antt =====
-- Signed amounts over the native numbers.
use Prim.Native.Nat.{ℕ, suc, ◌+◌, ◌-◌}

-- `negsuc n` is -(n + 1).
pub data ℤ : Type 0 where
  pos : ℕ → ℤ
  negsuc : ℕ → ℤ

-- -n
abbrev pub neg : ℕ → ℤ
neg ℕ.zero = pos 0
neg (suc n) = negsuc n

-- `GREATEST(n + d, 0)`
abbrev pub add_clamped : ℕ → ℤ → ℕ
add_clamped n (pos d) = n + d
add_clamped n (negsuc d) = n - suc d
