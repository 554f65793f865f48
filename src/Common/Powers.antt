-- ===== src/Common/Powers.antt =====
-- Powers of two and other nonlinear facts.
use cloudflared.Common.{ℕ, zero, suc, ◌+◌, ◌*◌, ◌^◌, ◌≤◌, ◌≡◌, arith}
use native.Mathlib.Nat.{pow-le-pow_right, mul-le-mul_left}
use native.Mathlib.Numerals.{towards_suc}

pub two_pow_suc : (k : ℕ) → 2 ^ (k + 1) ≡ 2 * 2 ^ k
two_pow_suc k = simp towards_suc (omega arith)

pub two_pow_pos : (k : ℕ) → 1 ≤ 2 ^ k
two_pow_pos zero = omega arith
two_pow_pos (suc k) = omega (arith, two_pow_suc k, two_pow_pos k)

pub two_pow_le : (i j : ℕ) → i ≤ j → 2 ^ i ≤ 2 ^ j
two_pow_le i j h = pow-le-pow_right (omega arith) h

pub mul_two_pow_le : (x i j : ℕ) → i ≤ j → x * 2 ^ i ≤ x * 2 ^ j
mul_two_pow_le x i j h = mul-le-mul_left x (two_pow_le i j h)
