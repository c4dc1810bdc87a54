-- ===== src/Prelude/Powers.antt =====
-- Powers of two.
use native.Mathlib.Nat.{add-zero}
use native.Mathlib.Numerals.{unary_clauses}
use cofuos.Prelude.{ℕ, zero, suc, ◌+◌, ◌*◌, ◌^◌, ◌≤◌, ◌<◌, ◌≡◌, arith}

pub pow-suc : (n : ℕ) → 2 ^ suc n ≡ 2 * 2 ^ n
pow-suc n = simp unary_clauses (omega arith)

pub pow-pos : (n : ℕ) → 0 < 2 ^ n
pow-pos zero = omega arith
pow-pos (suc n) = omega (arith, pow-suc n, pow-pos n)

pub pow_le : (a n : ℕ) → 2 ^ a ≤ 2 ^ (a + n)
pow_le a zero = rw (add-zero a) (omega arith)
pow_le a (suc n) =
    let s : a + suc n ≡ suc (a + n) = omega arith in
    rw s (omega (arith, pow-suc (a + n), pow_le a n))
