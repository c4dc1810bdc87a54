-- ===== src/Prelude/Xor.antt =====
-- Facts about the bitwise exclusive or.
use Prim.Native.Nat.{bit_xor, digits, bit_xor-bitwise, differ}
use native.Mathlib.Nat.{div-div-eq-div-mul}
use native.Mathlib.Numerals.{unary_clauses}
use cofuos.Prelude.{
  ℕ, zero, suc, ◌+◌, ◌*◌, ◌/◌, ◌%◌, ◌^◌, ◌≤◌, ◌<◌, ◌≡◌, refl, sym, ◌≢◌, ◌⊎◌, inl, inr, arith,
}

xor_digits : ℕ → ℕ → ℕ → ℕ
xor_digits n a b = digits (λ b. b) differ n a b

xor_digits-fuel : (n m a b : ℕ) → a ≤ n → a ≤ m → xor_digits n a b ≡ xor_digits m a b
unfolding xor_digits
xor_digits-fuel zero zero a b p q = refl
xor_digits-fuel zero (suc m) zero b p q = refl
xor_digits-fuel zero (suc m) (suc a) b p q = absurd (omega arith)
xor_digits-fuel (suc n) zero zero b p q = refl
xor_digits-fuel (suc n) zero (suc a) b p q = absurd (omega arith)
xor_digits-fuel (suc n) (suc m) zero b p q = refl
xor_digits-fuel (suc n) (suc m) (suc a) b p q =
    omega (arith, xor_digits-fuel n m (suc a / 2) (b / 2) (omega arith) (omega arith))

zero-bit_xor : (b : ℕ) → bit_xor 0 b ≡ b
zero-bit_xor b = bit_xor-bitwise 0 b

pub differ_bit :
    (a b : ℕ) → a < 2 → b < 2 → ((a ≡ b) × (differ a b ≡ 0)) ⊎ ((a ≢ b) × (differ a b ≡ 1))
differ_bit zero zero p q = inl (refl, refl)
differ_bit zero (suc zero) p q = inr ((λ e. omega arith), refl)
differ_bit zero (suc (suc b)) p q = absurd (omega arith)
differ_bit (suc zero) zero p q = inr ((λ e. omega arith), refl)
differ_bit (suc zero) (suc zero) p q = inl (refl, refl)
differ_bit (suc zero) (suc (suc b)) p q = absurd (omega arith)
differ_bit (suc (suc a)) b p q = absurd (omega arith)

pub bit_xor-step : (a b : ℕ) → bit_xor a b ≡ bit_xor (a / 2) (b / 2) * 2 + differ (a % 2) (b % 2)
unfolding xor_digits
bit_xor-step zero b = omega (arith, zero-bit_xor b, zero-bit_xor (b / 2))
bit_xor-step (suc a) b = omega (
  arith,
  bit_xor-bitwise (suc a) b,
  bit_xor-bitwise (suc a / 2) (b / 2),
  xor_digits-fuel a (suc a / 2) (suc a / 2) (b / 2) (omega arith) (omega arith),
)

pub bit_xor-zero : (n a b : ℕ) → a ≤ n → bit_xor a b ≡ 0 → a ≡ b
bit_xor-zero zero zero b h e = omega (arith, zero-bit_xor b)
bit_xor-zero zero (suc a) b h e = absurd (omega arith)
bit_xor-zero (suc n) zero b h e = omega (arith, zero-bit_xor b)
bit_xor-zero (suc n) (suc a) b h e =
    let s = bit_xor-step (suc a) b in
    let half = bit_xor-zero n (suc a / 2) (b / 2) (omega arith) (omega arith) in
    elim (differ_bit (suc a % 2) (b % 2) (omega arith) (omega arith)) [
      | inl d ↦ omega arith
      | inr d ↦ absurd (omega arith)
    ]

-- `b` has the binary digits of `a` and one more, that of `2 ^ n`.
abbrev pub IsRaised : ℕ → ℕ → ℕ → Type 0
IsRaised n a b = (b ≡ a + 2 ^ n) × (a / 2 ^ n % 2 ≡ 0)

IsRaised-suc : (n a b : ℕ) → a % 2 ≡ b % 2 → IsRaised n (a / 2) (b / 2) → IsRaised (suc n) a b
IsRaised-suc n a b d (e, z) =
    let w : 2 ^ suc n ≡ 2 * 2 ^ n = simp unary_clauses (omega arith) in
    let q : a / (2 * 2 ^ n) ≡ a / 2 / 2 ^ n = sym (div-div-eq-div-mul a 2 (2 ^ n)) in
    (omega arith, rw (w, q) z)

-- Two numbers that differ in one digit.
pub bit_xor-pow : (n a b : ℕ) → bit_xor a b ≡ 2 ^ n → IsRaised n a b ⊎ IsRaised n b a
bit_xor-pow zero a b e =
    let s = bit_xor-step a b in
    elim (differ_bit (a % 2) (b % 2) (omega arith) (omega arith)) [
      | inl d ↦ absurd (omega arith)
      | inr d ↦
          let half = bit_xor-zero (a / 2) (a / 2) (b / 2) (omega arith) (omega arith) in
          let u : a / 2 * 2 + a % 2 ≡ a = omega arith in
          let v : b / 2 * 2 + b % 2 ≡ b = omega arith in ground arith
    ]
bit_xor-pow (suc n) a b e =
    let s = bit_xor-step a b in
    let w : 2 ^ suc n ≡ 2 * 2 ^ n = simp unary_clauses (omega arith) in
    elim (differ_bit (a % 2) (b % 2) (omega arith) (omega arith)) [
      | inr d ↦ absurd (omega arith)
      | inl d ↦ elim (bit_xor-pow n (a / 2) (b / 2) (omega arith)) [
        | inl r ↦ inl (IsRaised-suc n a b d.0 r)
        | inr r ↦ inr (IsRaised-suc n b a (sym d.0) r)
      ]
    ]
