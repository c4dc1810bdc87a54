-- ===== src/Memory/Heap/Words.antt =====
-- Powers of two, aligned addresses, and pointers that differ in one bit.
use Prim.Native.Nat.{bit_xor, differ}
use cofuos.Prelude.Powers.{pow-suc}
use cofuos.Prelude.Xor.{bit_xor-step, bit_xor-zero, differ_bit}
use cofuos.Prelude.{
  ℕ, zero, suc, ◌+◌, ◌*◌, ◌/◌, ◌%◌, ◌^◌, ◌≤◌, ◌≡◌, refl, ◌⊎◌, inl, inr, true, arith,
}
use cofuos.Memory.Heap.{is_aligned}

pub is_aligned-half : (n a : ℕ) → is_aligned (suc n) a ≡ true → is_aligned n a ≡ true
unfolding is_aligned
is_aligned-half zero a h = refl
is_aligned-half (suc n) a h = ground (arith, is_aligned-half n (a / 2))

-- The second half of an aligned block.
pub is_aligned-second : (n a : ℕ) → is_aligned (suc n) a ≡ true → is_aligned n (a + 2 ^ n) ≡ true
unfolding is_aligned
is_aligned-second zero a h = refl
is_aligned-second (suc n) a h =
    let e : (a + 2 ^ suc n) / 2 ≡ a / 2 + 2 ^ n = omega (arith, pow-suc n) in
    let o : (a + 2 ^ suc n) % 2 ≡ a % 2 = omega (arith, pow-suc n) in
    rw (e, o) (ground (arith, is_aligned-second n (a / 2)))

-- `b` is the second half of the block of the next class that `a` begins.
abbrev pub Halves : ℕ → ℕ → ℕ → Type 0
Halves sh a b = (b ≡ a + 2 ^ sh) × (is_aligned (suc sh) a ≡ true)

pub bit_xor-Halves :
    (sh a b : ℕ)
    → is_aligned sh a ≡ true
    → is_aligned sh b ≡ true
    → bit_xor a b ≡ 2 ^ sh
    → Halves sh a b ⊎ Halves sh b a
unfolding is_aligned
bit_xor-Halves zero a b ha hb e =
    let s = bit_xor-step a b in
    elim (differ_bit (a % 2) (b % 2) (omega arith) (omega arith)) [
      | inl d ↦ absurd (omega arith)
      | inr d ↦
          let half = bit_xor-zero (a / 2) (a / 2) (b / 2) (omega arith) (omega arith) in
          ground arith
    ]
bit_xor-Halves (suc n) a b ha hb e =
    let s = bit_xor-step a b in
    let w = pow-suc n in
    let ea : a % 2 ≡ 0 = ground arith in
    let eb : b % 2 ≡ 0 = ground arith in
    let d : differ (a % 2) (b % 2) ≡ 0 = rw (ea, eb) refl in
    let rest = bit_xor-Halves n (a / 2) (b / 2) (ground arith) (ground arith) (omega arith) in
    ground arith

pub is_aligned-multiple : (n k : ℕ) → is_aligned n (k * 2 ^ n) ≡ true
unfolding is_aligned
is_aligned-multiple zero k = refl
is_aligned-multiple (suc n) k =
    let w : k * 2 ^ suc n ≡ 2 * (k * 2 ^ n) = grind (arith, pow-suc n) in
    let e : k * 2 ^ suc n % 2 ≡ 0 = omega (arith, w) in
    let h : k * 2 ^ suc n / 2 ≡ k * 2 ^ n = omega (arith, w) in rw (e, h) (is_aligned-multiple n k)

-- The address after an aligned block of a larger class is aligned.
pub is_aligned-next : (n m a : ℕ) → n ≤ m → is_aligned n a ≡ true → is_aligned n (a + 2 ^ m) ≡ true
unfolding is_aligned
is_aligned-next zero m a h al = refl
is_aligned-next (suc n) zero a h al = absurd (omega arith)
is_aligned-next (suc n) (suc m) a h al =
    let e : (a + 2 ^ suc m) / 2 ≡ a / 2 + 2 ^ m = omega (arith, pow-suc m) in
    let o : (a + 2 ^ suc m) % 2 ≡ a % 2 = omega (arith, pow-suc m) in
    rw (e, o) (ground (arith, is_aligned-next n m (a / 2)))
