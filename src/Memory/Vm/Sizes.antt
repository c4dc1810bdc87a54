-- ===== src/Memory/Vm/Sizes.antt =====
-- kernel/memory/vm.cpp: the 4 bits `remain`, which stand for the size of the largest free block.
use cofuos.Prelude.{
  max, ℕ, zero, suc, ◌≡◌, false, ◌==◌, ltb, leb, if◌then◌else◌, arith, ◌+◌, ◌-◌, ◌*◌, ◌/◌, ◌%◌, ◌^◌,
  ◌≤◌, ◌<◌, Bool-cases, inl, inr, ◌↔◌,
}
use cofuos.Prelude.Powers.{pow-suc, pow-pos, pow_le}
use cofuos.Memory.Vm.{Pdte, get_max_size, put_max_size, bit_length}

abbrev pub size_of : ℕ → ℕ
size_of r = if ltb r 8 then (if r == 0 then 0 else 2 ^ (r - 1)) else 64 + 56 * (r - 7)

abbrev pub class_of : ℕ → ℕ
class_of n = (if leb (64 + 56) n then 7 + (n - 64) / 56 else bit_length 7 n) % 2 ^ 4

bit_length-le : (f n r : ℕ) → n < 2 ^ f → (2 ^ r ≤ n) ↔ (suc r ≤ bit_length f n)
bit_length-le zero n r h = let p = pow-pos r in ground arith
bit_length-le (suc f) n zero h = ground arith
bit_length-le (suc f) n (suc r) h =
    let t = bit_length-le f (n / 2) r (omega (arith, pow-suc f, h)) in
    let u = pow-suc r in let p = pow-pos r in ground arith

bit_length-bound : (f n : ℕ) → bit_length f n ≤ f
bit_length-bound zero n = omega arith
bit_length-bound (suc f) n = let t = bit_length-bound f (n / 2) in ground arith

pow-small : (r : ℕ) → r < 7 → 2 ^ r ≤ 64
pow-small r h =
    let e : r + (6 - r) ≡ 6 = omega arith in let t = rw e at (pow_le r (6 - r)) in omega (arith, t)

class-large : (r n : ℕ) → r < 16 → 120 ≤ n → n ≤ 512 → (size_of r ≤ n) ↔ (r ≤ 7 + (n - 64) / 56)
class-large zero n a b c = ground arith
class-large (suc r) n a b c = elim (Bool-cases (ltb (suc r) 8)) [
  | inl e ↦
      let p = pow-small r (ground arith) in
      let d : suc r - 1 ≡ r = omega arith in rw (e, d) (ground arith)
  | inr e ↦ rw e (ground arith)
]

class-small : (r n : ℕ) → r < 16 → n < 120 → (size_of r ≤ n) ↔ (r ≤ bit_length 7 n)
class-small zero n a b = ground arith
class-small (suc r) n a b = elim (Bool-cases (ltb (suc r) 8)) [
  | inl e ↦
      let t = bit_length-le 7 n r (omega arith) in
      let d : suc r - 1 ≡ r = omega arith in rw (e, d) (ground arith)
  | inr e ↦ rw e (ground (arith, bit_length-bound 7 n))
]

pub size_of-class_of : (n r : ℕ) → n ≤ 512 → r < 16 → (size_of r ≤ n) ↔ (r ≤ class_of n)
size_of-class_of n r h g = elim (Bool-cases (leb (64 + 56) n)) [
  | inl e ↦
      let t = class-large r n g (ground arith) h in
      let m : (7 + (n - 64) / 56) % 2 ^ 4 ≡ 7 + (n - 64) / 56 = omega arith in rw (e, m) t
  | inr e ↦
      let t = class-small r n g (ground arith) in
      let m : bit_length 7 n % 2 ^ 4 ≡ bit_length 7 n = omega (arith, bit_length-bound 7 n) in
      rw (e, m) t
]

-- For sizes up to 512 `put_max_size` and `get_max_size` are a Galois connection: `put_max_size` writes the largest
-- class whose size is not more than the given one.
pub get_max_size-put_max_size :
    (p : Pdte) (n : ℕ) (r : ℕ)
    → n ≤ 512
    → r < 16
    → (get_max_size (record p { remain = r }) ≤ n) ↔ (r ≤ (put_max_size n p).remain)
unfolding get_max_size put_max_size
get_max_size-put_max_size p n r h g = size_of-class_of n r h g

pub class_of-bound : (n : ℕ) → class_of n < 16
class_of-bound n = omega arith

-- The class of the largest size stays when a size that is no larger is compared with it.
pub class_of-max :
    (m n : ℕ) → m ≤ n → n ≤ 512 → class_of (max m (size_of (class_of n))) ≡ class_of n
class_of-max m n h g =
    let k = max m (size_of (class_of n)) in
    let below = (size_of-class_of n (class_of n) g (class_of-bound n)).1 (omega arith) in
    let bound : k ≤ n = omega arith in
    let up = (size_of-class_of k (class_of n) (omega arith) (class_of-bound n)).0 (omega arith) in
    let inner =
      (size_of-class_of k (class_of k) (omega arith) (class_of-bound k)).1 (omega arith) in
    let down = (size_of-class_of n (class_of k) g (class_of-bound k)).0 (omega arith) in omega arith

size-pos : (r : ℕ) → 1 ≤ r → 0 < 2 ^ (r - 1) → (size_of r == 0) ≡ false
size-pos r h g = elim (Bool-cases (ltb r 8)) [
  | inl e ↦ rw e (ground arith)
  | inr e ↦ rw e (ground arith)
]

pub size_of-pos : (n : ℕ) → 1 ≤ n → n ≤ 512 → (size_of (class_of n) == 0) ≡ false
size_of-pos n h g =
    let c = (size_of-class_of n 1 g (omega arith)).0 h in
    let p = pow-pos (class_of n - 1) in size-pos (class_of n) c p
