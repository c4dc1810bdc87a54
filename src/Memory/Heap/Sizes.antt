-- ===== src/Memory/Heap/Sizes.antt =====
-- The class that `category` of the buddy heap gives to a size.
use cofuos.Prelude.{
  ℕ, zero, suc, ◌+◌, ◌-◌, ◌*◌, ◌^◌, ◌%◌, ◌≤◌, ◌<◌, ◌≡◌, refl, ◌≢◌, ◌⊎◌, inl, inr, ◌==◌, arith, ltb,
  leb, Bool-cases,
}
use native.Mathlib.Nat.{mod-eq_of_lt, mod-eq-sub-mod, mod_self}
use cofuos.Memory.Heap.{category_loop, category}
use cofuos.Prelude.Powers.{pow-suc, pow-pos, pow_le}

-- The exponents have the order of the powers.
pub exponent_lt : (a b : ℕ) → 2 ^ a < 2 ^ b → a < b
exponent_lt a b h = elim (Bool-cases (ltb a b)) [
  | inl e ↦ ground arith
  | inr e ↦
      let s : b + (a - b) ≡ a = ground arith in
      let m : 2 ^ b ≤ 2 ^ a = rw (← s) (pow_le b (a - b)) in absurd (omega arith)
]

-- The smallest class of `bot` and above whose blocks have `sz` bytes.
abbrev pub IsCategory : ℕ → ℕ → ℕ → Type 0
IsCategory bot sz c = (bot ≤ c) × (sz ≤ 2 ^ c) × ((c ≡ bot) ⊎ (2 ^ c < 2 * sz))

whole_block : (m sz : ℕ) → m ≤ sz → sz < 2 * m → sz % m ≡ 0 → sz ≡ m
whole_block m sz h l e =
    let s = mod-eq-sub-mod {n = sz} {m = m} h in
    let t = mod-eq_of_lt {n = sz - m} {m = m} (omega arith) in omega arith

loop_pass-IsCategory :
    (bot res sz : ℕ)
    → bot ≤ res
    → 0 < sz
    → sz < 2 ^ suc res
    → (bot < res → sz < 2 ^ res → IsCategory bot sz (category_loop bot res sz))
    → IsCategory bot sz (category_loop bot (suc res) sz)
unfolding category_loop
loop_pass-IsCategory bot res sz h nz l rest =
    let w = pow-suc res in
    elim (Bool-cases (leb (2 ^ res) sz)) [
      | inl e ↦ elim (Bool-cases (sz % 2 ^ res == 0)) [
        | inl z ↦
            let s = whole_block (2 ^ res) sz (ground arith) (omega arith) (ground arith) in
            let p = pow-pos res in rw (e, z) (h, omega arith, inr (omega arith))
        | inr z ↦
            let s : res + 1 ≡ suc res = omega arith in
            let n : sz ≢ 2 ^ res = λ q.
              let m = mod_self (2 ^ res) in (let v : sz % 2 ^ res ≡ 0 = rw q m in ground arith) in
            rw (e, z, s) (omega arith, omega arith, inr (ground arith))
      ]
      | inr e ↦ elim (Bool-cases (ltb bot res)) [
        | inl b ↦ rw (e, b) (rest (ground arith) (ground arith))
        | inr b ↦ let s : res ≡ bot = ground arith in rw (e, b) (omega arith, ground arith, inl s)
      ]
    ]

category_loop-IsCategory :
    (bot res sz : ℕ)
    → bot ≤ res
    → 0 < sz
    → sz < 2 ^ suc res
    → IsCategory bot sz (category_loop bot (suc res) sz)
category_loop-IsCategory bot zero sz h nz l =
    loop_pass-IsCategory bot zero sz h nz l (λ b q. absurd (omega arith))
category_loop-IsCategory bot (suc res) sz h nz l =
    loop_pass-IsCategory bot (suc res) sz h nz l
      (λ b q. category_loop-IsCategory bot res sz (omega arith) nz q)

-- A size gets the smallest class that has room for it, and `top` if it is larger than the largest block.
pub category_lem :
    (bot n sz : ℕ)
    → bot ≤ n
    → 0 < sz
    → let c = category bot (suc n) sz in
      ((sz ≤ 2 ^ n) × (c < suc n) × IsCategory bot sz c) ⊎ ((2 ^ n < sz) × (c ≡ suc n))
unfolding category
category_lem bot n sz h nz =
    let d : suc n - 1 ≡ n = omega arith in
    elim (Bool-cases (ltb (2 ^ n) sz)) [
      | inl e ↦ rw (d, e) (inr (ground arith, refl))
      | inr e ↦
          let w = pow-suc n in
          let p = pow-pos n in
          let r = category_loop-IsCategory bot n sz h nz (ground arith) in
          let l : category_loop bot (suc n) sz < suc n = elim (r.2) [
            | inl s ↦ omega arith
            | inr m ↦ exponent_lt _ (suc n) (ground arith)
          ] in
          rw (d, e) (inl (ground arith, l, r))
    ]
