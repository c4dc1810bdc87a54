-- ===== src/Dev/Disk/Flush.antt =====
-- `flush` writes the dirty sectors of a slot, and no others.
use cofuos.Prelude.{
  ℕ, zero, suc, ◌+◌, ◌-◌, ◌≤◌, ◌<◌, ◌==◌, ◌≡◌, refl, true, false, ltb, leb, ◌&&◌, if◌then◌else◌,
  arith, Bool-cases, inl, inr, ◌⊎◌,
}
use native.Mathlib.Nat.{add-zero}
use cofuos.Dev.Disk.{Disk, Page, Bits, sectors, Ide, Slot, bit, is_zero, flush_loop, flush}

-- What the IDE device promises of a command that succeeds.
pub record IsIde (ide : Ide) : Type 0 where
  pub written :
      (lba n : ℕ) (p : Page) (d : Disk)
      → (ide.write lba n p d).0 ≡ true
      → (j : ℕ)
      → (ide.write lba n p d).1 j ≡ (if leb lba j && ltb j (lba + n) then p (j - lba) else d j)
  pub reads :
      (lba : ℕ) (d : Disk)
      → (ide.read lba d).0 ≡ true
      → (i : ℕ) → i < sectors
      → (ide.read lba d).1 i ≡ d (lba + i)

-- The disk as its readers are to see it: with the dirty sectors of the slot.
unfoldable pub view : Slot → Disk → Disk
view s d j =
    if leb s.lba_base j && bit s.dirty (j - s.lba_base) then s.page (j - s.lba_base) else d j

skip :
    (s : Slot) (i head j x y : ℕ)
    → bit s.dirty i ≡ false
    → head ≡ i
    → y ≡ (
        if leb (s.lba_base + (i + 1)) j && bit s.dirty (j - s.lba_base)
        then s.page (j - s.lba_base)
        else x)
    → y ≡ (
        if leb (s.lba_base + head) j && bit s.dirty (j - s.lba_base)
        then s.page (j - s.lba_base)
        else x)
skip s i head j x y b h e = elim (Bool-cases (j == s.lba_base + i)) [
  | inl k ↦
      let at_i : j - s.lba_base ≡ i = ground arith in
      let n : bit s.dirty (j - s.lba_base) ≡ false = rw at_i b in rw n (ground (arith, rw n at e))
  | inr k ↦ ground arith
]

write_run :
    (s : Slot) (i head j x z y : ℕ)
    → bit s.dirty i ≡ false
    → head < i
    → ((k : ℕ) → head ≤ k → k < i → bit s.dirty k ≡ true)
    → z ≡ (
        if leb (s.lba_base + head) j && ltb j (s.lba_base + head + (i - head))
        then s.page (head + (j - (s.lba_base + head)))
        else x)
    → y ≡ (
        if leb (s.lba_base + (i + 1)) j && bit s.dirty (j - s.lba_base)
        then s.page (j - s.lba_base)
        else z)
    → y ≡ (
        if leb (s.lba_base + head) j && bit s.dirty (j - s.lba_base)
        then s.page (j - s.lba_base)
        else x)
write_run s i head j x z y b l run t e = elim (Bool-cases (j == s.lba_base + i)) [
  | inl k ↦
      let at_i : j - s.lba_base ≡ i = ground arith in
      let n : bit s.dirty (j - s.lba_base) ≡ false = rw at_i b in rw n (ground (arith, rw n at e))
  | inr k ↦ elim (Bool-cases (leb (s.lba_base + head) j && ltb j (s.lba_base + i))) [
    | inl m ↦
        let n : bit s.dirty (j - s.lba_base) ≡ true =
          run (j - s.lba_base) (ground arith) (ground arith) in
        let place : head + (j - (s.lba_base + head)) ≡ j - s.lba_base = ground arith in
        let out : ltb j (s.lba_base + head + (i - head)) ≡ true = ground arith in
        rw n (ground (arith, rw n at e, rw (out, place) at t))
    | inr m ↦ ground arith
  ]
]

flush_loop_lem :
    (ide : Ide) (s : Slot) (n i head : ℕ) (d : Disk)
    → IsIde ide
    → i + n ≡ 9
    → head ≤ i
    → ((k : ℕ) → head ≤ k → k < i → bit s.dirty k ≡ true)
    → (flush_loop ide s n i head d).0 ≡ true
    → (j : ℕ)
    → (flush_loop ide s n i head d).1 j ≡ (
        if leb (s.lba_base + head) j && bit s.dirty (j - s.lba_base)
        then s.page (j - s.lba_base)
        else d j)
unfolding flush_loop
flush_loop_lem ide s zero i head d v e l run ok j = ground (arith, run 8)
flush_loop_lem ide s (suc n) i head d v e l run ok j = elim (Bool-cases (bit s.dirty i)) [
  | inl b ↦
      let ok' = rw b at ok in
      rw b (
        flush_loop_lem ide s n (i + 1) head d v (omega arith) (omega arith)
          (λ k p q. ground (arith, run k)) ok' j)
  | inr b ↦
      let ok' = rw b at ok in
      rw b (elim (Bool-cases (head == i)) [
        | inl h ↦
            let r =
              flush_loop_lem ide s n (i + 1) (i + 1) d v (omega arith) (omega arith)
                (λ k p q. absurd (omega arith)) (rw h at ok') j in
            let e : head ≡ i = ground arith in rw h (skip s i head j (d j) _ b (omega arith) r)
        | inr h ↦
            let ok'' = rw h at ok' in
            let w = ide.write (s.lba_base + head) (i - head) (λ m. s.page (head + m)) d in
            let lt : head < i = ground arith in
            rw h (elim (Bool-cases w.0) [
              | inl f ↦
                  let r =
                    flush_loop_lem ide s n (i + 1) (i + 1) w.1 v (omega arith) (omega arith)
                      (λ k p q. absurd (omega arith)) (rw f at ok'') j in
                  let t = v.written (s.lba_base + head) (i - head) (λ m. s.page (head + m)) d f j in
                  rw f (write_run s i head j (d j) (w.1 j) _ b lt run t r)
              | inr f ↦ absurd (ground (arith, rw f at ok''))
            ])
      ])
]

pub is_zero-bit : (b : Bits) (k : ℕ) → is_zero b ≡ true → bit b k ≡ false
is_zero-bit b zero z = ground arith
is_zero-bit b (suc zero) z = ground arith
is_zero-bit b (suc (suc zero)) z = ground arith
is_zero-bit b (suc (suc (suc zero))) z = ground arith
is_zero-bit b (suc (suc (suc (suc zero)))) z = ground arith
is_zero-bit b (suc (suc (suc (suc (suc zero))))) z = ground arith
is_zero-bit b (suc (suc (suc (suc (suc (suc zero)))))) z = ground arith
is_zero-bit b (suc (suc (suc (suc (suc (suc (suc zero))))))) z = ground arith
is_zero-bit b (suc (suc (suc (suc (suc (suc (suc (suc k)))))))) z = ground arith

-- On a device whose commands do what they promise when they succeed: when `flush` succeeds, the
-- disk is what its readers were to see, with every dirty sector of the slot written and nothing
-- else changed, and the slot is clean, otherwise as it was. When it fails, the slot is as it was,
-- with its dirty sectors.
pub flush_lem :
    (ide : Ide) (s : Slot) (d : Disk)
    → IsIde ide
    → (((flush ide s d).ok ≡ true)
        × (((flush ide s d).slot ≡ s) ⊎ ((flush ide s d).slot ≡ record s { dirty = λ i. false }))
        × (is_zero (flush ide s d).slot.dirty ≡ true)
        × ((j : ℕ) → (flush ide s d).disk j ≡ view s d j))
      ⊎ (((flush ide s d).ok ≡ false) × ((flush ide s d).slot ≡ s))
unfolding flush view
flush_lem ide s d v = elim (Bool-cases (is_zero s.dirty)) [
  | inl z ↦
      rw z
        (inl (refl, inl refl, z, λ j. rw (is_zero-bit s.dirty (j - s.lba_base) z) (ground arith)))
  | inr z ↦ rw z (elim (Bool-cases (flush_loop ide s 9 0 0 d).0) [
    | inl o ↦ rw o (
        inl (
          refl,
          inr refl,
          refl,
          λ j. rw add-zero at (
              flush_loop_lem ide s 9 0 0 d v (omega arith) (omega arith)
                (λ k p q. absurd (omega arith)) o j),
        ))
    | inr o ↦ rw o (inr (refl, refl))
  ])
]
