-- ===== src/Exfat/Chain/Walk.antt =====
-- Walks along the FAT.
use cofuos.Prelude.{ℕ, zero, suc, ◌+◌, ◌≡◌, ◌≢◌, refl, arith, Bool-cases, inl, inr}
use native.Mathlib.Nat.{zero-add}
use cofuos.Exfat.Chain.{is_end, walk}

-- A walk that gets somewhere goes on from there.
pub walk_on :
    (fat : ℕ → ℕ) (m n c : ℕ) → walk fat m c ≢ 0 → walk fat (m + n) c ≡ walk fat n (walk fat m c)
unfolding walk
walk_on fat zero n c h = rw (zero-add n) refl
walk_on fat (suc m) n c h =
    let s : suc m + n ≡ suc (m + n) = omega arith in
    rw s (elim (Bool-cases (is_end (fat c))) [
      | inl e ↦ absurd (h (rw e refl))
      | inr e ↦ rw e (walk_on fat m n (fat c) (rw e at h))
    ])
