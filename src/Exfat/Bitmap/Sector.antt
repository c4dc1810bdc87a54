-- ===== src/Exfat/Bitmap/Sector.antt =====
-- The search for a free bit in one sector of the bitmap.
use cofuos.Prelude.{
  ℕ, zero, suc, ◌+◌, ◌-◌, ◌*◌, ◌/◌, ◌%◌, ◌≤◌, ◌<◌, ◌≡◌, ◌⊎◌, inl, inr, true, false, leb, ◌==◌,
  arith, Bool-cases,
}
use cofuos.Exfat.Bitmap.{Bits, bit_per_sector, Scan, free_at, stopped, scan}

-- A free bit that was found behind `pos` in the sector, or the end of what was looked at.
pub record IsFree (m : Bits) (cluster_count pos p : ℕ) : Type 0 where
  pub behind : pos ≤ p
  pub inside : p < cluster_count
  pub near : p < (pos / bit_per_sector + 1) * bit_per_sector
  pub free : m p ≡ false

pub record IsPassed (m : Bits) (cluster_count pos e : ℕ) : Type 0 where
  pub behind : pos ≤ e
  pub used : (p : ℕ) → pos ≤ p → p < e → m p ≡ true
  pub near : e ≤ (pos / bit_per_sector + 1) * bit_per_sector
  pub end : (cluster_count ≤ e) ⊎ (e ≡ (pos / bit_per_sector + 1) * bit_per_sector)

abbrev pub IsScan : Bits → ℕ → ℕ → Scan → Type 0
IsScan m cluster_count pos (free_at p) = IsFree m cluster_count pos p
IsScan m cluster_count pos (stopped e) = IsPassed m cluster_count pos e

IsScan-step :
    (m : Bits) (cluster_count pos : ℕ) (s : Scan)
    → m pos ≡ true
    → (pos + 1) / bit_per_sector ≡ pos / bit_per_sector
    → IsScan m cluster_count (pos + 1) s
    → IsScan m cluster_count pos s
IsScan-step m cluster_count pos (free_at p) u d i = record {
  behind = omega (arith, i.behind);
  inside = i.inside;
  near = omega (arith, i.near, d);
  free = i.free;
}
IsScan-step m cluster_count pos (stopped e) u d i = record {
  behind = omega (arith, i.behind);
  used = λ p a b. elim (Bool-cases (p == pos)) [
    | inl k ↦ let k' : p ≡ pos = ground arith in rw k' u
    | inr k ↦ i.used p (ground arith) b
  ];
  near = ground (arith, i.near, d);
  end = ground (arith, i.end, d);
}

pub scan_lem :
    (fuel : ℕ) (m : Bits) (cluster_count pos : ℕ)
    → bit_per_sector - pos % bit_per_sector ≤ fuel
    → IsScan m cluster_count pos (scan fuel m cluster_count pos)
unfolding scan
scan_lem zero m cluster_count pos f = absurd (omega arith)
scan_lem (suc fuel) m cluster_count pos f = elim (Bool-cases (leb cluster_count pos)) [
  | inl e ↦ rw e (record {
    behind = omega arith;
    used = λ p a b. absurd (omega arith);
    near = omega arith;
    end = inl (ground arith);
  })
  | inr e ↦ rw e (elim (Bool-cases (m pos)) [
    | inr u ↦
        rw u (record { behind = omega arith; inside = ground arith; near = omega arith; free = u })
    | inl u ↦ rw u (elim (Bool-cases ((pos + 1) % bit_per_sector == 0)) [
      | inl z ↦ rw z (record {
        behind = omega arith;
        used = λ p a b. let s : p ≡ pos = omega arith in rw s u;
        near = ground arith;
        end = inr (ground arith);
      })
      | inr z ↦ rw z (
          IsScan-step m cluster_count pos (scan fuel m cluster_count (pos + 1)) u (ground arith)
            (scan_lem fuel m cluster_count (pos + 1) (ground arith)))
    ])
  ])
]
