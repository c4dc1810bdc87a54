-- ===== src/Memory/Pm/Group.antt =====
-- What `check_integrity` wants of a group of blocks.
use cofuos.Prelude.{ℕ, ◌+◌, ◌*◌, ◌≤◌, ◌<◌, ◌≡◌, ◌⊎◌, true, false}
use cofuos.Memory.Pm.{Bmp, Pm, page_size}

-- The group at `base` is pierced before its block `k` and solid from there on; behind `k` nothing is
-- free, and `k` is free or the first block.
pub record IsGroup (m : Bmp) (base k : ℕ) : Type 0 where
  pub inside : k < page_size
  pub pierced : (i : ℕ) → i < k → (m (base + i)).solid ≡ false
  pub solid : (i : ℕ) → k ≤ i → i < page_size → (m (base + i)).solid ≡ true
  pub used : (i : ℕ) → k < i → i < page_size → (m (base + i)).free ≡ false
  pub edge : ((m (base + k)).free ≡ true) ⊎ (k ≡ 0)

pub record IsSound (p : Pm) : Type 0 where
  pub groups : (g : ℕ) → g < p.page_count → (k : ℕ) × IsGroup p.bmp (g * page_size) k
  pub next_in : p.next < p.page_count
