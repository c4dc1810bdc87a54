-- ===== src/Memory/Pm/Search.antt =====
-- The searches of `allocate`: for a group, and for the first solid block in it.
use cofuos.Prelude.{
  ℕ, zero, suc, ◌+◌, ◌-◌, ◌/◌, ◌≤◌, ◌<◌, ◌≡◌, ◌≢◌, refl, ◌⊎◌, inl, inr, false, leb, ◌==◌,
  if◌then◌else◌, arith, Bool-cases,
}
use cofuos.Memory.Pm.{Bmp, page_size, bisect, first_solid, is_full, found, used_up, find_page}
use cofuos.Memory.Pm.Group.{IsGroup}

-- With solid blocks from `k` on, the search ends just before `k`, or at the start.
bisect_lem :
    (fuel : ℕ) (m : Bmp) (base k head tail : ℕ)
    → ((i : ℕ) → i < page_size → (m (base + i)).solid ≡ leb k i)
    → tail ≤ page_size
    → tail ≤ head + 1 + fuel
    → head < tail
    → k ≤ tail
    → (head < k) ⊎ (head ≡ 0)
    → (bisect fuel m base head tail < page_size)
      × (k ≤ bisect fuel m base head tail + 1)
      × ((bisect fuel m base head tail < k) ⊎ (bisect fuel m base head tail ≡ 0))
unfolding bisect
bisect_lem zero m base k head tail s room enough lt hi lo = ground arith
bisect_lem (suc fuel) m base k head tail s room enough lt hi lo = ground (
  arith,
  s ((head + tail) / 2),
  bisect_lem fuel m base k head ((head + tail) / 2) s,
  bisect_lem fuel m base k ((head + tail) / 2) tail s,
)

pub IsGroup-solid :
    (m : Bmp) (base k i : ℕ) → IsGroup m base k → i < page_size → (m (base + i)).solid ≡ leb k i
IsGroup-solid m base k i g l = elim (Bool-cases (leb k i)) [
  | inl e ↦ rw e (g.solid i (ground arith) l)
  | inr e ↦ rw e (g.pierced i (ground arith))
]

-- The binary search of `allocate` finds the boundary of the group: its first solid block.
pub first_solid_lem : (m : Bmp) (base k : ℕ) → IsGroup m base k → first_solid m base ≡ k
unfolding first_solid
first_solid_lem m base k g = ground (
  arith,
  bisect_lem page_size m base k 0 page_size (λ i. IsGroup-solid m base k i g) (omega arith)
      (omega arith) (omega arith) (ground (arith, g.inside)) (ground arith),
  IsGroup-solid m base k (bisect page_size m base 0 page_size) g,
  g.inside,
)

-- A group that `find_page` finds exists and is not full.
pub find_page-found :
    (fuel : ℕ) (m : Bmp) (page_count next page g : ℕ)
    → page < page_count
    → find_page fuel m page_count next page ≡ found g
    → (g < page_count) × (is_full m g ≡ false)
unfolding find_page
find_page-found zero m page_count next page g l e = cc
find_page-found (suc fuel) m page_count next page g l e = ground (
  arith,
  find_page-found fuel m page_count next (if page + 1 == page_count then 0 else page + 1) g,
)

-- How far it is from `page` forward to `g`, round the end.
abbrev ahead : ℕ → ℕ → ℕ → ℕ
ahead page_count page g = if leb page g then g - page else g + page_count - page

-- As long as some group is not full, the round of `find_page` does not come to an end without one.
find_page_round :
    (fuel : ℕ) (m : Bmp) (page_count next page g : ℕ)
    → page < page_count
    → g < page_count
    → next < page_count
    → is_full m g ≡ false
    → ahead page_count page g < fuel
    → (page ≡ next) ⊎ (ahead page_count page g < ahead page_count page next)
    → find_page fuel m page_count next page ≢ used_up
unfolding find_page
find_page_round zero m page_count next page g l lg ln f enough r = absurd (omega arith)
find_page_round (suc fuel) m page_count next page g l lg ln f enough r = ground (
  arith,
  find_page_round fuel m page_count next (if page + 1 == page_count then 0 else page + 1) g,
)

pub find_page_total :
    (m : Bmp) (page_count next g : ℕ)
    → g < page_count
    → next < page_count
    → is_full m g ≡ false
    → find_page page_count m page_count next next ≢ used_up
find_page_total m page_count next g l ln f =
    find_page_round page_count m page_count next next g ln l ln f (ground arith) (inl refl)
