-- ===== src/Memory/Pm/Mark.antt =====
-- The loops over a group: `mark` after an allocation, `pierce` after a release.
use cofuos.Prelude.{
  ℕ, zero, suc, ◌+◌, ◌≤◌, ◌<◌, ◌≡◌, refl, ◌⊎◌, inr, Bool, true, false, ltb, leb, ◌&&◌,
  if◌then◌else◌, arith,
}
use cofuos.Memory.Pm.{Bmp, set_solid, mark, pierce}

-- The last free block before block `h` of the group, or its first block.
pub last_free : ℕ → Bmp → ℕ → ℕ
last_free base m zero = 0
last_free base m (suc h) = if (m (base + h)).free then h else last_free base m h

pub last_free-le : (base : ℕ) (m : Bmp) (h : ℕ) → last_free base m h ≤ h
unfolding last_free
last_free-le base m zero = omega arith
last_free-le base m (suc h) = ground (arith, last_free-le base m h)

pub last_free-lt : (base : ℕ) (m : Bmp) (h : ℕ) → 0 < h → last_free base m h < h
unfolding last_free
last_free-lt base m zero l = absurd (omega arith)
last_free-lt base m (suc h) l = ground (arith, last_free-le base m h)

pub last_free-edge :
    (base : ℕ) (m : Bmp) (h : ℕ)
    → ((m (base + last_free base m h)).free ≡ true) ⊎ (last_free base m h ≡ 0)
unfolding last_free
last_free-edge base m zero = inr refl
last_free-edge base m (suc h) = ground (arith, last_free-edge base m h)

pub last_free_above :
    (base : ℕ) (m : Bmp) (h i : ℕ) → last_free base m h < i → i < h → (m (base + i)).free ≡ false
unfolding last_free
last_free_above base m zero i l r = absurd (omega arith)
last_free_above base m (suc h) i l r = ground (arith, last_free_above base m h i)

last_free-set_solid :
    (base : ℕ) (m : Bmp) (j : ℕ) (v : Bool) (h : ℕ)
    → last_free base (set_solid m j v) h ≡ last_free base m h
unfolding last_free
last_free-set_solid base m j v zero = refl
last_free-set_solid base m j v (suc h) = ground (arith, last_free-set_solid base m j v h)

pub free-mark : (base : ℕ) (m : Bmp) (h j : ℕ) → (mark base m h j).free ≡ (m j).free
unfolding mark
free-mark base m zero j = refl
free-mark base m (suc h) j = ground (arith, free-mark base (set_solid m (base + h) true) h j)

-- `mark` makes solid what stands from the last free block on, and leaves the rest alone.
pub solid-mark :
    (base : ℕ) (m : Bmp) (h i : ℕ)
    → (mark base m h (base + i)).solid
      ≡ (if leb (last_free base m h) i && ltb i h then true else (m (base + i)).solid)
unfolding mark last_free
solid-mark base m zero i = ground arith
solid-mark base m (suc h) i = ground (
  arith,
  solid-mark base (set_solid m (base + h) true) h i,
  last_free-set_solid base m (base + h) true h,
  last_free-le base m h,
)

pub mark_outside :
    (base : ℕ) (m : Bmp) (h j : ℕ) → (j < base) ⊎ (base + h ≤ j) → mark base m h j ≡ m j
unfolding mark
mark_outside base m zero j o = refl
mark_outside base m (suc h) j o =
    ground (arith, mark_outside base (set_solid m (base + h) true) h j)

pub free-pierce : (base : ℕ) (m : Bmp) (h j : ℕ) → (pierce base m h j).free ≡ (m j).free
unfolding pierce
free-pierce base m zero j = refl
free-pierce base m (suc h) j = ground (arith, free-pierce base (set_solid m (base + h) false) h j)

pub pierce_outside :
    (base : ℕ) (m : Bmp) (h j : ℕ) → (j < base) ⊎ (base + h ≤ j) → pierce base m h j ≡ m j
unfolding pierce
pierce_outside base m zero j o = refl
pierce_outside base m (suc h) j o =
    ground (arith, pierce_outside base (set_solid m (base + h) false) h j)

-- Where what stands before block `h` is solid from block `k` on, `pierce` leaves none of it solid.
pub solid-pierce :
    (base k : ℕ) (m : Bmp) (h i : ℕ)
    → ((n : ℕ) → n < h → (m (base + n)).solid ≡ leb k n)
    → i < h
    → (pierce base m h (base + i)).solid ≡ false
unfolding pierce
solid-pierce base k m zero i p l = absurd (omega arith)
solid-pierce base k m (suc h) i p l = ground (
  arith,
  p h (omega arith),
  p i l,
  pierce_outside base (set_solid m (base + h) false) h (base + h),
  solid-pierce base k (set_solid m (base + h) false) h i (λ n q. ground (arith, p n (omega arith))),
)
