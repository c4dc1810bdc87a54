-- ===== src/Exfat/Header/Bounds.antt =====
-- Where the sectors of a volume are that `parse_header` accepts.
use native.Mathlib.Nat.{mod-eq_of_lt, mul-le-mul_right}
use mathlib.Core.Path.{subst}
use cofuos.Prelude.{
  ℕ, zero, suc, ◌+◌, ◌-◌, ◌*◌, ◌/◌, ◌%◌, ◌^◌, ◌≤◌, ◌<◌, ◌≡◌, refl, ◌≢◌, ◌⊎◌, inl, inr, true, false,
  ltb, leb, ◌==◌, ◌&&◌, if◌then◌else◌, Option, none, some, arith, Bool-cases, lt→ltb,
}
use cofuos.Prelude.Powers.{pow-suc, pow_le}
use cofuos.Exfat.Header.{
  Header, Volume, align_up, is_recognized, has_areas, active_table, with_areas, has_room, finish,
  parse_header, lba_of_fat, lba_of_cluster,
}

-- The limits of the format: at most 2 ^ 32 - 11 clusters, of at most 2 ^ 16 sectors, and the FATs together of fewer
-- than 2 ^ 32 sectors, since the 32-bit offset of the heap comes after them.
abbrev pub IsInFormat : Header → Type 0
IsInFormat h =
    (h.cluster_count + 11 ≤ 2 ^ 32) × (h.cluster_shift ≤ 16) × (h.fat_length * h.fat_count < 2 ^ 32)

pow_nine : (n : ℕ) → 2 ^ (9 + n) ≡ 512 * 2 ^ n
pow_nine zero = refl
pow_nine (suc n) =
    let e : 9 + suc n ≡ suc (9 + n) = omega arith in
    rw e (omega (arith, pow-suc (9 + n), pow-suc n, pow_nine n))

pow_small : (n : ℕ) → n ≤ 22 → 2 ^ (9 + n) < 2 ^ 32
pow_small n h =
    let e : 9 + n + (22 - n) ≡ 31 = omega arith in
    let m : 2 ^ (9 + n) ≤ 2 ^ 31 = subst (λ t. 2 ^ (9 + n) ≤ 2 ^ t) e (pow_le (9 + n) (22 - n)) in
    omega arith

cluster_size_lem : (n : ℕ) → n ≤ 22 → 2 ^ (9 + n) % 2 ^ 32 / 512 ≡ 2 ^ n
cluster_size_lem n h =
    let s = mod-eq_of_lt {n = 2 ^ (9 + n)} {m = 2 ^ 32} (pow_small n h) in
    omega (arith, s, pow_nine n)

succ_mul : (a b : ℕ) → suc a * b ≡ a * b + b
succ_mul a b = grind arith

-- The areas of a volume: the sectors of the FAT in use lie before the heap, and `lba_of_fat` gives them, unless the
-- round-up of the number of clusters wraps in 32 bits, when it gives 0; the clusters lie in the heap, before the end of
-- the volume, without overlap.
abbrev pub IsLaidOut : Volume → ℕ → Type 0
IsLaidOut v size =
    ((c : ℕ)
      → 2 ≤ c
      → c < v.cluster_count + 2
      → (lba_of_fat v (c / 128)
          ≡ (if ltb (v.cluster_count + 129) (2 ^ 32) then v.table + c / 128 else 0))
        × (v.table + c / 128 < v.heap)
        × (v.heap ≤ lba_of_cluster v c)
        × (lba_of_cluster v c + size ≤ v.top))
    × ((c d : ℕ)
        → 2 ≤ c
        → c < d
        → d < v.cluster_count + 2
        → lba_of_cluster v c + size ≤ lba_of_cluster v d)

lba_of_cluster_lem :
    (v : Volume) (n c : ℕ)
    → n ≤ 22
    → v.cluster_shift ≡ 9 + n
    → c < v.cluster_count + 2
    → 2 ≤ c
    → lba_of_cluster v c ≡ v.heap + (c - 2) * 2 ^ n
lba_of_cluster_lem v n c h e l m =
    let t : leb (v.cluster_count) (c - 2) ≡ false = ground arith in
    rw (t, e, cluster_size_lem n h) refl

lba_of_fat_lem :
    (v : Volume) (c : ℕ)
    → c < v.cluster_count + 2
    → v.cluster_count + 11 ≤ 2 ^ 32
    → lba_of_fat v (c / 128)
      ≡ (if ltb (v.cluster_count + 129) (2 ^ 32) then v.table + c / 128 else 0)
lba_of_fat_lem v c u small = elim (Bool-cases (ltb (v.cluster_count + 129) (2 ^ 32))) [
  | inl e ↦
      let s : v.cluster_count + 129 < 2 ^ 32 = ground arith in
      let f : (v.cluster_count + 2 + 127) % 2 ^ 32 ≡ v.cluster_count + 129 = omega arith in
      let g : ltb (c / 128) ((v.cluster_count + 2 + 127) % 2 ^ 32 / 128) ≡ true =
        rw f (lt→ltb _ _ (omega arith)) in
      rw (e, g) refl
  | inr e ↦
      let s : 2 ^ 32 ≤ v.cluster_count + 129 = ground arith in
      let f : (v.cluster_count + 2 + 127) % 2 ^ 32 / 128 ≡ 0 = omega arith in
      let g : ltb (c / 128) ((v.cluster_count + 2 + 127) % 2 ^ 32 / 128) ≡ false =
        rw f (ground arith) in
      rw (e, g) refl
]

room_lem :
    (v : Volume) (n fat_length : ℕ)
    → n ≤ 22
    → v.cluster_shift ≡ 9 + n
    → v.cluster_count + 11 ≤ 2 ^ 32
    → align_up ((2 + v.cluster_count) % 2 ^ 32 * 4) 512 / 512 ≤ fat_length
    → v.table + fat_length ≤ v.heap
    → v.heap + v.cluster_count * 2 ^ n ≤ v.top
    → IsLaidOut v (2 ^ n)
room_lem v n fat_length h e small fat before inside = (
  λ c l u.
      let m = mul-le-mul_right {m = suc (c - 2)} {n = v.cluster_count} (2 ^ n) (omega arith) in
      let s = succ_mul (c - 2) (2 ^ n) in
      let w = lba_of_cluster_lem v n c h e u l in
      (lba_of_fat_lem v c u small, omega arith, omega arith, omega arith),
  λ c d l lt u.
      let m = mul-le-mul_right {m = suc (c - 2)} {n = d - 2} (2 ^ n) (omega arith) in
      let s = succ_mul (c - 2) (2 ^ n) in
      let w = lba_of_cluster_lem v n c h e (omega arith) l in
      let w' = lba_of_cluster_lem v n d h e u (omega arith) in omega arith,
)

active_table-some :
    (h : Header) (v : Volume) (t : ℕ)
    → active_table h v ≡ some t
    → (h.fat_count ≡ 1) ⊎ (h.fat_count ≡ 2)
active_table-some h v t e = elim (Bool-cases (h.fat_count == 2)) [
  | inl a ↦ inr (ground arith)
  | inr a ↦ elim (Bool-cases (h.fat_count == 1)) [
    | inl b ↦ inl (ground arith)
    | inr b ↦ absurd (ground arith)
  ]
]

fat_le :
    (len count table heap : ℕ)
    → len * count < 2 ^ 32
    → (count ≡ 1) ⊎ (count ≡ 2)
    → table + len * count % 2 ^ 32 ≤ heap
    → table + len ≤ heap
fat_le len count table heap s (inl e) h =
    let s' = subst (λ t. len * t < 2 ^ 32) e s in
    let h' = subst (λ t. table + len * t % 2 ^ 32 ≤ heap) e h in omega arith
fat_le len count table heap s (inr e) h =
    let s' = subst (λ t. len * t < 2 ^ 32) e s in
    let h' = subst (λ t. table + len * t % 2 ^ 32 ≤ heap) e h in omega arith

room-IsLaidOut :
    (h : Header) (v : Volume) (t : ℕ)
    → IsInFormat h
    → (h.fat_count ≡ 1) ⊎ (h.fat_count ≡ 2)
    → has_room h (with_areas h v t) ≡ true
    → IsLaidOut (with_areas h v t) (2 ^ h.cluster_shift) × (2 ≤ h.root_dir)
room-IsLaidOut h v t f c r = (
  room_lem (with_areas h v t) (h.cluster_shift) (h.fat_length) (let s = f.1 in omega arith) refl f.0
      (ground arith) (fat_le (h.fat_length) (h.fat_count) t _ f.2 c (ground arith)) (ground arith),
  ground arith,
)

finish-IsLaidOut :
    (h : Header) (v : Volume) (o : Option ℕ) (root : ℕ) (v' : Volume)
    → IsInFormat h
    → ((t : ℕ) → o ≡ some t → (h.fat_count ≡ 1) ⊎ (h.fat_count ≡ 2))
    → finish h v o ≡ some (root, v')
    → IsLaidOut v' (2 ^ h.cluster_shift) × (root ≢ 0)
finish-IsLaidOut h v none root v' f c e = absurd (ground arith)
finish-IsLaidOut h v (some t) root v' f c e = elim (Bool-cases (has_room h (with_areas h v t))) [
  | inl r ↦
      let l = room-IsLaidOut h v t f (c t refl) r in
      let s : v' ≡ with_areas h v t = ground arith in
      let n : root ≡ (if h.flags % 2 == 1 then 2 ^ 31 else 0) + h.root_dir = ground arith in
      rw s (l.0, λ z. let l1 = l.1 in omega arith)
  | inr r ↦ absurd (ground arith)
]

-- When `parse_header` accepts a header within the limits of the format, the FAT in use has a sector for every
-- cluster, each before the heap, the sectors of every cluster are in the heap, before the end of the volume, and no
-- two clusters share a sector. `lba_of_fat` gives the sector of the FAT for fewer than 2 ^ 32 - 129 clusters; for more
-- it gives 0.
pub parse_header-IsLaidOut :
    (h : Header) (v : Volume) (root : ℕ) (v' : Volume)
    → IsInFormat h
    → parse_header h v ≡ some (root, v')
    → IsLaidOut v' (2 ^ h.cluster_shift) × (root ≢ 0)
parse_header-IsLaidOut h v root v' f e = elim (Bool-cases (is_recognized h v && has_areas h)) [
  | inl r ↦
      let e' : finish h v (active_table h v) ≡ some (root, v') =
        subst (λ b. (if b then finish h v (active_table h v) else none) ≡ some (root, v')) r e in
      finish-IsLaidOut h v (active_table h v) root v' f (λ t. active_table-some h v t) e'
  | inr r ↦ absurd (
      let n =
        subst (λ b. (if b then finish h v (active_table h v) else none) ≡ some (root, v')) r e in
      ground arith)
]
