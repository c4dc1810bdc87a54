-- ===== src/Exfat/Bitmap/Search.antt =====
-- `get` looks at every bit of the bitmap but a few, and finds a free one.
use cofuos.Prelude.{
  ℕ, zero, suc, ◌+◌, ◌-◌, ◌*◌, ◌/◌, ◌%◌, ◌≤◌, ◌<◌, ◌≡◌, refl, ◌⊎◌, inl, inr, Bool, true, false, ltb,
  leb, ◌==◌, ◌&&◌, ◌||◌, arith, Bool-cases,
}
use cofuos.Exfat.Bitmap.{
  Bits, bit_per_sector, set_bit, Bitmap, Scan, free_at, stopped, scan, Found, found, full,
  unreadable, out_of_fuel, after_scan, search, initial_of, rounds, taken, find, get, put,
}
use cofuos.Exfat.Bitmap.Sector.{IsScan, scan_lem}

-- What a search comes to: a free bit, or every bit that `covered` names in use, or a sector that cannot
-- be read. It has fuel enough.
abbrev pub IsFound : (ℕ → Bool) → Bits → ℕ → (ℕ → Bool) → Found → Type 0
IsFound readable m cluster_count covered (found p) =
    (p < cluster_count) × (m p ≡ false) × (covered p ≡ true)
IsFound readable m cluster_count covered full =
    (p : ℕ) → p < cluster_count → covered p ≡ true → m p ≡ true
IsFound readable m cluster_count covered unreadable = (s : ℕ) × (readable s ≡ false)
IsFound readable m cluster_count covered out_of_fuel = ⊥

IsFound-mono :
    (readable : ℕ → Bool) (m : Bits) (n : ℕ) (c c' : ℕ → Bool) (r : Found)
    → ((p : ℕ) → p < n → c' p ≡ true → (m p ≡ true) ⊎ (c p ≡ true))
    → ((p : ℕ) → c p ≡ true → c' p ≡ true)
    → IsFound readable m n c r
    → IsFound readable m n c' r
IsFound-mono readable m n c c' (found p) h g i = (i.0, i.1, g p i.2)
IsFound-mono readable m n c c' full h g i = λ p l e. elim (h p l e) [ inl u ↦ u | inr u ↦ i p l u ]
IsFound-mono readable m n c c' unreadable h g i = i
IsFound-mono readable m n c c' out_of_fuel h g i = i

-- The bits from `pos` up to `initial`, or those from `pos` on and those before `initial`.
abbrev before : ℕ → ℕ → ℕ → Bool
before initial pos p = leb pos p && ltb p initial

abbrev around : ℕ → ℕ → ℕ → Bool
around initial pos p = leb pos p || ltb p initial

used_or_later :
    (pos e p : ℕ) (m : Bits) (c : ℕ → Bool)
    → ((q : ℕ) → pos ≤ q → q < e → m q ≡ true)
    → ((pos ≤ p) × (p < e)) ⊎ (c p ≡ true)
    → (m p ≡ true) ⊎ (c p ≡ true)
used_or_later pos e p m c u (inl h) = inl (u p h.0 h.1)
used_or_later pos e p m c u (inr h) = inr h

module _ (readable : ℕ → Bool) (m : Bits) (n initial : ℕ) where
  after_before :
      (pos : ℕ) (s : Scan) (rest : ℕ → Found)
      → IsScan m n pos s
      → initial < n
      → initial % bit_per_sector ≡ 0
      → pos % bit_per_sector ≡ 0
      → pos < initial
      → ((e : ℕ)
          → e ≡ pos + bit_per_sector
          → e < initial
          → IsFound readable m n (before initial e) (rest e))
      → IsFound readable m n (before initial pos) (after_scan n initial rest s)
  after_before pos (free_at p) rest i l a b c h =
      (i.inside, i.free, ground (arith, i.behind, i.near))
  after_before pos (stopped e) rest i l a b c h =
      let next : e ≡ pos + bit_per_sector = ground (arith, i.end, i.near) in
      let low : leb n e ≡ false = ground arith in
      rw low (elim (Bool-cases (e == initial)) [
        | inl k ↦ rw k (λ p q g. i.used p (ground arith) (ground arith))
        | inr k ↦ rw k (
            IsFound-mono readable m n (before initial e) (before initial pos) (rest e)
              (λ p q g. used_or_later pos e p m (before initial e) i.used (ground arith))
              (λ p g. ground arith) (h e next (ground arith)))
      ])

  search-before :
      (fuel pos : ℕ)
      → initial < n
      → initial % bit_per_sector ≡ 0
      → pos % bit_per_sector ≡ 0
      → pos < initial
      → (initial - pos) / bit_per_sector < fuel
      → IsFound readable m n (before initial pos) (search fuel readable m n initial pos)
  unfolding search
  search-before zero pos l a b c f = absurd (omega arith)
  search-before (suc fuel) pos l a b c f = elim (Bool-cases (readable (pos / bit_per_sector))) [
    | inr r ↦ rw r (pos / bit_per_sector, r)
    | inl r ↦ rw r (
        after_before pos (scan bit_per_sector m n pos) (search fuel readable m n initial)
          (scan_lem bit_per_sector m n pos (omega arith)) l a b c
          (λ e q k. search-before fuel e l a (omega arith) k (omega arith)))
  ]

  after_around :
      (pos : ℕ) (s : Scan) (rest : ℕ → Found)
      → IsScan m n pos s
      → initial < n
      → initial % bit_per_sector ≡ 0
      → initial ≤ pos
      → pos < n
      → (0 < initial → IsFound readable m n (before initial 0) (rest 0))
      → ((e : ℕ)
          → e ≡ (pos / bit_per_sector + 1) * bit_per_sector
          → initial ≤ e
          → e < n
          → IsFound readable m n (around initial e) (rest e))
      → IsFound readable m n (around initial pos) (after_scan n initial rest s)
  after_around pos (free_at p) rest i l a b c z h = (i.inside, i.free, ground (arith, i.behind))
  after_around pos (stopped e) rest i l a b c z h = elim (Bool-cases (leb n e)) [
    | inl k ↦ rw k (elim (Bool-cases (0 == initial)) [
      | inl y ↦ rw y (λ p q g. i.used p (ground arith) (ground arith))
      | inr y ↦ rw y (
          IsFound-mono readable m n (before initial 0) (around initial pos) (rest 0)
            (λ p q g. used_or_later pos e p m (before initial 0) i.used (ground arith))
            (λ p g. ground arith) (z (ground arith)))
    ])
    | inr k ↦
        let next : e ≡ (pos / bit_per_sector + 1) * bit_per_sector = ground (arith, i.end) in
        let on : (e == initial) ≡ false = ground arith in
        rw (k, on)
          (IsFound-mono readable m n (around initial e) (around initial pos) (rest e)
            (λ p q g. used_or_later pos e p m (around initial e) i.used (ground arith))
            (λ p g. ground arith) (h e next (omega arith) (ground arith)))
  ]

  search-around :
      (fuel pos : ℕ)
      → initial < n
      → initial % bit_per_sector ≡ 0
      → initial ≤ pos
      → pos < n
      → n / bit_per_sector - pos / bit_per_sector + initial / bit_per_sector + 1 < fuel
      → IsFound readable m n (around initial pos) (search fuel readable m n initial pos)
  unfolding search
  search-around zero pos l a b c f = absurd (omega arith)
  search-around (suc fuel) pos l a b c f = elim (Bool-cases (readable (pos / bit_per_sector))) [
    | inr r ↦ rw r (pos / bit_per_sector, r)
    | inl r ↦ rw r (
        after_around pos (scan bit_per_sector m n pos) (search fuel readable m n initial)
          (scan_lem bit_per_sector m n pos (omega arith)) l a b c
          (λ q. search-before fuel 0 l a (omega arith) q (omega arith))
          (λ e q k j. search-around fuel e l a k j (omega arith)))
  ]

-- What `get` returns: a cluster that was free, or 0 with nothing changed, because a sector cannot be
-- read or because every cluster is in use, but for those in the sector of the last one before it.
pub record IsGot (b : Bitmap) (r : ℕ × Bitmap) : Type 0 where
  pub inside : (2 ≤ r.0) × (r.0 < b.cluster_count + 2)
  pub was_free : b.used (r.0 - 2) ≡ false
  pub looked : (b.last_index ≤ r.0 - 2) ⊎ (r.0 - 2 < b.last_index / bit_per_sector * bit_per_sector)
  pub now : r.1 ≡ record b { used = set_bit b.used (r.0 - 2) true; last_index = r.0 - 2 }

taken_lem :
    (readable : ℕ → Bool) (b : Bitmap) (f : Found)
    → IsFound readable b.used b.cluster_count (around (initial_of b) b.last_index) f
    → IsGot b (taken f b)
      ⊎ ((taken f b ≡ (0, b))
          × (((s : ℕ) × (readable s ≡ false))
              ⊎ ((p : ℕ)
                  → p < b.cluster_count
                  → (b.last_index ≤ p) ⊎ (p < b.last_index / bit_per_sector * bit_per_sector)
                  → b.used p ≡ true)))
taken_lem readable b (found p) i =
    let e : p + 2 - 2 ≡ p = omega arith in
    inl (record {
      inside = (omega arith, omega arith);
      was_free = rw e i.1;
      looked = rw e (ground (arith, i.2));
      now = rw e refl;
    })
taken_lem readable b full i = inr (refl, inr (λ p l h. i p l (ground arith)))
taken_lem readable b unreadable i = inr (refl, inl i)
taken_lem readable b out_of_fuel i = elim i [ ]

-- `get` of the allocator ends, whatever the bitmap: its rounds are enough. It returns a cluster of the
-- volume that was free, marks it used and leaves every other bit; or it returns 0 and changes nothing,
-- and then a sector cannot be read, or every cluster is in use but perhaps some in the sector of the
-- last one that it gave, before that one.
pub bitmap-get_lem :
    (readable : ℕ → Bool) (b : Bitmap)
    → b.last_index < b.cluster_count
    → IsGot b (get readable b)
      ⊎ ((get readable b ≡ (0, b))
          × (((s : ℕ) × (readable s ≡ false))
              ⊎ ((p : ℕ)
                  → p < b.cluster_count
                  → (b.last_index ≤ p) ⊎ (p < b.last_index / bit_per_sector * bit_per_sector)
                  → b.used p ≡ true)))
unfolding get
bitmap-get_lem readable b l = taken_lem readable b (find readable b) (
    search-around readable b.used b.cluster_count (initial_of b) (rounds b) b.last_index
      (omega arith) (omega arith) (omega arith) l (omega arith))

-- Where every cluster is in use but those in the sector of the last one, before it, `get` returns 0: it
-- does not find these.
pub bitmap-get-misses :
    (readable : ℕ → Bool) (b : Bitmap)
    → b.last_index < b.cluster_count
    → ((p : ℕ)
        → p < b.cluster_count
        → (b.last_index ≤ p) ⊎ (p < b.last_index / bit_per_sector * bit_per_sector)
        → b.used p ≡ true)
    → get readable b ≡ (0, b)
bitmap-get-misses readable b l u = elim (bitmap-get_lem readable b l) [
  | inr r ↦ r.0
  | inl g ↦
      let x = u ((get readable b).0 - 2) (omega (arith, g.inside)) g.looked in
      absurd (ground (arith, x, g.was_free))
]

-- A cluster that `get` gave can be given back: the bits are then what they were before. Given back again
-- it is refused, and nothing changes.
pub bitmap-put-get :
    (readable : ℕ → Bool) (b : Bitmap) (r : ℕ × Bitmap)
    → IsGot b r
    → ((s : ℕ) → readable s ≡ true)
    → let q = put readable r.0 r.1 in
      (q.0 ≡ true) × ((p : ℕ) → q.1.used p ≡ b.used p) × (put readable r.0 q.1 ≡ (false, q.1))
unfolding put
bitmap-put-get readable b r g a =
    rw (g.now, a ((r.0 - 2) / bit_per_sector))
      (ground arith, (λ p. ground (arith, g.was_free)), ground arith)
