-- ===== src/Dev/Disk/Cache.antt =====
-- A slot shows its readers the disk with every write so far, whether or not it is on the disk yet.
use cofuos.Prelude.{
  ℕ, zero, suc, ◌+◌, ◌-◌, ◌%◌, ◌≤◌, ◌<◌, ◌==◌, ◌≡◌, refl, ◌∙◌, true, false, ltb, leb, ◌&&◌,
  if◌then◌else◌, arith, Bool-cases, inl, inr,
}
use cofuos.Dev.Disk.{
  Disk, Bits, sectors, Ide, Slot, is_zero, is_ones, Done, flush, reload, load, store, zeroed, moved,
  page_lba,
}
use cofuos.Dev.Disk.Flush.{IsIde, view, is_zero-bit, flush_lem}

-- Dirty sectors are valid, and the valid ones that are not dirty are as on the disk.
pub record IsCoherent (s : Slot) (d : Disk) : Type 0 where
  pub dirty_valid : (i : ℕ) → i < sectors → s.dirty i ≡ true → s.valid i ≡ true
  pub clean :
      (i : ℕ) → i < sectors → s.valid i ≡ true → s.dirty i ≡ false → s.page i ≡ d (s.lba_base + i)

-- `r` holds the page at `base`, current, with nothing changed for the readers of the disk.
pub record IsLoaded (base : ℕ) (s : Slot) (d : Disk) (r : Done) : Type 0 where
  pub placed : r.slot.lba_base ≡ base
  pub current : (i : ℕ) → i < sectors → r.slot.page i ≡ view s d (base + i)
  pub kept : (j : ℕ) → view r.slot r.disk j ≡ view s d j
  pub coherent : IsCoherent r.slot r.disk

-- What a flush that succeeded leaves.
record IsFlushed (s : Slot) (d : Disk) (f : Done) : Type 0 where
  clean : is_zero f.slot.dirty ≡ true
  shown : (j : ℕ) → f.disk j ≡ view s d j

flush-IsFlushed :
    (ide : Ide) (s : Slot) (d : Disk)
    → IsIde ide
    → (flush ide s d).ok ≡ true
    → IsFlushed s d (flush ide s d)
flush-IsFlushed ide s d v o = elim (flush_lem ide s d v) [
  | inl f ↦ record { clean = f.2; shown = f.3 }
  | inr f ↦ absurd (ground (arith, f.0))
]

view-clean : (s : Slot) (d : Disk) (j : ℕ) → is_zero s.dirty ≡ true → view s d j ≡ d j
unfolding view
view-clean s d j z = rw (is_zero-bit s.dirty (j - s.lba_base) z) (ground arith)

view-inside :
    (s : Slot) (d : Disk) (i : ℕ)
    → i < sectors
    → view s d (s.lba_base + i) ≡ (if s.dirty i then s.page i else d (s.lba_base + i))
unfolding view
view-inside s d i l = let e : s.lba_base + i - s.lba_base ≡ i = omega arith in rw e (ground arith)

-- A `reload` that succeeds holds the page at the address it was given, as it was to be seen before, and
-- no write is lost.
pub reload_lem :
    (ide : Ide) (now base : ℕ) (s : Slot) (d : Disk)
    → IsIde ide
    → (reload ide now base s d).ok ≡ true
    → IsLoaded base s d (reload ide now base s d)
unfolding reload
reload_lem ide now base s d v o = elim (Bool-cases (flush ide s d).ok) [
  | inr f ↦ absurd (ground (arith, rw f at o))
  | inl f ↦
      let o' = rw f at o in
      let g = flush-IsFlushed ide s d v f in
      rw (f, o')
        (record {
          placed = refl;
          current = λ i l. v.reads base (flush ide s d).disk o' i l ∙ g.shown (base + i);
          kept = λ j. view-clean _ (flush ide s d).disk j g.clean ∙ g.shown j;
          coherent = record {
            dirty_valid = λ i l e. refl;
            clean = λ i l a b. v.reads base (flush ide s d).disk o' i l;
          };
        })
]

is_ones-at : (b : Bits) (k : ℕ) → is_ones b ≡ true → k < sectors → b k ≡ true
is_ones-at b zero z l = ground arith
is_ones-at b (suc zero) z l = ground arith
is_ones-at b (suc (suc zero)) z l = ground arith
is_ones-at b (suc (suc (suc zero))) z l = ground arith
is_ones-at b (suc (suc (suc (suc zero)))) z l = ground arith
is_ones-at b (suc (suc (suc (suc (suc zero))))) z l = ground arith
is_ones-at b (suc (suc (suc (suc (suc (suc zero)))))) z l = ground arith
is_ones-at b (suc (suc (suc (suc (suc (suc (suc zero))))))) z l = ground arith
is_ones-at b (suc (suc (suc (suc (suc (suc (suc (suc k)))))))) z l = absurd (omega arith)

-- On a device whose commands do what they promise when they succeed, a `load` that succeeds on a coherent
-- slot holds its page, current, and no write is lost.
pub load_lem :
    (ide : Ide) (now : ℕ) (s : Slot) (d : Disk)
    → IsIde ide
    → IsCoherent s d
    → (load ide now s d).ok ≡ true
    → IsLoaded s.lba_base s d (load ide now s d)
unfolding load
load_lem ide now s d v c o = elim (Bool-cases (is_ones s.valid)) [
  | inr f ↦ rw f (reload_lem ide now s.lba_base s d v (rw f at o))
  | inl f ↦ rw f (record {
    placed = refl;
    current =
        λ i l. rw (view-inside s d i l) (ground (arith, c.clean i l (is_ones-at s.valid i f l)));
    kept = λ j. refl;
    coherent = c;
  })
]

-- The page that `store` makes the slot hold, with the sectors written zero.
view-zeroed :
    (now off count : ℕ) (s : Slot) (d : Disk) (j : ℕ)
    → off + count ≤ sectors
    → view (zeroed now off count s) d j
      ≡ (if leb (s.lba_base + off) j && ltb j (s.lba_base + off + count) then 0 else view s d j)
unfolding view
view-zeroed now off count s d j l = ground arith

zeroed-IsCoherent :
    (now off count : ℕ) (s : Slot) (d : Disk)
    → IsCoherent s d
    → IsCoherent (zeroed now off count s) d
zeroed-IsCoherent now off count s d c = record {
  dirty_valid = λ i l e. ground arith;
  clean = λ i l a b. ground (arith, c.clean i l);
}

moved-IsCoherent :
    (base : ℕ) (s : Slot) (d : Disk) → is_zero s.dirty ≡ true → IsCoherent (moved base s) d
moved-IsCoherent base s d z = record {
  dirty_valid = λ i l e. absurd (ground (arith, is_zero-bit s.dirty i z));
  clean = λ i l a b. absurd (ground arith);
}

-- On a device whose commands do what they promise when they succeed, after a `store` that succeeds
-- on a coherent slot and stays in one page, the slot stands at that page and is coherent, and the
-- readers of the disk see zeroes in the sectors that it was given, which the caller fills, and
-- every other sector as before.
pub store_lem :
    (ide : Ide) (now lba count : ℕ) (s : Slot) (d : Disk)
    → IsIde ide
    → IsCoherent s d
    → lba % sectors + count ≤ sectors
    → (store ide now lba count s d).ok ≡ true
    → let r = store ide now lba count s d in
      (r.slot.lba_base ≡ page_lba lba)
      × ((j : ℕ)
          → view r.slot r.disk j ≡ (if leb lba j && ltb j (lba + count) then 0 else view s d j))
      × IsCoherent r.slot r.disk
unfolding store
store_lem ide now lba count s d v c l o =
    let off : page_lba lba + (lba - page_lba lba) ≡ lba = omega arith in
    let fits : lba - page_lba lba + count ≤ sectors = omega arith in
    elim (Bool-cases (page_lba lba == s.lba_base)) [
      | inl e ↦
          let e' : s.lba_base ≡ page_lba lba = ground arith in
          let here : s.lba_base + (lba - page_lba lba) ≡ lba = rw e' off in
          rw e (
            e',
            (λ j. rw here at (view-zeroed now (lba - page_lba lba) count s d j fits)),
            zeroed-IsCoherent now (lba - page_lba lba) count s d c,
          )
      | inr e ↦
          let o' = rw e at o in
          elim (Bool-cases (flush ide s d).ok) [
            | inr f ↦ absurd (ground (arith, rw f at o'))
            | inl f ↦
                let g = flush-IsFlushed ide s d v f in
                rw (e, f)
                  (
                    refl,
                    (λ j.
                        rw
                          (
                            view-clean (moved (page_lba lba) (flush ide s d).slot)
                                (flush ide s d).disk j g.clean,
                            g.shown j,
                            off,
                          )
                          at
                          (view-zeroed now (lba - page_lba lba) count
                            (moved (page_lba lba) (flush ide s d).slot) (flush ide s d).disk j
                            fits)),
                    zeroed-IsCoherent now (lba - page_lba lba) count
                        (moved (page_lba lba) (flush ide s d).slot) (flush ide s d).disk
                        (moved-IsCoherent (page_lba lba) (flush ide s d).slot (flush ide s d).disk
                          g.clean),
                  )
          ]
    ]
