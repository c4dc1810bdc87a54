-- ===== src/Memory/Pm/Release.antt =====
-- `release`: what it gives back, and that it is refused a second time.
use cofuos.Prelude.{
  ℕ, ◌+◌, ◌-◌, ◌*◌, ◌/◌, ◌%◌, ◌<◌, ◌≡◌, refl, inl, inr, Bool, true, false, ltb, ◌==◌, if◌then◌else◌,
  arith, Bool-cases,
}
use cofuos.Memory.Pm.{Pm, page_size, set_free, pierce, Allocated, release}
use cofuos.Memory.Pm.Group.{IsGroup}
use cofuos.Memory.Pm.Mark.{pierce_outside}
use cofuos.Memory.Pm.Blocks.{IsGroup-cong, pierce-IsGroup}
use cofuos.Memory.Pm.Account.{IsValid, count_free-change, IsAllocation, free-release}

-- The state after `release` of the used page `pa`.
abbrev pub after_release : ℕ → Pm → Pm
after_release pa p = record p {
  bmp = pierce (pa / page_size * page_size) (set_free p.bmp pa true) (pa % page_size);
  used = p.used - 1;
}

module _ (pa : ℕ) (p : Pm) (v : IsValid p) (l : pa < p.page_count * page_size)
    (f : (p.bmp pa).free ≡ false) (some : 0 < p.used) where
  after_release-groups :
      (h : ℕ) → h < p.page_count → (j : ℕ) × IsGroup (after_release pa p).bmp (h * page_size) j
  after_release-groups h r =
      let (k, i) = v.sound.groups h r in
      let split : pa / page_size * page_size + pa % page_size ≡ pa = omega arith in
      elim (Bool-cases (h == pa / page_size)) [
        | inl e ↦
            let e' : h ≡ pa / page_size = ground arith in
            let r =
              pierce-IsGroup p.bmp (pa / page_size * page_size) k (pa % page_size) (rw e' at i)
                (omega arith) in
            rw e' ((if ltb (pa % page_size) k then k else pa % page_size, rw split at r))
        | inr e ↦ (
          k,
          IsGroup-cong p.bmp (after_release pa p).bmp (h * page_size) k
              (λ n b. ground (
                arith,
                pierce_outside (pa / page_size * page_size) (set_free p.bmp pa true)
                    (pa % page_size) (h * page_size + n),
              ))
              i,
        )
      ]

  after_release-IsValid : IsValid (after_release pa p)
  after_release-IsValid = record {
    sound = record { groups = after_release-groups; next_in = v.sound.next_in };
    counted = ground (
      arith,
      v.counted,
      count_free-change (p.page_count * page_size) pa p.bmp (after_release pa p).bmp true
          (λ j r. free-release p.bmp (pa / page_size * page_size) pa (pa % page_size) j),
    );
  }

  release-after : release pa p ≡ (true, after_release pa p)
  unfolding release
  release-after = ground arith

-- `r` is what `release` of the used page `pa` returns: the page is free, every other flag stands, one
-- page less is used, and the allocator is valid.
pub record IsRelease (p : Pm) (pa : ℕ) (r : Bool × Pm) : Type 0 where
  pub done : r.0 ≡ true
  pub flags : (j : ℕ) → (r.1.bmp j).free ≡ (if j == pa then true else (p.bmp j).free)
  pub counted : r.1.used + 1 ≡ p.used
  pub valid : IsValid r.1

release_again : (pa : ℕ) (p : Pm) → release pa (after_release pa p) ≡ (false, after_release pa p)
unfolding release
release_again pa p =
    ground (arith, free-release p.bmp (pa / page_size * page_size) pa (pa % page_size) pa)

-- Of a valid allocator `release` takes a used page back: it becomes free, no other page changes, and
-- the allocator stays valid. The same page again is a bugcheck that changes nothing.
pub release_lem :
    (pa : ℕ) (p : Pm)
    → IsValid p
    → pa < p.page_count * page_size
    → (p.bmp pa).free ≡ false
    → 0 < p.used
    → IsRelease p pa (release pa p) × (release pa (release pa p).1 ≡ (false, (release pa p).1))
release_lem pa p v l f some = rw (release-after pa p v l f some) (
    (
      record {
        done = refl;
        flags = λ j. free-release p.bmp (pa / page_size * page_size) pa (pa % page_size) j;
        counted = omega arith;
        valid = after_release-IsValid pa p v l f some;
      },
      release_again pa p,
    ))

-- A page that was handed out can be released: every flag and the count of used pages are then what they
-- were before the allocation.
pub release-allocation :
    (q : Pm) (n : ℕ) (r : Allocated × Pm)
    → IsAllocation q n r
    → ((j : ℕ) → ((release n r.1).1.bmp j).free ≡ (q.bmp j).free)
      × ((release n r.1).1.used ≡ q.used)
      × IsValid (release n r.1).1
release-allocation q n r a =
    let (b, c) =
      release_lem n r.1 a.valid (ground (arith, a.inside, a.still)) (ground (arith, a.flags n))
        (omega (arith, a.counted)) in
    (
      λ j. ground (arith, b.flags j, a.flags j, a.was_free),
      omega (arith, b.counted, a.counted),
      b.valid,
    )
