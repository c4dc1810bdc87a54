-- ===== src/Memory/Pm/Tests.antt =====
-- Witnesses and tests.
use cofuos.Prelude.{
  ℕ, ◌≤◌, ◌+◌, ◌%◌, ◌^◌, zero, suc, ◌*◌, ◌≡◌, ◌⊎◌, inl, refl, min, true, ltb, leb, arith,
}
use cofuos.Memory.Pm.{
  Bmp, Pm, page_size, critical_check, is_full, must_succeed, is_none, allocate, refused,
  allocate_in, release,
}
use cofuos.Memory.Pm.Group.{IsGroup}
use cofuos.Memory.Pm.Account.{
  count_free, IsValid, IsAllocation, allocate_in-IsAllocation, allocate_lem,
}
use cofuos.Memory.Pm.Release.{release-allocation}

-- One group of blocks, of which the first three are free.
abbrev three_blocks : Bmp
three_blocks i = record { solid = leb 2 i; free = ltb i 3 }

abbrev three_free : Pm
three_free = record {
  bmp = three_blocks;
  page_count = 1;
  total = 10;
  used = 7;
  reserved = 0;
  next = 0;
  soft_critical_limit = 16;
  hard_critical_limit = 4;
}

three_blocks-IsGroup : IsGroup three_blocks 0 2
three_blocks-IsGroup = record {
  inside = omega arith;
  pierced = λ i l. ground arith;
  solid = λ i l r. ground arith;
  used = λ i l r. ground arith;
  edge = inl refl;
}

count_free-three : (n : ℕ) → count_free n three_blocks ≡ min n 3
unfolding count_free
count_free-three zero = refl
count_free-three (suc n) = ground (arith, count_free-three n)

three_free-IsValid : IsValid three_free
three_free-IsValid = record {
  sound = record {
    groups = λ g l. let e : g * page_size ≡ 0 = omega arith in (2, rw e three_blocks-IsGroup);
    next_in = omega arith;
  };
  counted = rw (count_free-three 4096) refl;
}

allocate_lem_example :
    ((is_none must_succeed ≡ true)
      × (10 ≤ (7 + 0 + 4) % 2 ^ 64)
      × (allocate (λ p. p) must_succeed three_free ≡ (refused, critical_check (λ p. p) three_free)))
    ⊎ ((n : ℕ) × IsAllocation
          (critical_check (λ p. p) three_free)
          n
          (allocate (λ p. p) must_succeed three_free)
        × ((allocate (λ p. p) must_succeed three_free).1.reserved ≡ 0))
unfolding critical_check
allocate_lem_example =
    allocate_lem (λ p. p) must_succeed three_free three_free-IsValid (omega arith)
      (λ e. ground arith)

-- An allocation from the group.
allocated : (n : ℕ) × IsAllocation three_free n (allocate_in must_succeed 0 three_free)
unfolding is_full
allocated =
    let (n, a, e) =
      allocate_in-IsAllocation must_succeed 0 three_free three_free-IsValid (omega arith) refl
        refl in
    (n, a)

release-allocation_example :
    ((j : ℕ)
      → ((release allocated.0 (allocate_in must_succeed 0 three_free).1).1.bmp j).free
        ≡ (three_free.bmp j).free)
    × ((release allocated.0 (allocate_in must_succeed 0 three_free).1).1.used ≡ three_free.used)
    × IsValid (release allocated.0 (allocate_in must_succeed 0 three_free).1).1
release-allocation_example =
    release-allocation three_free allocated.0 (allocate_in must_succeed 0 three_free) allocated.1
