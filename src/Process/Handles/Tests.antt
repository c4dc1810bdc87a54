-- ===== src/Process/Handles/Tests.antt =====
-- Witnesses and tests.
use cofuos.Prelude.{ℕ, zero, suc, ◌≡◌, ◌≢◌, ◌⊎◌, inl, refl, true, ltb, ◌==◌, arith, if◌then◌else◌}
use cofuos.Process.Handles.{HandleTable, put, put_loop, close, failed, filled}
use cofuos.Process.Handles.Table.{occupied, IsValid, IsPut, IsUnchanged, put_lem}
use cofuos.Process.Handles.Close.{IsClosed, close_lem}

-- A table in which handle 4 is the object 70.
abbrev one_handle : HandleTable
one_handle = record {
  count = 1;
  top = 5;
  has_page = λ i. i == 0;
  slot = λ i. if i == 4 then 70 else 0;
}

occupied-one : (n : ℕ) → occupied n one_handle.slot ≡ (if ltb 4 n then 1 else 0)
unfolding occupied
occupied-one zero = refl
occupied-one (suc n) = ground (arith, occupied-one n)

one_handle-IsValid : IsValid one_handle
one_handle-IsValid = record {
  counted = rw (occupied-one 0x800) refl;
  top_in = omega arith;
  above = λ i a b. ground arith;
  paged = λ i s. ground arith;
}

put_next : (put (λ i. true) 80 one_handle).0 ≡ 5
unfolding put put_loop
put_next = refl

put_lem_example :
    (((put (λ i. true) 80 one_handle).0 ≡ 0)
      × IsUnchanged one_handle.slot 1 (put (λ i. true) 80 one_handle).1)
    ⊎ IsPut one_handle.slot 1 80 (put (λ i. true) 80 one_handle)
put_lem_example = put_lem (λ i. true) 80 one_handle one_handle-IsValid (omega arith)

close_lem_example :
    ((one_handle.slot 4 ≡ 0) × (close 4 one_handle ≡ (failed, one_handle)))
    ⊎ ((one_handle.slot 4 ≢ 0) × IsClosed one_handle 4 (close 4 one_handle))
close_lem_example = close_lem 4 one_handle one_handle-IsValid (omega arith) (inl (omega arith))

-- What `put` of the object 80 returns.
abbrev two_handles : ℕ × HandleTable
two_handles = (5, filled 5 80 one_handle)

two_handles-IsPut : IsPut one_handle.slot 1 80 two_handles
unfolding occupied
two_handles-IsPut = record {
  inside = (omega arith, omega arith);
  was_free = refl;
  slots = λ j. refl;
  counted = refl;
  valid = record {
    counted = rw (occupied-two 0x800) refl;
    top_in = omega arith;
    above = λ i a b. ground arith;
    paged = λ i s. ground arith;
  };
}
  where
    occupied-two :
        (n : ℕ) → occupied n two_handles.1.slot ≡ (if ltb 5 n then 2 else if ltb 4 n then 1 else 0)
    occupied-two zero = refl
    occupied-two (suc n) = ground (arith, occupied-two n)
