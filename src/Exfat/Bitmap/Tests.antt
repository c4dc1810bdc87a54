-- ===== src/Exfat/Bitmap/Tests.antt =====
-- Witnesses and tests.
use cofuos.Prelude.{ℕ, ◌*◌, ◌/◌, ◌≤◌, ◌<◌, ◌≡◌, refl, ◌⊎◌, inl, true, false, ltb, leb, arith}
use cofuos.Exfat.Bitmap.{Bitmap, bit_per_sector, set_bit, get, search, scan}
use cofuos.Exfat.Bitmap.Search.{IsGot, bitmap-get_lem}

-- The first six clusters of ten are in use.
abbrev six_used : Bitmap
six_used = record { used = λ i. ltb i 6; cluster_count = 10; last_index = 3 }

get_next : (get (λ s. true) six_used).0 ≡ 8
unfolding get search scan
get_next = refl

bitmap-get_lem_example :
    IsGot six_used (get (λ s. true) six_used)
    ⊎ ((get (λ s. true) six_used ≡ (0, six_used))
        × (((s : ℕ) × (true ≡ false))
            ⊎ ((p : ℕ)
                → p < 10
                → (3 ≤ p) ⊎ (p < 3 / bit_per_sector * bit_per_sector)
                → six_used.used p ≡ true)))
bitmap-get_lem_example = bitmap-get_lem (λ s. true) six_used (omega arith)

-- Only the first two clusters of ten are free, and the last one given was the fourth.
abbrev two_free : Bitmap
two_free = record { used = λ i. leb 2 i; cluster_count = 10; last_index = 3 }

abbrev seven_used : Bitmap
seven_used = record six_used { used = set_bit six_used.used 6 true; last_index = 6 }

seven_used-IsGot : IsGot six_used (8, seven_used)
seven_used-IsGot = record {
  inside = (omega arith, omega arith);
  was_free = refl;
  looked = inl (omega arith);
  now = refl;
}
