-- ===== src/Exfat/Chain/Tests.antt =====
-- Witnesses and tests.
use cofuos.Prelude.{ℕ, ◌==◌, ◌≡◌, refl, false, [], ◌∷◌, if◌then◌else◌, arith}
use cofuos.Exfat.Chain.{Chain, get, walk, nearest}
use cofuos.Exfat.Chain.Lookup.{IsValid}

-- The chain 5, 9, 7, 12.
abbrev fat : ℕ → ℕ
fat c = if c == 5 then 9 else if c == 9 then 7 else if c == 7 then 12 else 0xFFFFFFFF

-- The cache holds the cluster at index 2.
abbrev chain : Chain
chain = record {
  first_cluster = 5;
  linear = false;
  cache_line = record { index = 2; cluster = 7 } ∷ [];
  lru_queue = 2 ∷ [];
}

chain-IsValid : IsValid fat chain
unfolding walk
chain-IsValid = record {
  lines = ((omega arith, refl, omega arith), tt);
  descending = (tt, tt);
  distinct = (refl, tt);
  same = λ i. refl;
}

get_third : (get 4 fat 3 chain).0 ≡ 12
unfolding get nearest walk
get_third = refl

get_past : (get 4 fat 4 chain).0 ≡ 0
unfolding get nearest walk
get_past = refl
