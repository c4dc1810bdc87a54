-- ===== src/Container/HashSet/Tests.antt =====
-- Witnesses and tests.
use cofuos.Prelude.{
  ℕ, ◌≡◌, ◌+◌, refl, Bool, true, ◌==◌, if◌then◌else◌, none, [], ◌∷◌, arith, ◌↔◌, ◌%◌, Bool-cases,
  inl, inr,
}
use cofuos.Container.HashSet.{Hashing, HashSet, insert, find}
use cofuos.Container.HashSet.Bag.{count_if}
use cofuos.Container.HashSet.Placement.{IsValid, IsPlaced, insert-IsValid}
use cofuos.Container.HashSet.Lookup.{find-none}

numbers-law : (x k : ℕ) → (x == k) ≡ true → x % 5 ≡ k % 5
numbers-law x k e = let s : x ≡ k = ground arith in rw s refl

-- Numbers that are hashed by their remainder.
abbrev numbers : Hashing ℕ ℕ
numbers = record {
  hash = λ x. x % 5;
  key_hash = λ k. k % 5;
  equal = λ x k. x == k;
  law = numbers-law;
}

-- Two buckets with two values: the next value takes a new number of buckets.
abbrev pair : HashSet ℕ
pair = record {
  bucket_count = 2;
  bucket = λ i.
      if i == 0
      then record { hash_value = 2; payload = 7 } ∷ record { hash_value = 4; payload = 4 } ∷ []
      else [];
  count = 2;
}

pair-IsPlaced : IsPlaced numbers pair
pair-IsPlaced i = elim (Bool-cases (i == 0)) [
  | inl e ↦ rw e (refl, ground arith, (refl, ground arith, tt))
  | inr e ↦ rw e tt
]

pair-placed : IsValid numbers pair
pair-placed = (omega arith, pair-IsPlaced, refl)

-- A third value makes four buckets.
insert-IsValid_example :
    IsValid numbers (insert numbers 9 pair)
    × ((q : ℕ → Bool)
        → count_if q (insert numbers 9 pair) ≡ (if q 9 then 1 else 0) + count_if q pair)
insert-IsValid_example = insert-IsValid numbers 9 pair pair-placed

find-none_example : (find numbers 9 pair ≡ none) ↔ (count_if (λ x. x == 9) pair ≡ 0)
find-none_example = find-none numbers 9 pair pair-placed
