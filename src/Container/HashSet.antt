-- ===== src/Container/HashSet.antt =====
-- util/include/hash_set.hpp: `hash_set`. The buckets are a function of the index, below their number; a chain is
-- the sequence of its values, as Container/LinkedList shows that it is one. An iterator to a value is the value.
-- `obj_hash` and `obj_equal` are an interface. The counter has no bound.
pub mod Bag
pub mod Placement
pub mod Lookup
mod Tests
use cofuos.Prelude.{
  ℕ, zero, suc, ◌≡◌, ◌+◌, ◌*◌, ◌%◌, leb, ◌==◌, Bool, true, false, ◌&&◌, if◌then◌else◌, Option, none,
  some, List, [], ◌∷◌, ◌++◌,
}

-- The function objects `H` and `E`: equal things have one hash.
pub record Hashing (A K : Type 0) : Type 1 where
  pub hash : A → ℕ
  pub key_hash : K → ℕ
  pub equal : A → K → Bool
  pub law : (x : A) (k : K) → equal x k ≡ true → hash x ≡ key_hash k

-- `value_type`
pub record Value (A : Type 0) : Type 0 where
  pub hash_value : ℕ
  pub payload : A

pub record HashSet (A : Type 0) : Type 0 where
  pub bucket_count : ℕ
  pub bucket : ℕ → List (Value A)
  pub count : ℕ

module _ {A : Type 0} where
  abbrev pub write : (ℕ → List (Value A)) → ℕ → List (Value A) → ℕ → List (Value A)
  write f i c j = if j == i then c else f j

  -- The constructor with a number of buckets.
  abbrev pub create : ℕ → HashSet A
  create fac = record { bucket_count = fac; bucket = λ i. []; count = 0 }

  -- The values of one old bucket go to the ends of the chains of `fac` new ones.
  abbrev pub move_chain : ℕ → List (Value A) → HashSet A → HashSet A
  move_chain fac [] s = s
  move_chain fac (x ∷ xs) s =
      let target = x.hash_value % fac in
      move_chain fac xs (record s {
        bucket = write s.bucket target (s.bucket target ++ x ∷ []);
        count = s.count + 1;
      })

  -- The old buckets from `i` on, `n` of them.
  abbrev pub move_buckets : ℕ → (ℕ → List (Value A)) → ℕ → ℕ → HashSet A → HashSet A
  move_buckets fac old zero i s = s
  move_buckets fac old (suc n) i s = move_buckets fac old n (i + 1) (move_chain fac (old i) s)

  abbrev pub rehash : ℕ → HashSet A → HashSet A
  rehash fac s = move_buckets fac s.bucket s.bucket_count 0 (create fac)

  unfoldable pub clear : HashSet A → HashSet A
  clear s = record s { bucket = λ i. []; count = 0 }

  -- A value becomes the first of its bucket.
  abbrev pub put_value : Value A → HashSet A → HashSet A
  put_value v s =
      let target = v.hash_value % s.bucket_count in
      record s { bucket = write s.bucket target (v ∷ s.bucket target); count = s.count + 1 }

  module _ {K : Type 0} (h : Hashing A K) where
    pub insert : A → HashSet A → HashSet A
    insert x s =
        put_value (record { hash_value = h.hash x; payload = x })
          (if leb s.bucket_count s.count then rehash (2 * s.count) s else s)

    abbrev pub find_in : K → List (Value A) → Option A
    find_in k [] = none
    find_in k (x ∷ xs) =
        if (x.hash_value == h.key_hash k) && h.equal x.payload k
        then some x.payload
        else find_in k xs

    pub find : K → HashSet A → Option A
    find k s = find_in k (s.bucket (h.key_hash k % s.bucket_count))
