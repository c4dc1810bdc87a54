-- ===== src/Container/HashSet/Placement.antt =====
-- util/include/hash_set.hpp: every value stands in the bucket that `find` looks into.
use cofuos.Prelude.{
  ℕ, zero, suc, ◌≡◌, refl, ap, ◌∙◌, ◌+◌, ◌*◌, ◌%◌, ◌≤◌, leb, ◌==◌, Bool, true, if◌then◌else◌, List,
  [], ◌∷◌, ◌++◌, arith, Bool-cases, inl, inr,
}
use cofuos.Container.HashSet.{
  Hashing, Value, HashSet, write, create, move_chain, move_buckets, rehash, put_value, insert,
}
use cofuos.Container.HashSet.Bag.{
  count_if, move_chain-size, move_buckets-size, rehash-count, put_value-count, move_buckets-counter,
}

module _ {A K : Type 0} (h : Hashing A K) where
  -- The values of the bucket `i` of `n`: their stored hash is theirs, and it is a hash of this bucket.
  abbrev pub IsStored : ℕ → ℕ → List (Value A) → Type 0
  IsStored n i [] = Unit
  IsStored n i (x ∷ xs) =
      (x.hash_value ≡ h.hash x.payload) × (x.hash_value % n ≡ i) × IsStored n i xs

  -- The values that are moved keep their hash, whatever their bucket was.
  abbrev IsHashed : List (Value A) → Type 0
  IsHashed [] = Unit
  IsHashed (x ∷ xs) = (x.hash_value ≡ h.hash x.payload) × IsHashed xs

  abbrev pub IsPlaced : HashSet A → Type 0
  IsPlaced s = (i : ℕ) → IsStored s.bucket_count i (s.bucket i)

  -- All values are in their buckets, the counter counts them, and there is a bucket.
  abbrev pub IsValid : HashSet A → Type 0
  IsValid s = (1 ≤ s.bucket_count) × IsPlaced s × (s.count ≡ count_if (λ x. true) s)

  IsStored-append :
      (n i : ℕ) (xs ys : List (Value A))
      → IsStored n i xs
      → IsStored n i ys
      → IsStored n i (xs ++ ys)
  IsStored-append n i [] ys a b = b
  IsStored-append n i (x ∷ xs) ys a b = (a.0, a.1, IsStored-append n i xs ys a.2 b)

  IsStored-IsHashed : (n i : ℕ) (xs : List (Value A)) → IsStored n i xs → IsHashed xs
  IsStored-IsHashed n i [] a = tt
  IsStored-IsHashed n i (x ∷ xs) a = (a.0, IsStored-IsHashed n i xs a.2)

  write-IsPlaced :
      (n t : ℕ) (f : ℕ → List (Value A)) (c : List (Value A))
      → IsStored n t c
      → ((i : ℕ) → IsStored n i (f i))
      → (i : ℕ) → IsStored n i (write f t c i)
  write-IsPlaced n t f c a p i = elim (Bool-cases (i == t)) [
    | inl e ↦ let s : i ≡ t = ground arith in rw (e, s) a
    | inr e ↦ rw e (p i)
  ]

  move_chain-IsPlaced :
      (fac : ℕ) (xs : List (Value A)) (s : HashSet A)
      → s.bucket_count ≡ fac
      → IsHashed xs
      → IsPlaced s
      → IsPlaced (move_chain fac xs s)
  move_chain-IsPlaced fac [] s e a p = p
  move_chain-IsPlaced fac (x ∷ xs) s e a p =
      let t = x.hash_value % fac in
      let c =
        IsStored-append s.bucket_count t (s.bucket t) (x ∷ []) (p t)
          (a.0, ap (λ n. x.hash_value % n) e, tt) in
      move_chain-IsPlaced fac xs _ e a.1 (write-IsPlaced s.bucket_count t s.bucket _ c p)

  move_buckets-IsPlaced :
      (fac : ℕ) (old : ℕ → List (Value A)) (n i : ℕ) (s : HashSet A)
      → s.bucket_count ≡ fac
      → ((j : ℕ) → IsHashed (old j))
      → IsPlaced s
      → IsPlaced (move_buckets fac old n i s)
  move_buckets-IsPlaced fac old zero i s e a p = p
  move_buckets-IsPlaced fac old (suc n) i s e a p =
      move_buckets-IsPlaced fac old n (i + 1) _ (move_chain-size fac (old i) s ∙ e) a
        (move_chain-IsPlaced fac (old i) s e (a i) p)

  rehash-IsPlaced : (fac : ℕ) (s : HashSet A) → IsPlaced s → IsPlaced (rehash fac s)
  rehash-IsPlaced fac s p =
      move_buckets-IsPlaced fac s.bucket s.bucket_count 0 (create fac) refl
        (λ j. IsStored-IsHashed s.bucket_count j (s.bucket j) (p j)) (λ i. tt)

  put_value-IsValid :
      (v : Value A) (s : HashSet A)
      → v.hash_value ≡ h.hash v.payload
      → IsValid s
      → IsValid (put_value v s)
  put_value-IsValid v s e (n, p, c) =
      let t = v.hash_value % s.bucket_count in
      (
        n,
        write-IsPlaced s.bucket_count t s.bucket (v ∷ s.bucket t) (e, refl, p t) p,
        omega (arith, c, put_value-count (λ x. true) v s n),
      )

  rehash-IsValid : (fac : ℕ) (s : HashSet A) → 1 ≤ fac → IsValid s → IsValid (rehash fac s)
  rehash-IsValid fac s l (n, p, c) = (
    rw (move_buckets-size fac s.bucket s.bucket_count 0 (create fac)) l,
    rehash-IsPlaced fac s p,
    omega (
      arith,
      c,
      move_buckets-counter fac s.bucket s.bucket_count 0 (create fac),
      rehash-count (λ x. true) fac s l,
    ),
  )

  -- `insert` into a valid set leaves a valid one, whether or not the number of buckets grows, and of the values that
  -- pass any test there is one more if the new value passes it, and else as many as before.
  pub insert-IsValid :
      (x : A) (s : HashSet A)
      → IsValid s
      → IsValid (insert h x s)
        × ((q : A → Bool) → count_if q (insert h x s) ≡ (if q x then 1 else 0) + count_if q s)
  unfolding insert
  insert-IsValid x s valid =
      let v : Value A = record { hash_value = h.hash x; payload = x } in
      elim (Bool-cases (leb s.bucket_count s.count)) [
        | inl e ↦
            let l : 1 ≤ 2 * s.count = (let n = valid.0 in ground arith) in
            let r = rehash-IsValid (2 * s.count) s l valid in
            rw e (
              put_value-IsValid v (rehash (2 * s.count) s) refl r,
              λ q. omega (
                arith,
                put_value-count q v (rehash (2 * s.count) s) r.0,
                rehash-count q (2 * s.count) s l,
              ),
            )
        | inr e ↦ rw e (put_value-IsValid v s refl valid, λ q. put_value-count q v s valid.0)
      ]
