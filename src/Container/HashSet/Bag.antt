-- ===== src/Container/HashSet/Bag.antt =====
-- util/include/hash_set.hpp: a set as the bag of its values, which are counted by a test.
use cofuos.Prelude.{
  ℕ, zero, suc, ◌≡◌, refl, ap, ◌∙◌, ◌+◌, ◌%◌, ◌<◌, ◌≤◌, ◌==◌, Bool, true, false, if◌then◌else◌,
  List, [], ◌∷◌, ◌++◌, arith, Bool-cases, inl, inr,
}
use native.Mathlib.Nat.{mod-lt}
use cofuos.Container.HashSet.{
  Value, HashSet, write, create, move_chain, move_buckets, rehash, put_value,
}

module _ {A : Type 0} where
  abbrev pub count_in : (A → Bool) → List (Value A) → ℕ
  count_in q [] = 0
  count_in q (x ∷ xs) = (if q x.payload then 1 else 0) + count_in q xs

  -- Over `n` buckets from `i` on.
  abbrev pub count_from : (A → Bool) → (ℕ → List (Value A)) → ℕ → ℕ → ℕ
  count_from q f zero i = 0
  count_from q f (suc n) i = count_in q (f i) + count_from q f n (i + 1)

  -- How many values of the set pass the test.
  abbrev pub count_if : (A → Bool) → HashSet A → ℕ
  count_if q s = count_from q s.bucket s.bucket_count 0

  count_in-append :
      (q : A → Bool) (xs ys : List (Value A))
      → count_in q (xs ++ ys) ≡ count_in q xs + count_in q ys
  count_in-append q [] ys = omega arith
  count_in-append q (x ∷ xs) ys = omega (arith, count_in-append q xs ys)

  count_from-out :
      (q : A → Bool) (f : ℕ → List (Value A)) (c : List (Value A)) (n i t : ℕ)
      → t < i
      → count_from q (write f t c) n i ≡ count_from q f n i
  count_from-out q f c zero i t h = refl
  count_from-out q f c (suc n) i t h =
      let e : (i == t) ≡ false = ground arith in
      rw e (ap (λ k. count_in q (f i) + k) (count_from-out q f c n (i + 1) t (omega arith)))

  count_from-write :
      (q : A → Bool) (f : ℕ → List (Value A)) (c : List (Value A)) (n i t : ℕ)
      → i ≤ t
      → t < i + n
      → count_from q (write f t c) n i + count_in q (f t) ≡ count_from q f n i + count_in q c
  count_from-write q f c zero i t h g = absurd (omega arith)
  count_from-write q f c (suc n) i t h g = elim (Bool-cases (i == t)) [
    | inl e ↦
        let s : i ≡ t = ground arith in
        let o = count_from-out q f c n (i + 1) t (omega arith) in
        let u = ap (λ j. count_in q (f j)) s in rw e (omega (arith, o, u))
    | inr e ↦ rw e (omega (arith, count_from-write q f c n (i + 1) t (ground arith) (omega arith)))
  ]

  move_chain-count :
      (q : A → Bool) (fac : ℕ) (xs : List (Value A)) (s : HashSet A)
      → 1 ≤ fac
      → s.bucket_count ≡ fac
      → count_if q (move_chain fac xs s) ≡ count_if q s + count_in q xs
  move_chain-count q fac [] s h e = omega arith
  move_chain-count q fac (x ∷ xs) s h e =
      let t = x.hash_value % fac in
      let c = s.bucket t ++ x ∷ [] in
      let m : t < fac = mod-lt x.hash_value h in
      let w = count_from-write q s.bucket c s.bucket_count 0 t (omega arith) (omega arith) in
      let a = count_in-append q (s.bucket t) (x ∷ []) in
      let r =
        move_chain-count q fac xs (record s { bucket = write s.bucket t c; count = s.count + 1 }) h
          e in
      omega arith

  pub move_chain-size :
      (fac : ℕ) (xs : List (Value A)) (s : HashSet A)
      → (move_chain fac xs s).bucket_count ≡ s.bucket_count
  move_chain-size fac [] s = refl
  move_chain-size fac (x ∷ xs) s = move_chain-size fac xs _

  move_buckets-count :
      (q : A → Bool) (fac : ℕ) (old : ℕ → List (Value A)) (n i : ℕ) (s : HashSet A)
      → 1 ≤ fac
      → s.bucket_count ≡ fac
      → count_if q (move_buckets fac old n i s) ≡ count_if q s + count_from q old n i
  move_buckets-count q fac old zero i s h e = omega arith
  move_buckets-count q fac old (suc n) i s h e =
      let t = move_chain fac (old i) s in
      let r = move_buckets-count q fac old n (i + 1) t h (move_chain-size fac (old i) s ∙ e) in
      let c = move_chain-count q fac (old i) s h e in omega arith

  pub move_buckets-size :
      (fac : ℕ) (old : ℕ → List (Value A)) (n i : ℕ) (s : HashSet A)
      → (move_buckets fac old n i s).bucket_count ≡ s.bucket_count
  move_buckets-size fac old zero i s = refl
  move_buckets-size fac old (suc n) i s =
      move_buckets-size fac old n (i + 1) _ ∙ move_chain-size fac (old i) s

  pub count_from-empty : (q : A → Bool) (n i : ℕ) → count_from q (λ j. []) n i ≡ 0
  count_from-empty q zero i = refl
  count_from-empty q (suc n) i = omega (arith, count_from-empty q n (i + 1))

  -- No value is lost or made by a new number of buckets.
  pub rehash-count :
      (q : A → Bool) (fac : ℕ) (s : HashSet A) → 1 ≤ fac → count_if q (rehash fac s) ≡ count_if q s
  rehash-count q fac s h =
      let r = move_buckets-count q fac s.bucket s.bucket_count 0 (create fac) h refl in
      let z = count_from-empty q fac 0 in omega arith

  pub put_value-count :
      (q : A → Bool) (v : Value A) (s : HashSet A)
      → 1 ≤ s.bucket_count
      → count_if q (put_value v s) ≡ (if q v.payload then 1 else 0) + count_if q s
  put_value-count q v s h =
      let t = v.hash_value % s.bucket_count in
      let m : t < s.bucket_count = mod-lt v.hash_value h in
      let w =
        count_from-write q s.bucket (v ∷ s.bucket t) s.bucket_count 0 t (omega arith)
          (omega arith) in
      omega arith

  move_chain-counter :
      (fac : ℕ) (xs : List (Value A)) (s : HashSet A)
      → (move_chain fac xs s).count ≡ s.count + count_in (λ x. true) xs
  move_chain-counter fac [] s = omega arith
  move_chain-counter fac (x ∷ xs) s =
      let t = x.hash_value % fac in
      let r =
        move_chain-counter fac xs
          (record s { bucket = write s.bucket t (s.bucket t ++ x ∷ []); count = s.count + 1 }) in
      omega arith

  pub move_buckets-counter :
      (fac : ℕ) (old : ℕ → List (Value A)) (n i : ℕ) (s : HashSet A)
      → (move_buckets fac old n i s).count ≡ s.count + count_from (λ x. true) old n i
  move_buckets-counter fac old zero i s = omega arith
  move_buckets-counter fac old (suc n) i s = omega (
    arith,
    move_buckets-counter fac old n (i + 1) (move_chain fac (old i) s),
    move_chain-counter fac (old i) s,
  )
