-- ===== src/Container/HashSet/Lookup.antt =====
-- util/include/hash_set.hpp: `find`.

use cofuos.Prelude.{
  ℕ, zero, suc, ◌≡◌, refl, sym, ap, ◌∙◌, ◌≢◌, ◌+◌, ◌%◌, ◌<◌, ◌≤◌, ◌==◌, true, ◌&&◌, none, some,
  List, [], ◌∷◌, arith, Bool-cases, inl, inr, ◌↔◌,
}
use native.Mathlib.Nat.{mod-lt}
use cofuos.Container.HashSet.{Hashing, Value, HashSet, find_in, find}
use cofuos.Container.HashSet.Bag.{count_in, count_from, count_if}
use cofuos.Container.HashSet.Placement.{IsStored, IsValid}

module _ {A K : Type 0} (h : Hashing A K) where
  find_in-none :
      (k : K) (n i : ℕ) (xs : List (Value A))
      → IsStored h n i xs
      → (find_in h k xs ≡ none) ↔ (count_in (λ x. h.equal x k) xs ≡ 0)
  find_in-none k n i [] a = (λ e. refl, λ e. refl)
  find_in-none k n i (x ∷ xs) a =
      let t = find_in-none k n i xs a.2 in
      elim (Bool-cases (h.equal x.payload k)) [
        | inl e ↦
            let w : (x.hash_value == h.key_hash k) ≡ true =
              (let l = h.law x.payload k e in ground (arith, a.0)) in
            rw (e, w) ((λ z. absurd (ground arith)), (λ z. absurd (ground arith)))
        | inr e ↦
            let u : (find_in h k xs ≡ none) ↔ (0 + count_in (λ x. h.equal x k) xs ≡ 0) =
              (λ z. omega (arith, t.0 z), λ z. t.1 (omega arith)) in
            elim (Bool-cases (x.hash_value == h.key_hash k)) [
              | inl w ↦ rw (e, w) u
              | inr w ↦ rw (e, w) u
            ]
      ]

  -- An equal value stands in the bucket of the key's hash only.
  elsewhere :
      (k : K) (n i : ℕ) (xs : List (Value A))
      → IsStored h n i xs
      → i ≢ h.key_hash k % n
      → count_in (λ x. h.equal x k) xs ≡ 0
  elsewhere k n i [] a ne = refl
  elsewhere k n i (x ∷ xs) a ne = elim (Bool-cases (h.equal x.payload k)) [
    | inl e ↦ absurd (ne (sym a.1 ∙ ap (λ j. j % n) (a.0 ∙ h.law x.payload k e)))
    | inr e ↦ rw e (omega (arith, elsewhere k n i xs a.2 ne))
  ]

  count_from-elsewhere :
      (k : K) (n : ℕ) (f : ℕ → List (Value A)) (m i : ℕ)
      → ((j : ℕ) → IsStored h n j (f j))
      → h.key_hash k % n < i
      → count_from (λ x. h.equal x k) f m i ≡ 0
  count_from-elsewhere k n f zero i p l = refl
  count_from-elsewhere k n f (suc m) i p l =
      let a = elsewhere k n i (f i) (p i) (λ e. absurd (omega arith)) in
      omega (arith, a, count_from-elsewhere k n f m (i + 1) p (omega arith))

  count_from-bucket :
      (k : K) (n : ℕ) (f : ℕ → List (Value A)) (m i : ℕ)
      → ((j : ℕ) → IsStored h n j (f j))
      → i ≤ h.key_hash k % n
      → h.key_hash k % n < i + m
      → count_from (λ x. h.equal x k) f m i ≡ count_in (λ x. h.equal x k) (f (h.key_hash k % n))
  count_from-bucket k n f zero i p l g = absurd (omega arith)
  count_from-bucket k n f (suc m) i p l g = elim (Bool-cases (i == h.key_hash k % n)) [
    | inl e ↦
        let s : i ≡ h.key_hash k % n = ground arith in
        let u = ap (λ j. count_in (λ x. h.equal x k) (f j)) s in
        omega (arith, u, count_from-elsewhere k n f m (i + 1) p (omega arith))
    | inr e ↦
        let a = elsewhere k n i (f i) (p i) (λ s. absurd (ground arith)) in
        omega (arith, a, count_from-bucket k n f m (i + 1) p (ground arith) (omega arith))
  ]

  -- In a valid set `find` finds nothing exactly when no value of the whole set equals the key.
  pub find-none :
      (k : K) (s : HashSet A)
      → IsValid h s
      → (find h k s ≡ none) ↔ (count_if (λ x. h.equal x k) s ≡ 0)
  unfolding find
  find-none k s (n, p, c) =
      let b = h.key_hash k % s.bucket_count in
      let m : b < s.bucket_count = mod-lt (h.key_hash k) n in
      let e =
        count_from-bucket k s.bucket_count s.bucket s.bucket_count 0 p (omega arith)
          (omega arith) in
      let t = find_in-none k s.bucket_count b (s.bucket b) (p b) in
      (λ z. e ∙ t.0 z, λ z. t.1 (sym e ∙ z))

  find_in-some :
      (k : K) (xs : List (Value A)) (v : A) → find_in h k xs ≡ some v → h.equal v k ≡ true
  find_in-some k [] v e = absurd (ground arith)
  find_in-some k (x ∷ xs) v e =
      elim (Bool-cases ((x.hash_value == h.key_hash k) && h.equal x.payload k)) [
        | inl w ↦
            let e' : some x.payload ≡ some v = sym (rw w refl) ∙ e in
            let s : x.payload ≡ v = cc in rw (← s) (ground (arith, w))
        | inr w ↦ find_in-some k xs v (sym (rw w refl) ∙ e)
      ]

  pub find-some : (k : K) (s : HashSet A) (v : A) → find h k s ≡ some v → h.equal v k ≡ true
  unfolding find
  find-some k s v e = find_in-some k (s.bucket (h.key_hash k % s.bucket_count)) v e
