-- ===== src/Memory/Vm/Preserve.antt =====
-- kernel/memory/vm.cpp: entries of a table are marked as preserved.
use cofuos.Prelude.{
  ℕ, zero, suc, ◌≡◌, refl, ◌∙◌, ltb, leb, ◌||◌, ◌&&◌, arith, ◌+◌, ◌-◌, ◌≤◌, ◌<◌, ◌⊎◌, inr, List, [],
  ◌∷◌, Option, some,
}
use cofuos.Memory.Vm.{Table, is_used}
use cofuos.Memory.Vm.Pages.{preserve_run}
use cofuos.Memory.Vm.Blocks.{IsRun}
use cofuos.Memory.Vm.Reads.{get-same}
use cofuos.Memory.Vm.Chain.{Extent, IsChain, IsApart}

preserve_run-out :
    (n i : ℕ) (t : Table) (j : ℕ) → (j < i) ⊎ (i + n ≤ j) → preserve_run n i t j ≡ t j
preserve_run-out zero i t j h = refl
preserve_run-out (suc n) i t j h = preserve_run-out n (i + 1) _ j (ground arith) ∙ ground arith

-- An entry is in use when it was before, or when it is one of those.
pub preserve_run-used :
    (n i : ℕ) (t : Table) (j : ℕ)
    → is_used (preserve_run n i t j) ≡ is_used (t j) || (leb i j && ltb j (i + n))
preserve_run-used zero i t j = ground arith
preserve_run-used (suc n) i t j = preserve_run-used n (i + 1) _ j ∙ ground arith

preserve_run-IsRun :
    (n i : ℕ) (t : Table) (x : Extent)
    → (i + n ≤ x.at) ⊎ (x.at + x.size ≤ i)
    → IsRun t x.at x.size
    → IsRun (preserve_run n i t) x.at x.size
preserve_run-IsRun n i t x a (p, q, f, e) = (
  p,
  q,
  λ k h. (let u = preserve_run-used n i t (x.at + k) in let v = f k h in ground arith),
  (let u = preserve_run-used n i t (x.at + x.size) in ground arith),
)

pub preserve_run-IsChain :
    (n i : ℕ) (t : Table) (b : Option ℕ) (xs : List Extent) (e : Option ℕ)
    → IsApart (record { at = i; size = n }) xs
    → IsChain t b xs e
    → IsChain (preserve_run n i t) b xs e
preserve_run-IsChain n i t b [] e a h = tt
preserve_run-IsChain n i t b (x ∷ xs) e (d, a) (r, k, h) =
    let r' = preserve_run-IsRun n i t x d r in
    let g =
      get-same t (preserve_run n i t) x.at x.size r r'
        (λ j l. preserve_run-out n i t (x.at + j) (ground arith)) k.0 in
    (r', rw g k, preserve_run-IsChain n i t (some x.at) xs e a h)

-- The end of a run is taken: what is left is a run.
pub preserve_run-rest :
    (n : ℕ) (t : Table) (x : Extent)
    → n < x.size
    → 1 ≤ n
    → IsRun t x.at x.size
    → IsRun (preserve_run n (x.at + x.size - n) t) x.at (x.size - n)
preserve_run-rest n t x h g (p, q, f, e) =
    let i = x.at + x.size - n in
    (
      omega arith,
      omega arith,
      λ k l.
          (let u = preserve_run-used n i t (x.at + k) in let v = f k (omega arith) in ground arith),
      (let u = preserve_run-used n i t (x.at + (x.size - n)) in inr (ground arith)),
    )
