-- ===== src/Memory/Vm/Reserve.antt =====
-- kernel/memory/vm.cpp: `imp_reserve_any` takes entries out of a free block.
use cofuos.Prelude.{
  ℕ, ◌≡◌, refl, sym, ap, ◌∙◌, true, false, ◌==◌, ltb, leb, ◌||◌, ◌&&◌, arith, ◌+◌, ◌-◌, ◌*◌, ◌≤◌,
  ◌<◌, Bool-cases, ◌⊎◌, inl, inr, List, [], ◌∷◌, ◌++◌, Option, none, some, length,
}
use mathlib.Core.Path.{subst}
use cofuos.Memory.Vm.{Table, Block, Space, get, is_used, resolve_prior}
use cofuos.Memory.Vm.Insert.{insert}
use cofuos.Memory.Vm.Pages.{preserve_run, take_block, erased, taken}
use cofuos.Memory.Vm.Blocks.{IsRun}
use cofuos.Memory.Vm.Chain.{Extent, IsApart, IsPairwise, IsChain-split}
use cofuos.Memory.Vm.Relink.{IsPairwise-split, IsApart-join, AreAllApart-first}
use cofuos.Memory.Vm.Erase.{IsBetween}
use cofuos.Memory.Vm.FreeList.{IsFreeList, erase-IsFreeList}
use cofuos.Memory.Vm.Ordered.{extent_of, Inserted}
use cofuos.Memory.Vm.Hint.{insert-IsFreeList}
use cofuos.Memory.Vm.Prior.{Resolved, resolve_prior-Resolved}
use cofuos.Memory.Vm.Preserve.{preserve_run-used, preserve_run-IsChain, preserve_run-rest}
use cofuos.Memory.Vm.Used.{erase-used, insert-used}

-- A block that has left the list, with its links as they were.
abbrev pub TakenBlock : Option (Block × Space) → Space → Extent → List Extent → List Extent → Type 0
TakenBlock none s x ys zs = ⊥
TakenBlock (some (b, u)) s x ys zs =
    (extent_of b ≡ x)
    × IsBetween b ys zs
    × IsFreeList u (ys ++ zs)
    × ((j : ℕ) → is_used (u.table j) ≡ is_used (s.table j))

erased-TakenBlock :
    (o : Option Block) (s : Space) (ys zs : List Extent) (x : Extent)
    → Resolved o x ys zs
    → IsFreeList s (ys ++ x ∷ zs)
    → TakenBlock (erased o s) s x ys zs
erased-TakenBlock none s ys zs x r h = r
erased-TakenBlock (some b) s ys zs x (i, n, k) h =
    (rw (i, n) refl, k, erase-IsFreeList b s ys zs x k h, erase-used b s)

pub take_block-TakenBlock :
    (fuel : ℕ) (s : Space) (ys zs : List Extent) (x : Extent)
    → IsFreeList s (ys ++ x ∷ zs)
    → length ys ≤ fuel
    → TakenBlock (take_block fuel s (get s.table x.at)) s x ys zs
take_block-TakenBlock fuel s ys zs x h l =
    erased-TakenBlock (resolve_prior fuel s (get s.table x.at)) s ys zs x
      (resolve_prior-Resolved fuel s ys zs x h l) h

pub rest-IsApart :
    (ys zs : List Extent) (x : Extent) → IsPairwise (ys ++ x ∷ zs) → IsApart x (ys ++ zs)
rest-IsApart ys zs x d =
    let (dy, dz, apart) = IsPairwise-split ys (x ∷ zs) d in
    IsApart-join x ys zs (AreAllApart-first ys x zs apart) dz.0

-- A part of an extent is apart from what the extent is apart from.
pub part-IsApart :
    (x y : Extent) (xs : List Extent)
    → x.at ≤ y.at
    → y.at + y.size ≤ x.at + x.size
    → IsApart x xs
    → IsApart y xs
part-IsApart x y [] h g a = tt
part-IsApart x y (z ∷ xs) h g a = (ground (arith, a.0), part-IsApart x y xs h g a.1)

-- The last `n` entries of the block `x` are in use now, and what is left of it is free.
abbrev pub IsTakenFrom :
    Option (ℕ × Space) → ℕ → ℕ → Space → List Extent → Extent → List Extent → Type 0
IsTakenFrom none base n s ys x zs = ⊥
IsTakenFrom (some (addr, u)) base n s ys x zs =
    (addr ≡ base + (x.at + x.size - n) * 4096)
    × ((j : ℕ)
        → is_used (u.table j)
          ≡ is_used (s.table j) || (leb (x.at + x.size - n) j && ltb j (x.at + x.size - n + n)))
    × (((x.size ≡ n) × IsFreeList u (ys ++ zs))
        ⊎ Inserted u (record { at = x.at; size = x.size - n }) (ys ++ zs))

equal_of : (m n : ℕ) → (m == n) ≡ true → m ≡ n
equal_of m n e = ground arith

less_of : (m n : ℕ) → (m == n) ≡ false → n ≤ m → n < m
less_of m n e h = ground arith

insert-empty : (fuel : ℕ) (b : Block) (s : Space) → b.size ≡ 0 → insert fuel b s ≡ s
unfolding insert
insert-empty fuel b s h = let z : (b.size == 0) ≡ true = ground arith in rw z refl

IsRun-used :
    (t u : Table) (a n : ℕ) → ((j : ℕ) → is_used (u j) ≡ is_used (t j)) → IsRun t a n → IsRun u a n
IsRun-used t u a n used (p, q, f, e) =
    (p, q, λ k h. used (a + k) ∙ f k h, (let v = used (a + n) in ground arith))

pub taken-IsTakenFrom :
    (fuel base n : ℕ) (o : Option (Block × Space)) (s : Space) (ys zs : List Extent) (x : Extent)
    → TakenBlock o s x ys zs
    → IsFreeList s (ys ++ x ∷ zs)
    → 1 ≤ n
    → n ≤ x.size
    → length (ys ++ zs) ≤ fuel
    → IsTakenFrom (taken fuel base n o) base n s ys x zs
taken-IsTakenFrom fuel base n none s ys zs x t h p l f = t
taken-IsTakenFrom fuel base n (some (b, u)) s ys zs x (e, k, w, used) h p l f =
    let i = b.self + b.size - n in
    let v : Space = record { pdt = u.pdt; table = preserve_run n i u.table } in
    let c : Block = record b { size = b.size - n } in
    let apart = subst (λ y. IsApart y (ys ++ zs)) (sym e) (rest-IsApart ys zs x h.1) in
    let fits : n ≤ b.size = subst (λ y. n ≤ y.size) (sym e) l in
    let taken_apart =
      part-IsApart (extent_of b) (record { at = i; size = n }) (ys ++ zs) (omega arith)
        (omega arith) apart in
    let list : IsFreeList v (ys ++ zs) =
      (preserve_run-IsChain n i u.table none (ys ++ zs) none taken_apart w.0, w.1, w.2, w.3, w.4) in
    let in_use : (j : ℕ)
        → is_used ((insert fuel c v).table j) ≡ is_used (s.table j) || (leb i j && ltb j (i + n)) =
      λ j.
        insert-used fuel c v j
        ∙ preserve_run-used n i u.table j
        ∙ ap (λ q. q || (leb i j && ltb j (i + n))) (used j) in
    subst (λ y. IsTakenFrom (some (base + i * 4096, insert fuel c v)) base n s ys y zs) e
      (
        refl,
        in_use,
        elim (Bool-cases (b.size == n)) [
          | inl q ↦
              let same = equal_of b.size n q in
              let z : b.size - n ≡ 0 = omega arith in
              inl (same, subst (λ o. IsFreeList o (ys ++ zs)) (sym (insert-empty fuel c v z)) list)
          | inr q ↦
              let was : IsRun s.table x.at x.size =
                (IsChain-split s.table none ys (x ∷ zs) none h.0).1.0 in
              let now =
                subst (λ y. IsRun u.table y.at y.size) (sym e)
                  (IsRun-used s.table u.table x.at x.size used was) in
              let run = preserve_run-rest n u.table (extent_of b) (less_of b.size n q fits) p now in
              let left =
                part-IsApart (extent_of b) (extent_of c) (ys ++ zs) (omega arith) (omega arith)
                  apart in
              inr (insert-IsFreeList fuel c v (ys ++ zs) (inl (ys, zs, refl, k)) list left run f)
        ],
      )
