-- ===== src/Memory/Vm/Prior.antt =====
-- kernel/memory/vm.cpp: `resolve_prior` gives a block of one entry its link back.
use cofuos.Prelude.{
  ℕ, zero, suc, ◌≡◌, refl, sym, true, false, ◌==◌, ltb, arith, ◌+◌, ◌≤◌, ◌<◌, Bool-cases, ◌⊎◌, inl,
  inr, List, [], ◌∷◌, ◌++◌, Option, none, some, length,
}
use mathlib.Core.Path.{subst}
use cofuos.Memory.Vm.{Table, Block, Space, get, resolve_prior, find_prior}
use cofuos.Memory.Vm.Blocks.{IsRun}
use cofuos.Memory.Vm.Reads.{get-single}
use cofuos.Memory.Vm.Chain.{Extent, link_of, last_or, IsBlock, IsChain, IsPairwise, IsChain-split}
use cofuos.Memory.Vm.Relink.{last_extent, last_or-extent, last-IsBlock, IsPairwise-split}
use cofuos.Memory.Vm.Erase.{link_of-some, IsBetween}
use cofuos.Memory.Vm.FreeList.{IsFreeList}

apart-ne :
    (x y : Extent) (t : Table)
    → (x.at + x.size ≤ y.at) ⊎ (y.at + y.size ≤ x.at)
    → 1 ≤ x.size
    → 1 ≤ y.size
    → (x.at == y.at) ≡ false
apart-ne x y t a h g = ground arith

-- From a block that comes before `x` in the list, the loop comes to the one right before it.
find_prior-some :
    (fuel : ℕ) (t : Table) (b : Block) (c : Option ℕ) (y : Extent) (ys zs : List Extent)
    (x : Extent)
    → b.self ≡ x.at
    → IsChain t c (y ∷ ys ++ x ∷ zs) none
    → IsPairwise (y ∷ ys ++ x ∷ zs)
    → suc (length ys) ≤ fuel
    → find_prior fuel y.at t b ≡ some (record b { prev = (last_extent y ys).at; prev_valid = true })
find_prior-some zero t b c y ys zs x e h d l = absurd (omega arith)
find_prior-some (suc fuel) t b c y [] zs x e (r, k, h) d l =
    let (v, n) = link_of-some (get t y.at).next_valid (get t y.at).next x.at k.4 in
    let w : (x.at == b.self) ≡ true = ground arith in rw (v, n, w, k.0) refl
find_prior-some (suc fuel) t b c y (u ∷ ys) zs x e (r, k, h) d l =
    let (v, n) = link_of-some (get t y.at).next_valid (get t y.at).next u.at k.4 in
    let (dl, dr, apart) = IsPairwise-split (u ∷ ys) (x ∷ zs) d.1 in
    let (left, right) = IsChain-split t (some y.at) (u ∷ ys) (x ∷ zs) none h in
    let w : (u.at == b.self) ≡ false =
      subst (λ i. (u.at == i) ≡ false) (sym e) (apart-ne u x t apart.0.0 h.0.0 right.0.0) in
    rw (v, n, w) (find_prior-some fuel t b (some y.at) u ys zs x e h d.1 (omega arith))

is_big : (m n : ℕ) → m ≡ n → ltb 1 m ≡ true → 1 < n
is_big m n e h = ground arith

first-link :
    (t : Table) (x : Extent) (b e : Option ℕ)
    → IsRun t x.at x.size
    → IsBlock t x none e
    → link_of (get t x.at).prev_valid (get t x.at).prev ≡ none
first-link t x b e r k = elim (Bool-cases (ltb 1 x.size)) [
  | inl w ↦ k.5 (ground arith)
  | inr w ↦ let v = get-single t x.at x.size r k.0 (let q = r.0 in ground arith) in rw v refl
]

-- A block that knows its neighbours.
abbrev pub Resolved : Option Block → Extent → List Extent → List Extent → Type 0
Resolved none x ys zs = ⊥
Resolved (some b) x ys zs = (b.self ≡ x.at) × (b.size ≡ x.size) × IsBetween b ys zs

pub resolve_prior-Resolved :
    (fuel : ℕ) (s : Space) (ys zs : List Extent) (x : Extent)
    → IsFreeList s (ys ++ x ∷ zs)
    → length ys ≤ fuel
    → Resolved (resolve_prior fuel s (get s.table x.at)) x ys zs
unfolding resolve_prior last_or
resolve_prior-Resolved fuel s [] zs x ((r, k, c), d, a, h, m) l =
    let w : (s.pdt.head == (get s.table x.at).self) ≡ true = ground (arith, k.0) in
    rw w (k.0, k.1, (first-link s.table x none _ r k, k.4, k.3, k.2))
resolve_prior-Resolved fuel s (y ∷ ys) zs x (c, d, a, h, m) l =
    let (left, right) = IsChain-split s.table none (y ∷ ys) (x ∷ zs) none c in
    let (dl, dr, apart) = IsPairwise-split (y ∷ ys) (x ∷ zs) d in
    let k = right.1 in
    let b = get s.table x.at in
    let q = last-IsBlock s.table none y ys _ left in
    let w : (s.pdt.head == b.self) ≡ false =
      (let n = apart-ne y x s.table apart.0.0 left.0.0 right.0.0 in ground (arith, k.0)) in
    elim (Bool-cases (ltb 1 b.size)) [
      | inl e ↦ rw (w, e) (k.0, k.1, (k.5 (is_big b.size x.size k.1 e), k.4, k.3, k.2))
      | inr e ↦
          let p = find_prior-some fuel s.table b none y ys zs x k.0 c d l in
          let n : s.pdt.head ≡ y.at = h in
          let f : resolve_prior fuel s b
              ≡ some (record b { prev = (last_extent y ys).at; prev_valid = true }) =
            rw (w, e, n) p in
          subst (λ o. Resolved o x (y ∷ ys) zs) (sym f)
            (
              k.0,
              k.1,
              (
                sym (last_or-extent none y ys),
                k.4,
                (let u = q.0.0 in let v = q.0.1 in omega arith),
                k.2,
              ),
            )
    ]
