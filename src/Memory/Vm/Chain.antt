-- ===== src/Memory/Vm/Chain.antt =====
-- kernel/memory/vm.cpp: the free blocks of a table, linked in the order of the list.
use cofuos.Prelude.{
  ℕ, ◌≡◌, refl, Bool, if◌then◌else◌, arith, ◌+◌, ◌≤◌, ◌<◌, ◌⊎◌, List, [], ◌∷◌, ◌++◌, Option, none,
  some,
}
use cofuos.Memory.Vm.{Table, Block, get, put}
use cofuos.Memory.Vm.Blocks.{IsRun, get-put, put-IsRun}
use cofuos.Memory.Vm.Reads.{get-put_other}

-- The entries of a free block: the first one and how many.
pub record Extent : Type 0 where
  pub at : ℕ
  pub size : ℕ

-- What a link that may be missing stands for.
abbrev pub link_of : Bool → ℕ → Option ℕ
link_of v n = if v then some n else none

unfoldable pub last_or : Option ℕ → List Extent → Option ℕ
last_or b [] = b
last_or b (x ∷ xs) = last_or (some x.at) xs

abbrev pub first_or : Option ℕ → List Extent → Option ℕ
first_or e [] = e
first_or e (x ∷ xs) = some x.at

-- The block is read from its entries with these links; a block of one entry keeps none back.
abbrev pub IsBlock : Table → Extent → Option ℕ → Option ℕ → Type 0
IsBlock t x before after =
    ((get t x.at).self ≡ x.at)
    × ((get t x.at).size ≡ x.size)
    × ((get t x.at).next < 512)
    × ((get t x.at).prev < 512)
    × (link_of (get t x.at).next_valid (get t x.at).next ≡ after)
    × (1 < x.size → link_of (get t x.at).prev_valid (get t x.at).prev ≡ before)

abbrev pub IsChain : Table → Option ℕ → List Extent → Option ℕ → Type 0
IsChain t b [] e = Unit
IsChain t b (x ∷ xs) e =
    IsRun t x.at x.size × IsBlock t x b (first_or e xs) × IsChain t (some x.at) xs e

abbrev pub IsApart : Extent → List Extent → Type 0
IsApart x [] = Unit
IsApart x (y ∷ ys) = ((x.at + x.size ≤ y.at) ⊎ (y.at + y.size ≤ x.at)) × IsApart x ys

abbrev pub IsPairwise : List Extent → Type 0
IsPairwise [] = Unit
IsPairwise (x ∷ xs) = IsApart x xs × IsPairwise xs

pub last_or-append :
    (b : Option ℕ) (ys zs : List Extent) → last_or b (ys ++ zs) ≡ last_or (last_or b ys) zs
unfolding last_or
last_or-append b [] zs = refl
last_or-append b (y ∷ ys) zs = last_or-append (some y.at) ys zs

pub IsChain-split :
    (t : Table) (b : Option ℕ) (ys zs : List Extent) (e : Option ℕ)
    → IsChain t b (ys ++ zs) e
    → IsChain t b ys (first_or e zs) × IsChain t (last_or b ys) zs e
unfolding last_or
IsChain-split t b [] zs e h = (tt, h)
IsChain-split t b (y ∷ []) [] e (r, k, h) = ((r, k, tt), tt)
IsChain-split t b (y ∷ []) (z ∷ zs) e (r, k, h) = ((r, k, tt), h)
IsChain-split t b (y ∷ x ∷ ys) zs e (r, k, h) =
    let u = IsChain-split t (some y.at) (x ∷ ys) zs e h in ((r, k, u.0), u.1)

pub IsChain-join :
    (t : Table) (b : Option ℕ) (ys zs : List Extent) (e : Option ℕ)
    → IsChain t b ys (first_or e zs)
    → IsChain t (last_or b ys) zs e
    → IsChain t b (ys ++ zs) e
unfolding last_or
IsChain-join t b [] zs e h g = g
IsChain-join t b (y ∷ []) [] e (r, k, h) g = (r, k, tt)
IsChain-join t b (y ∷ []) (z ∷ zs) e (r, k, h) g = (r, k, g)
IsChain-join t b (y ∷ x ∷ ys) zs e (r, k, h) g =
    (r, k, IsChain-join t (some y.at) (x ∷ ys) zs e h g)

-- Blocks that are apart from the one that is written.
pub put-IsChain :
    (c : Block) (t : Table) (b : Option ℕ) (xs : List Extent) (e : Option ℕ)
    → 1 ≤ c.size
    → IsApart (record { at = c.self; size = c.size }) xs
    → IsChain t b xs e
    → IsChain (put c t) b xs e
put-IsChain c t b [] e p a h = tt
put-IsChain c t b (x ∷ xs) e p (d, a) (r, k, h) =
    let g = get-put_other c t x.at x.size r k.0 p (ground arith) in
    (put-IsRun c t x.at x.size r, rw g k, put-IsChain c t (some x.at) xs e p a h)

-- A block that is written with these links, when it is free and they are in the table.
pub put-IsBlock :
    (c : Block) (t : Table)
    → IsRun t c.self c.size
    → c.next < 512
    → c.prev < 512
    → IsBlock
        (put c t)
        (record { at = c.self; size = c.size })
        (link_of c.prev_valid c.prev)
        (link_of c.next_valid c.next)
put-IsBlock c t r n m =
    let z : c.self + 0 ≡ c.self = omega arith in
    let g = rw z at (get-put c t 0 r n m (let p = r.0 in omega arith)) in rw g (ground arith)
