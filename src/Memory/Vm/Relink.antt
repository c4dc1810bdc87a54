-- ===== src/Memory/Vm/Relink.antt =====
-- kernel/memory/vm.cpp: the links of one block are written anew.
use cofuos.Prelude.{
  ℕ, ◌≡◌, refl, sym, ◌∙◌, Bool, arith, ◌+◌, ◌≤◌, ◌<◌, ◌⊎◌, List, [], ◌∷◌, ◌++◌, Option, some,
}
use mathlib.Core.Path.{subst}
use cofuos.Memory.Vm.{Table, Block, get, put}
use cofuos.Memory.Vm.Blocks.{IsRun, put-IsRun}
use cofuos.Memory.Vm.Reads.{get-put_other}
use cofuos.Memory.Vm.Chain.{
  Extent, link_of, last_or, IsBlock, IsChain, IsApart, IsPairwise, put-IsBlock, put-IsChain,
}

-- The block at an extent, with another link to the next one, or to the one before.
abbrev pub with_next : Table → ℕ → Bool → ℕ → Block
with_next t a v m = record (get t a) { next = m; next_valid = v }

abbrev pub with_prev : Table → ℕ → Bool → ℕ → Block
with_prev t a v m = record (get t a) { prev = m; prev_valid = v }

next-IsBlock :
    (t : Table) (x : Extent) (b e : Option ℕ) (v : Bool) (m : ℕ)
    → IsRun t x.at x.size
    → IsBlock t x b e
    → m < 512
    → IsBlock (put (with_next t x.at v m) t) x b (link_of v m)
next-IsBlock t x b e v m r (i, n, k, l, f, g) h =
    let c = with_next t x.at v m in
    let u = put-IsBlock c t (rw (i, n) r) h l in
    let q : record { at = c.self; size = c.size } ≡ x = rw (i, n) refl in
    let w = subst (λ y. IsBlock (put c t) y (link_of c.prev_valid c.prev) (link_of v m)) q u in
    (w.0, w.1, w.2, w.3, w.4, λ big. w.5 big ∙ g big)

prev-IsBlock :
    (t : Table) (x : Extent) (b e : Option ℕ) (v : Bool) (m : ℕ)
    → IsRun t x.at x.size
    → IsBlock t x b e
    → m < 512
    → IsBlock (put (with_prev t x.at v m) t) x (link_of v m) e
prev-IsBlock t x b e v m r (i, n, k, l, f, g) h =
    let c = with_prev t x.at v m in
    let u = put-IsBlock c t (rw (i, n) r) k h in
    let q : record { at = c.self; size = c.size } ≡ x = rw (i, n) refl in
    let w = subst (λ y. IsBlock (put c t) y (link_of v m) (link_of c.next_valid c.next)) q u in
    (w.0, w.1, w.2, w.3, w.4 ∙ f, w.5)

abbrev pub last_extent : Extent → List Extent → Extent
last_extent x [] = x
last_extent x (y ∷ ys) = last_extent y ys

pub last_or-extent :
    (b : Option ℕ) (x : Extent) (xs : List Extent) → last_or b (x ∷ xs) ≡ some (last_extent x xs).at
unfolding last_or
last_or-extent b x [] = refl
last_or-extent b x (y ∷ ys) = last_or-extent (some x.at) y ys

abbrev pub AreApart : Extent → Extent → Type 0
AreApart x y = (x.at + x.size ≤ y.at) ⊎ (y.at + y.size ≤ x.at)

pub IsApart-last :
    (c x : Extent) (xs : List Extent) → IsApart c (x ∷ xs) → AreApart c (last_extent x xs)
IsApart-last c x [] h = h.0
IsApart-last c x (y ∷ ys) h = IsApart-last c y ys h.1

-- The last block of a run is a block of the table.
pub last-IsBlock :
    (t : Table) (b : Option ℕ) (x : Extent) (xs : List Extent) (e : Option ℕ)
    → IsChain t b (x ∷ xs) e
    → IsRun t (last_extent x xs).at (last_extent x xs).size
      × ((get t (last_extent x xs).at).self ≡ (last_extent x xs).at)
      × ((get t (last_extent x xs).at).size ≡ (last_extent x xs).size)
last-IsBlock t b x [] e (r, k, h) = (r, k.0, k.1)
last-IsBlock t b x (y ∷ ys) e (r, k, h) = last-IsBlock t (some x.at) y ys e h

pub next-IsChain :
    (t : Table) (b : Option ℕ) (x : Extent) (xs : List Extent) (e : Option ℕ) (v : Bool) (m : ℕ)
    → IsPairwise (x ∷ xs)
    → IsChain t b (x ∷ xs) e
    → m < 512
    → IsChain (put (with_next t (last_extent x xs).at v m) t) b (x ∷ xs) (link_of v m)
next-IsChain t b x [] e v m d (r, k, h) l =
    (put-IsRun (with_next t x.at v m) t x.at x.size r, next-IsBlock t x b e v m r k l, tt)
next-IsChain t b x (y ∷ ys) e v m d (r, k, h) l =
    let z = last_extent y ys in
    let c = with_next t z.at v m in
    let q = last-IsBlock t (some x.at) y ys e h in
    let a = IsApart-last x y ys d.0 in
    let s : 1 ≤ c.size = (let u = q.0.0 in let w = q.2 in omega arith) in
    let g = get-put_other c t x.at x.size r k.0 s (let u = q.1 in let w = q.2 in ground arith) in
    (put-IsRun c t x.at x.size r, rw g k, next-IsChain t (some x.at) y ys e v m d.1 h l)

pub prev-IsChain :
    (t : Table) (b : Option ℕ) (x : Extent) (xs : List Extent) (e : Option ℕ) (v : Bool) (m : ℕ)
    → IsPairwise (x ∷ xs)
    → IsChain t b (x ∷ xs) e
    → m < 512
    → IsChain (put (with_prev t x.at v m) t) (link_of v m) (x ∷ xs) e
prev-IsChain t b x xs e v m d (r, k, h) l =
    let c = with_prev t x.at v m in
    let s : 1 ≤ c.size = (let u = r.0 in let w = k.1 in omega arith) in
    let q : record { at = c.self; size = c.size } ≡ x = rw (k.0, k.1) refl in
    let a : IsApart (record { at = c.self; size = c.size }) xs =
      subst (λ y. IsApart y xs) (sym q) d.0 in
    (
      put-IsRun c t x.at x.size r,
      prev-IsBlock t x b _ v m r k l,
      put-IsChain c t (some x.at) xs e s a h,
    )

-- A block of one entry keeps no link back.
pub single-IsChain :
    (t : Table) (b c : Option ℕ) (x : Extent) (xs : List Extent) (e : Option ℕ)
    → x.size ≡ 1
    → IsChain t b (x ∷ xs) e
    → IsChain t c (x ∷ xs) e
single-IsChain t b c x xs e n (r, k, h) =
    (r, (k.0, k.1, k.2, k.3, k.4, λ big. absurd (omega arith)), h)

-- All blocks of one list are apart from all of another.
abbrev pub AreAllApart : List Extent → List Extent → Type 0
AreAllApart [] zs = Unit
AreAllApart (y ∷ ys) zs = IsApart y zs × AreAllApart ys zs

pub IsApart-append :
    (x : Extent) (ys zs : List Extent) → IsApart x (ys ++ zs) → IsApart x ys × IsApart x zs
IsApart-append x [] zs h = (tt, h)
IsApart-append x (y ∷ ys) zs h = let t = IsApart-append x ys zs h.1 in ((h.0, t.0), t.1)

pub IsApart-join :
    (x : Extent) (ys zs : List Extent) → IsApart x ys → IsApart x zs → IsApart x (ys ++ zs)
IsApart-join x [] zs h g = g
IsApart-join x (y ∷ ys) zs h g = (h.0, IsApart-join x ys zs h.1 g)

pub IsPairwise-split :
    (ys zs : List Extent)
    → IsPairwise (ys ++ zs)
    → IsPairwise ys × IsPairwise zs × AreAllApart ys zs
IsPairwise-split [] zs h = (tt, h, tt)
IsPairwise-split (y ∷ ys) zs h =
    let t = IsPairwise-split ys zs h.1 in
    let u = IsApart-append y ys zs h.0 in ((u.0, t.0), t.1, (u.1, t.2))

pub IsPairwise-join :
    (ys zs : List Extent)
    → IsPairwise ys
    → IsPairwise zs
    → AreAllApart ys zs
    → IsPairwise (ys ++ zs)
IsPairwise-join [] zs h g a = g
IsPairwise-join (y ∷ ys) zs h g a = (IsApart-join y ys zs h.0 a.0, IsPairwise-join ys zs h.1 g a.1)

-- The last of these blocks, seen from the others.
pub AreAllApart-last :
    (y : Extent) (ys zs : List Extent) → AreAllApart (y ∷ ys) zs → IsApart (last_extent y ys) zs
AreAllApart-last y [] zs h = h.0
AreAllApart-last y (x ∷ ys) zs h = AreAllApart-last x ys zs h.1

pub AreAllApart-first :
    (ys : List Extent) (z : Extent) (zs : List Extent) → AreAllApart ys (z ∷ zs) → IsApart z ys
AreAllApart-first [] z zs h = tt
AreAllApart-first (y ∷ ys) z zs h = (ground (arith, h.0.0), AreAllApart-first ys z zs h.1)

pub AreAllApart-rest :
    (ys : List Extent) (z : Extent) (zs : List Extent) → AreAllApart ys (z ∷ zs) → AreAllApart ys zs
AreAllApart-rest [] z zs h = tt
AreAllApart-rest (y ∷ ys) z zs h = (h.0.1, AreAllApart-rest ys z zs h.1)
