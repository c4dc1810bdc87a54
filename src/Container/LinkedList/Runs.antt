-- ===== src/Container/LinkedList/Runs.antt =====
-- Runs of nodes without a node twice, and runs that share none.
use cofuos.Prelude.{ℕ, ◌≡◌, refl, true, false, ◌||◌, List, [], ◌∷◌, ◌++◌, arith}
use cofuos.Prelude.Tickets.{contains}
use cofuos.Container.LinkedList.{Links}
use cofuos.Container.LinkedList.Segment.{last_or, first_or, IsSegment, IsDistinct}
use cofuos.Container.LinkedList.Relink.{contains-last_or}

pub contains-append :
    (xs ys : List ℕ) (a : ℕ) → contains (xs ++ ys) a ≡ contains xs a || contains ys a
contains-append [] ys a = refl
contains-append (x ∷ xs) ys a = ground (arith, contains-append xs ys a)

pub contains-zero :
    (k : Links) (b p : ℕ) (xs : List ℕ) (e : ℕ) → IsSegment k b p xs e → contains xs 0 ≡ false
contains-zero k b p [] e h = refl
contains-zero k b p (x ∷ xs) e (a, n, l, r) =
    let t = contains-zero k x (k.next x) xs e r in ground arith

pub IsSegment-first :
    (k : Links) (b p : ℕ) (xs : List ℕ) (e : ℕ) → IsSegment k b p xs e → p ≡ first_or e xs
IsSegment-first k b p [] e h = h
IsSegment-first k b p (x ∷ xs) e h = h.0

-- Two runs that share no node.
abbrev pub IsApart : List ℕ → List ℕ → Type 0
IsApart ys zs = (a : ℕ) → contains ys a ≡ true → contains zs a ≡ false

pub IsDistinct-split :
    (ys zs : List ℕ) → IsDistinct (ys ++ zs) → IsDistinct ys × IsDistinct zs × IsApart ys zs
IsDistinct-split [] zs d = (tt, d, λ a m. ground arith)
IsDistinct-split (y ∷ ys) zs (n, d) =
    let t = IsDistinct-split ys zs d in
    let c = contains-append ys zs y in
    ((ground arith, t.0), t.1, λ a m. (let u = t.2 a in ground arith))

pub IsDistinct-join :
    (ys zs : List ℕ) → IsDistinct ys → IsDistinct zs → IsApart ys zs → IsDistinct (ys ++ zs)
IsDistinct-join [] zs d f a = f
IsDistinct-join (y ∷ ys) zs (n, d) f a =
    let c = contains-append ys zs y in
    let m = a y (ground arith) in
    (ground arith, IsDistinct-join ys zs d f (λ b m. a b (ground arith)))

-- The end of a run is not among nodes that the run does not share.
pub apart-last :
    (k : Links) (b p e : ℕ) (ys zs : List ℕ)
    → IsApart ys zs
    → IsSegment k b p zs e
    → contains zs (last_or 0 ys) ≡ false
unfolding last_or
apart-last k b p e [] zs a h = contains-zero k b p zs e h
apart-last k b p e (y ∷ ys) zs a h = a (last_or y ys) (contains-last_or y ys)

pub apart-first :
    (k : Links) (b p e : ℕ) (ys zs : List ℕ)
    → IsApart ys zs
    → IsSegment k b p ys e
    → contains ys (first_or 0 zs) ≡ false
apart-first k b p e ys [] a h = contains-zero k b p ys e h
apart-first k b p e ys (z ∷ zs) a h = let t = a z in ground arith
