-- ===== src/Container/LinkedList/Segment.antt =====
-- Runs of nodes that are linked both ways.
use cofuos.Prelude.{ℕ, ◌≡◌, refl, ◌∙◌, ◌≢◌, true, false, List, [], ◌∷◌, ◌++◌, arith}
use cofuos.Prelude.Tickets.{contains}
use cofuos.Container.LinkedList.{Links}

-- The last of the nodes, or what comes before them.
unfoldable pub last_or : ℕ → List ℕ → ℕ
last_or b [] = b
last_or b (x ∷ xs) = last_or x xs

abbrev pub first_or : ℕ → List ℕ → ℕ
first_or e [] = e
first_or e (x ∷ xs) = x

-- From `p`, which comes after `b`, through `xs` to `e`.
abbrev pub IsSegment : Links → ℕ → ℕ → List ℕ → ℕ → Type 0
IsSegment k b p [] e = p ≡ e
IsSegment k b p (x ∷ xs) e = (p ≡ x) × (x ≢ 0) × (k.prev x ≡ b) × IsSegment k x (k.next x) xs e

abbrev pub IsDistinct : List ℕ → Type 0
IsDistinct [] = Unit
IsDistinct (x ∷ xs) = (contains xs x ≡ false) × IsDistinct xs

pub last_or-append : (b : ℕ) (ys zs : List ℕ) → last_or b (ys ++ zs) ≡ last_or (last_or b ys) zs
unfolding last_or
last_or-append b [] zs = refl
last_or-append b (y ∷ ys) zs = last_or-append y ys zs

-- A run is cut at any place.
pub IsSegment-split :
    (k : Links) (b p : ℕ) (ys zs : List ℕ) (e : ℕ)
    → IsSegment k b p (ys ++ zs) e
    → IsSegment k b p ys (first_or e zs) × IsSegment k (last_or b ys) (first_or e zs) zs e
unfolding last_or
IsSegment-split k b p [] [] e h = (h, refl)
IsSegment-split k b p [] (z ∷ zs) e (a, n, l, r) = (a, (refl, n, l, r))
IsSegment-split k b p (y ∷ ys) zs e (a, n, l, r) =
    let t = IsSegment-split k y (k.next y) ys zs e r in ((a, n, l, t.0), t.1)

pub IsSegment-join :
    (k : Links) (b p : ℕ) (ys zs : List ℕ) (e : ℕ)
    → IsSegment k b p ys (first_or e zs)
    → IsSegment k (last_or b ys) (first_or e zs) zs e
    → IsSegment k b p (ys ++ zs) e
unfolding last_or
IsSegment-join k b p [] [] e h g = h
IsSegment-join k b p [] (z ∷ zs) e h (a, n, l, r) = (h, n, l, r)
IsSegment-join k b p (y ∷ ys) zs e (a, n, l, r) g =
    (a, n, l, IsSegment-join k y (k.next y) ys zs e r g)

-- Two stores that agree on the nodes.
pub IsSegment-same :
    (k j : Links) (b p : ℕ) (xs : List ℕ) (e : ℕ)
    → ((a : ℕ) → contains xs a ≡ true → (j.next a ≡ k.next a) × (j.prev a ≡ k.prev a))
    → IsSegment k b p xs e
    → IsSegment j b p xs e
IsSegment-same k j b p [] e same h = h
IsSegment-same k j b p (x ∷ xs) e same (a, n, l, r) =
    let s = same x (ground arith) in
    let t = IsSegment-same k j x (k.next x) xs e (λ c m. same c (ground arith)) r in
    (a, n, s.1 ∙ l, rw s.0 t)
