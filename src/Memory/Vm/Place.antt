-- ===== src/Memory/Vm/Place.antt =====
-- kernel/memory/vm.cpp: the place in the list where `insert` puts a block.
use cofuos.Memory.Vm.Relink.{last_or-extent}
use cofuos.Prelude.{
  snoc, ℕ, zero, suc, ◌≡◌, refl, sym, ap, ◌∙◌, true, false, not, ◌==◌, ltb, ◌&&◌, arith, ◌≤◌, ◌<◌,
  Bool-cases, inl, inr, List, [], ◌∷◌, ◌++◌, Option, none, some, length, length-append,
}
use mathlib.Core.Path.{subst}
use mathlib.Core.List.{append-nil}
use cofuos.Memory.Vm.{Table, Block, get}
use cofuos.Memory.Vm.Insert.{Place, shift_left, shift_right}
use cofuos.Memory.Vm.Chain.{
  Extent, link_of, last_or, first_or, IsChain, IsChain-split, last_or-append,
}
use cofuos.Memory.Vm.Erase.{link_of-some, link_of-none}
use cofuos.Memory.Vm.FreeList.{last_size, last_size-append}

abbrev pub IsBlockOf : Table → Block → Option ℕ → Type 0
IsBlockOf t c none = c.size ≡ 0
IsBlockOf t c (some a) = c ≡ get t a

-- The two neighbours of a place between the blocks `ys` and the blocks `zs`.
abbrev pub IsPlace : Table → Place → List Extent → List Extent → Type 0
IsPlace t p ys zs = IsBlockOf t p.before (last_or none ys) × IsBlockOf t p.after (first_or none zs)

abbrev pub IsFirstAtLeast : ℕ → List Extent → Type 0
IsFirstAtLeast n [] = Unit
IsFirstAtLeast n (z ∷ zs) = n ≤ z.size

-- A place in the list where a block of the size `n` is in order.
abbrev pub Placed : Table → ℕ → Place → List Extent → Type 0
Placed t n p xs =
    (us : List Extent) × (vs : List Extent) × (us ++ vs ≡ xs)
    × IsPlace t p us vs
    × (last_size us ≤ n)
    × IsFirstAtLeast n vs

-- What is known of the block `z` at the place, which may be passed by.
abbrev Passed : Table → Block → List Extent → Extent → Type 0
Passed t c ys z =
    (c.size ≡ z.size)
    × (1 ≤ z.size)
    × (z.at < 512)
    × IsBlockOf t c (last_or none (ys ++ z ∷ []))
    × (last_size (ys ++ z ∷ []) ≡ z.size)

passed :
    (t : Table) (c : Block) (ys zs : List Extent) (z : Extent)
    → IsChain t none (ys ++ z ∷ zs) none
    → c ≡ get t z.at
    → Passed t c ys z
      × (link_of c.next_valid c.next ≡ first_or none zs)
      × (1 < z.size → link_of c.prev_valid c.prev ≡ last_or none ys)
unfolding last_or
passed t c ys zs z h k =
    let (r, b, rest) = (IsChain-split t none ys (z ∷ zs) none h).1 in
    let further : last_or none (ys ++ z ∷ []) ≡ some z.at = last_or-append none ys (z ∷ []) in
    (
      (
        ap (λ x. x.size) k ∙ b.1,
        r.0,
        (let p = r.0 in let q = r.1 in omega arith),
        subst (IsBlockOf t c) (sym further) k,
        last_size-append ys [] z,
      ),
      ap (λ x. link_of x.next_valid x.next) k ∙ b.4,
      λ big. ap (λ x. link_of x.prev_valid x.prev) k ∙ b.5 big,
    )

append-one : (ys zs : List Extent) (z : Extent) → (ys ++ z ∷ []) ++ zs ≡ ys ++ z ∷ zs
append-one [] zs z = refl
append-one (y ∷ ys) zs z = ap (λ l. y ∷ l) (append-one ys zs z)

pub shift_right-Placed :
    (fuel : ℕ) (t : Table) (n : ℕ) (p : Place) (ys zs : List Extent)
    → IsChain t none (ys ++ zs) none
    → IsPlace t p ys zs
    → last_size ys ≤ n
    → length zs ≤ fuel
    → Placed t n (shift_right fuel t n p) (ys ++ zs)
unfolding last_or
shift_right-Placed zero t n p ys [] h k l f = (ys, [], refl, k, l, tt)
shift_right-Placed zero t n p ys (z ∷ zs) h k l f = absurd (omega arith)
shift_right-Placed (suc fuel) t n p ys [] h k l f =
    let e : (p.after.size == 0) ≡ true = (let q = k.1 in ground arith) in
    rw e (ys, [], refl, k, l, tt)
shift_right-Placed (suc fuel) t n p ys (z ∷ []) h k l f =
    let (q, on, back) = passed t p.after ys [] z h k.1 in
    elim (Bool-cases (ltb z.size n)) [
      | inr e ↦
          let c : not (p.after.size == 0) && ltb p.after.size n ≡ false = ground (arith, q.0) in
          rw c (ys, z ∷ [], refl, k, l, ground arith)
      | inl e ↦
          let c : not (p.after.size == 0) && ltb p.after.size n ≡ true = ground (arith, q.0, q.1) in
          let v = link_of-none p.after.next_valid p.after.next on in
          let g : shift_right (suc fuel) t n p
              ≡ record { before = p.after; after = record p.after { size = 0 } } =
            rw (c, v) refl in
          subst (λ o. Placed t n o (ys ++ z ∷ [])) (sym g)
            (ys ++ z ∷ [], [], append-nil (ys ++ z ∷ []), (q.3, refl), ground (arith, q.4), tt)
    ]
shift_right-Placed (suc fuel) t n p ys (z ∷ w ∷ zs) h k l f =
    let (q, on, back) = passed t p.after ys (w ∷ zs) z h k.1 in
    elim (Bool-cases (ltb z.size n)) [
      | inr e ↦
          let c : not (p.after.size == 0) && ltb p.after.size n ≡ false = ground (arith, q.0) in
          rw c (ys, z ∷ w ∷ zs, refl, k, l, ground arith)
      | inl e ↦
          let c : not (p.after.size == 0) && ltb p.after.size n ≡ true = ground (arith, q.0, q.1) in
          let (v, m) = link_of-some p.after.next_valid p.after.next w.at on in
          let eq = append-one ys (w ∷ zs) z in
          let next : Place = record { before = p.after; after = get t p.after.next } in
          let again =
            shift_right-Placed fuel t n next (ys ++ z ∷ []) (w ∷ zs)
              (subst (λ x. IsChain t none x none) (sym eq) h) (q.3, ap (get t) m)
              (ground (arith, q.4)) (omega arith) in
          let g : shift_right (suc fuel) t n p ≡ shift_right fuel t n next = rw (c, v) refl in
          subst (λ o. Placed t n o (ys ++ z ∷ w ∷ zs)) (sym g)
            (subst (Placed t n (shift_right fuel t n next)) eq again)
    ]

pub last_or-none : (xs : List Extent) → last_or none xs ≡ none → xs ≡ []
unfolding last_or
last_or-none [] h = refl
last_or-none (x ∷ xs) h = absurd (let e = sym (last_or-extent none x xs) ∙ h in ground arith)

pub shift_left-Placed :
    (fuel : ℕ) (t : Table) (n : ℕ) (p : Place) (ys zs : List Extent)
    → IsChain t none (ys ++ zs) none
    → IsPlace t p ys zs
    → 1 ≤ n
    → IsFirstAtLeast n zs
    → length ys ≤ fuel
    → Placed t n (shift_left fuel t n p) (ys ++ zs)
unfolding last_or
shift_left-Placed zero t n p [] zs h k o l f = ([], zs, refl, k, omega arith, l)
shift_left-Placed zero t n p (y ∷ ys) zs h k o l f = absurd (omega arith)
shift_left-Placed (suc fuel) t n p [] zs h k o l f =
    let e : (p.before.size == 0) ≡ true = (let q = k.0 in ground arith) in
    rw e ([], zs, refl, k, omega arith, l)
shift_left-Placed (suc fuel) t n p (y ∷ ys) zs h k o l f =
    let (ws, w, eq) = snoc y ys in
    let k' = subst (λ x. IsPlace t p x zs) eq k in
    let b : p.before ≡ get t w.at =
      subst (IsBlockOf t p.before) (last_or-append none ws (w ∷ [])) k'.0 in
    let h' = subst (λ x. IsChain t none x none) (ap (λ x. x ++ zs) eq ∙ append-one ws zs w) h in
    let (q, on, back) = passed t p.before ws zs w h' b in
    let whole : y ∷ ys ++ zs ≡ ws ++ w ∷ zs = ap (λ x. x ++ zs) eq ∙ append-one ws zs w in
    let shorter : suc (length ws) ≡ length (y ∷ ys) =
      ground (arith, ap length eq, length-append ws (w ∷ [])) in
    elim (Bool-cases (ltb n w.size)) [
      | inr e ↦
          let c : not (p.before.size == 0) && ltb n p.before.size ≡ false = ground (arith, q.0) in
          let least : last_size (y ∷ ys) ≤ n = (let u = ap last_size eq ∙ q.4 in ground arith) in
          rw c (y ∷ ys, zs, refl, k, least, l)
      | inl e ↦
          let c : not (p.before.size == 0) && ltb n p.before.size ≡ true =
            ground (arith, q.0, q.1) in
          let linked = back (ground arith) in
          let here : n ≤ w.size = ground arith in
          elim (Bool-cases p.before.prev_valid) [
            | inl v ↦
                let next : Place = record { before = get t p.before.prev; after = p.before } in
                let before : IsBlockOf t next.before (last_or none ws) =
                  subst (IsBlockOf t next.before)
                    (ap (λ x. link_of x p.before.prev) (sym v) ∙ linked) refl in
                let again =
                  shift_left-Placed fuel t n next ws (w ∷ zs) h' (before, b) o here (omega arith) in
                let g : shift_left (suc fuel) t n p ≡ shift_left fuel t n next = rw (c, v) refl in
                subst (λ x. Placed t n x (y ∷ ys ++ zs)) (sym g)
                  (subst (Placed t n (shift_left fuel t n next)) (sym whole) again)
            | inr v ↦
                let none_before =
                  last_or-none ws (sym linked ∙ ap (λ x. link_of x p.before.prev) v) in
                let same : w ∷ zs ≡ y ∷ ys ++ zs =
                  sym (whole ∙ ap (λ x. x ++ w ∷ zs) none_before) in
                let g : shift_left (suc fuel) t n p
                    ≡ record { before = record p.before { size = 0 }; after = p.before } =
                  rw (c, v) refl in
                subst (λ x. Placed t n x (y ∷ ys ++ zs)) (sym g)
                  ([], w ∷ zs, same, (refl, b), omega arith, here)
          ]
    ]
