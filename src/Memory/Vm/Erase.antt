-- ===== src/Memory/Vm/Erase.antt =====
-- kernel/memory/vm.cpp: a block leaves the list of the free ones.
use cofuos.Prelude.{
  ℕ, ◌≡◌, refl, sym, ◌∙◌, Bool, true, false, ltb, if◌then◌else◌, arith, ◌<◌, Bool-cases, inl, inr,
  List, [], ◌∷◌, Option, none, some,
}
use mathlib.Core.Path.{subst}
use cofuos.Memory.Vm.{Table, Block, get, put}
use cofuos.Memory.Vm.Chain.{
  Extent, link_of, last_or, first_or, IsChain, IsApart, IsPairwise, put-IsChain,
}
use cofuos.Memory.Vm.Relink.{
  with_next, with_prev, last_extent, last_or-extent, last-IsBlock, next-IsChain, prev-IsChain,
  single-IsChain, AreAllApart, AreAllApart-last, AreAllApart-first,
}

pub link_of-some : (v : Bool) (n m : ℕ) → link_of v n ≡ some m → (v ≡ true) × (n ≡ m)
link_of-some v n m h = ground arith

pub link_of-none : (v : Bool) (n : ℕ) → link_of v n ≡ none → v ≡ false
link_of-none v n h = ground arith

-- The table after the write to the block before.
abbrev pub relink_before : Block → Table → Table
relink_before b t = if b.prev_valid then put (with_next t b.prev b.next_valid b.next) t else t

-- The table after the write to the block after.
abbrev pub relink_after : Block → Table → Table
relink_after b t =
    if b.next_valid
    then (if ltb 1 (get t b.next).size then put (with_prev t b.next b.prev_valid b.prev) t else t)
    else t

-- The links of a block that stands between these.
abbrev pub IsBetween : Block → List Extent → List Extent → Type 0
IsBetween b ys zs =
    (link_of b.prev_valid b.prev ≡ last_or none ys)
    × (link_of b.next_valid b.next ≡ first_or none zs)
    × (b.prev < 512)
    × (b.next < 512)

pub relink_before-left :
    (b : Block) (t : Table) (ys zs : List Extent) (e : Option ℕ)
    → IsBetween b ys zs
    → IsPairwise ys
    → IsChain t none ys e
    → IsChain (relink_before b t) none ys (first_or none zs)
relink_before-left b t [] zs e k d h = tt
relink_before-left b t (y ∷ ys) zs e k d h =
    let (v, n) =
      link_of-some b.prev_valid b.prev (last_extent y ys).at (k.0 ∙ last_or-extent none y ys) in
    let u = next-IsChain t none y ys e b.next_valid b.next d h k.3 in
    let w =
      subst
        (λ q.
          IsChain (put (with_next t (last_extent y ys).at b.next_valid b.next) t) none (y ∷ ys) q)
        k.1 u in
    let g : relink_before b t ≡ put (with_next t (last_extent y ys).at b.next_valid b.next) t =
      rw (v, n) refl in
    subst (λ q. IsChain q none (y ∷ ys) (first_or none zs)) (sym g) w

pub relink_before-right :
    (b : Block) (t : Table) (ys zs : List Extent) (e c : Option ℕ)
    → IsBetween b ys zs
    → AreAllApart ys zs
    → IsChain t none ys e
    → IsChain t c zs none
    → IsChain (relink_before b t) c zs none
unfolding last_or
relink_before-right b t [] zs e c k a h g = let v = link_of-none b.prev_valid b.prev k.0 in rw v g
relink_before-right b t (y ∷ ys) zs e c k a h g =
    let (v, n) =
      link_of-some b.prev_valid b.prev (last_extent y ys).at (k.0 ∙ last_or-extent none y ys) in
    let x = last_extent y ys in
    let w = with_next t x.at b.next_valid b.next in
    let q = last-IsBlock t none y ys e h in
    let same : record { at = w.self; size = w.size } ≡ x = rw (q.1, q.2) refl in
    let apart = subst (λ z. IsApart z zs) (sym same) (AreAllApart-last y ys zs a) in
    let u = put-IsChain w t c zs none (let l = q.0.0 in let m = q.2 in omega arith) apart g in
    let p : relink_before b t ≡ put w t = rw (v, n) refl in
    subst (λ z. IsChain z c zs none) (sym p) u

pub relink_after-right :
    (b : Block) (t : Table) (ys zs : List Extent) (c : Option ℕ)
    → IsBetween b ys zs
    → IsPairwise zs
    → IsChain t c zs none
    → IsChain (relink_after b t) (last_or none ys) zs none
relink_after-right b t ys [] c k d h = tt
relink_after-right b t ys (z ∷ zs) c k d h =
    let (v, n) = link_of-some b.next_valid b.next z.at k.1 in
    let q = h.1.1 in
    elim (Bool-cases (ltb 1 z.size)) [
      | inl w ↦
          let u = prev-IsChain t c z zs none b.prev_valid b.prev d h k.2 in
          let u' =
            subst (λ o. IsChain (put (with_prev t z.at b.prev_valid b.prev) t) o (z ∷ zs) none) k.0
              u in
          let g : relink_after b t ≡ put (with_prev t z.at b.prev_valid b.prev) t =
            rw (v, n, q, w) refl in
          subst (λ o. IsChain o (last_or none ys) (z ∷ zs) none) (sym g) u'
      | inr w ↦
          let one : z.size ≡ 1 = (let m = h.0.0 in ground arith) in
          let g : relink_after b t ≡ t = rw (v, n, q, w) refl in
          subst (λ o. IsChain o (last_or none ys) (z ∷ zs) none) (sym g)
            (single-IsChain t c _ z zs none one h)
    ]

pub relink_after-left :
    (b : Block) (t : Table) (ys zs : List Extent) (c e : Option ℕ)
    → IsBetween b ys zs
    → AreAllApart ys zs
    → IsChain t c zs none
    → IsChain t none ys e
    → IsChain (relink_after b t) none ys e
relink_after-left b t ys [] c e k a h g = let v = link_of-none b.next_valid b.next k.1 in rw v g
relink_after-left b t ys (z ∷ zs) c e k a h g =
    let (v, n) = link_of-some b.next_valid b.next z.at k.1 in
    let q = h.1.1 in
    elim (Bool-cases (ltb 1 z.size)) [
      | inl w ↦
          let x = with_prev t z.at b.prev_valid b.prev in
          let same : record { at = x.self; size = x.size } ≡ z = rw (h.1.0, q) refl in
          let apart = subst (λ y. IsApart y ys) (sym same) (AreAllApart-first ys z zs a) in
          let u = put-IsChain x t none ys e (let m = h.0.0 in omega arith) apart g in
          let p : relink_after b t ≡ put x t = rw (v, n, q, w) refl in
          subst (λ o. IsChain o none ys e) (sym p) u
      | inr w ↦
          let p : relink_after b t ≡ t = rw (v, n, q, w) refl in
          subst (λ o. IsChain o none ys e) (sym p) g
    ]
