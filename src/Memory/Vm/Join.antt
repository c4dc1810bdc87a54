-- ===== src/Memory/Vm/Join.antt =====
-- kernel/memory/vm.cpp: a block is put into the list of the free ones.
use cofuos.Prelude.{
  ℕ, ◌≡◌, refl, sym, ap, ◌∙◌, true, false, not, ◌==◌, ltb, ◌&&◌, if◌then◌else◌, arith, ◌%◌, ◌≤◌,
  ◌<◌, Bool-cases, inl, inr, List, [], ◌∷◌, ◌++◌, Option, none, some, length, length-append,
}
use mathlib.Core.Path.{subst}
use cofuos.Memory.Vm.{Table, Block, Space, get, put, put_max_size}
use cofuos.Memory.Vm.Insert.{Place, find_place, insert_at, linked}
use cofuos.Memory.Vm.Sizes.{class_of}
use cofuos.Memory.Vm.Blocks.{IsRun, put-IsRun}
use cofuos.Memory.Vm.Reads.{get-put_other}
use cofuos.Memory.Vm.Chain.{
  Extent, last_or, first_or, IsChain, IsApart, IsPairwise, IsChain-split, put-IsChain,
}
use cofuos.Memory.Vm.Relink.{
  with_next, with_prev, last_extent, last_or-extent, last-IsBlock, next-IsChain, prev-IsChain,
  AreAllApart, AreAllApart-last, AreAllApart-first, AreApart,
}
use cofuos.Memory.Vm.FreeList.{IsAscending, last_size}
use cofuos.Memory.Vm.Place.{
  IsPlace, IsBlockOf, IsFirstAtLeast, Placed, shift_right-Placed, shift_left-Placed,
}

pub before-size :
    (t : Table) (c : Block) (ys zs : List Extent)
    → IsChain t none (ys ++ zs) none
    → IsBlockOf t c (last_or none ys)
    → c.size ≡ last_size ys
unfolding last_or
before-size t c [] zs h k = k
before-size t c (y ∷ ys) zs h k =
    let left = (IsChain-split t none (y ∷ ys) zs none h).0 in
    let e = subst (IsBlockOf t c) (last_or-extent none y ys) k in
    ap (λ x. x.size) e ∙ (last-IsBlock t none y ys _ left).2

ascending-at :
    (ys zs : List Extent) (n : ℕ) → IsAscending (ys ++ zs) → n < last_size ys → IsFirstAtLeast n zs
ascending-at [] zs n h l = absurd (omega arith)
ascending-at (y ∷ []) [] n h l = tt
ascending-at (y ∷ []) (z ∷ zs) n h l = omega (arith, h.0)
ascending-at (y ∷ x ∷ ys) zs n h l = ascending-at (x ∷ ys) zs n h.1 l

-- From any place of the list, the loops find one that is in order.
pub find_place-Placed :
    (fuel : ℕ) (t : Table) (n : ℕ) (p : Place) (ys zs : List Extent)
    → IsChain t none (ys ++ zs) none
    → IsAscending (ys ++ zs)
    → IsPlace t p ys zs
    → 1 ≤ n
    → length (ys ++ zs) ≤ fuel
    → Placed t n (find_place fuel t n p) (ys ++ zs)
find_place-Placed fuel t n p ys zs h a k o f =
    let s = before-size t p.before ys zs h k.0 in
    let l = length-append ys zs in
    elim (Bool-cases (ltb n p.before.size)) [
      | inl e ↦
          let c : not (p.before.size == 0) && ltb n p.before.size ≡ true = ground arith in
          rw c (
            shift_left-Placed fuel t n p ys zs h k o (ascending-at ys zs n a (ground arith))
              (omega arith))
      | inr e ↦
          let c : not (p.before.size == 0) && ltb n p.before.size ≡ false = ground arith in
          rw c (shift_right-Placed fuel t n p ys zs h k (ground arith) (omega arith))
    ]

-- The tables after the two neighbours are written.
abbrev pub table_after : Block → Place → Table → Table
table_after b p t =
    if p.after.size == 0 then t else put (record p.after { prev = b.self; prev_valid = true }) t

abbrev pub table_before : Block → Place → Table → Table
table_before b p t =
    if p.before.size == 0 then t else put (record p.before { next = b.self; next_valid = true }) t

pub insert_at-parts :
    (b : Block) (p : Place) (s : Space)
    → ((insert_at b p s).table ≡ put (linked b p) (table_before b p (table_after b p s.table)))
      × ((insert_at b p s).pdt.head ≡ (if p.before.size == 0 then b.self % 512 else s.pdt.head))
      × ((insert_at b p s).pdt.remain
          ≡ (if p.after.size == 0 then class_of b.size else s.pdt.remain))
unfolding put_max_size
insert_at-parts b p s = elim (Bool-cases (p.before.size == 0)) [
  | inl e ↦ elim (Bool-cases (p.after.size == 0)) [
    | inl f ↦ rw (e, f) (refl, refl, refl)
    | inr f ↦ rw (e, f) (refl, refl, refl)
  ]
  | inr e ↦ elim (Bool-cases (p.after.size == 0)) [
    | inl f ↦ rw (e, f) (refl, refl, refl)
    | inr f ↦ rw (e, f) (refl, refl, refl)
  ]
]

pub table_after-left :
    (b : Block) (p : Place) (t : Table) (us vs : List Extent) (c e : Option ℕ)
    → IsBlockOf t p.after (first_or none vs)
    → AreAllApart us vs
    → IsChain t c vs none
    → IsChain t none us e
    → IsChain (table_after b p t) none us e
table_after-left b p t us [] c e k a h g =
    let z : (p.after.size == 0) ≡ true = ground arith in rw z g
table_after-left b p t us (v ∷ vs) c e k a (r, i, h) g =
    let w = with_prev t v.at true b.self in
    let z : (p.after.size == 0) ≡ false =
      (let q = ap (λ x. x.size) k ∙ i.1 in let l = r.0 in ground arith) in
    let same : record { at = w.self; size = w.size } ≡ v = rw (i.0, i.1) refl in
    let apart = subst (λ y. IsApart y us) (sym same) (AreAllApart-first us v vs a) in
    let u = put-IsChain w t none us e (let l = r.0 in let q = i.1 in omega arith) apart g in
    let f : table_after b p t ≡ put w t = rw (z, k) refl in
    subst (λ o. IsChain o none us e) (sym f) u

pub table_after-right :
    (b : Block) (p : Place) (t : Table) (vs : List Extent) (c : Option ℕ)
    → IsBlockOf t p.after (first_or none vs)
    → IsPairwise vs
    → b.self < 512
    → IsChain t c vs none
    → IsChain (table_after b p t) (some b.self) vs none
table_after-right b p t [] c k d l h = tt
table_after-right b p t (v ∷ vs) c k d l h =
    let z : (p.after.size == 0) ≡ false =
      (let q = ap (λ x. x.size) k ∙ h.1.1 in let m = h.0.0 in ground arith) in
    let f : table_after b p t ≡ put (with_prev t v.at true b.self) t = rw (z, k) refl in
    subst (λ o. IsChain o (some b.self) (v ∷ vs) none) (sym f)
      (prev-IsChain t c v vs none true b.self d h l)

pub table_before-left :
    (b : Block) (p : Place) (t : Table) (us : List Extent) (e : Option ℕ)
    → IsBlockOf t p.before (last_or none us)
    → IsPairwise us
    → b.self < 512
    → IsChain t none us e
    → IsChain (table_before b p t) none us (some b.self)
table_before-left b p t [] e k d l h = tt
table_before-left b p t (y ∷ ys) e k d l h =
    let k' = subst (IsBlockOf t p.before) (last_or-extent none y ys) k in
    let q = last-IsBlock t none y ys e h in
    let z : (p.before.size == 0) ≡ false =
      (let m = ap (λ x. x.size) k' ∙ q.2 in let n = q.0.0 in ground arith) in
    let f : table_before b p t ≡ put (with_next t (last_extent y ys).at true b.self) t =
      rw (z, k') refl in
    subst (λ o. IsChain o none (y ∷ ys) (some b.self)) (sym f)
      (next-IsChain t none y ys e true b.self d h l)

pub table_before-right :
    (b : Block) (p : Place) (t : Table) (us vs : List Extent) (c e : Option ℕ)
    → IsBlockOf t p.before (last_or none us)
    → AreAllApart us vs
    → IsChain t none us e
    → IsChain t c vs none
    → IsChain (table_before b p t) c vs none
unfolding last_or
table_before-right b p t [] vs c e k a h g =
    let z : (p.before.size == 0) ≡ true = ground arith in rw z g
table_before-right b p t (y ∷ ys) vs c e k a h g =
    let k' = subst (IsBlockOf t p.before) (last_or-extent none y ys) k in
    let q = last-IsBlock t none y ys e h in
    let w = with_next t (last_extent y ys).at true b.self in
    let z : (p.before.size == 0) ≡ false =
      (let m = ap (λ x. x.size) k' ∙ q.2 in let n = q.0.0 in ground arith) in
    let same : record { at = w.self; size = w.size } ≡ last_extent y ys = rw (q.1, q.2) refl in
    let apart = subst (λ x. IsApart x vs) (sym same) (AreAllApart-last y ys vs a) in
    let u = put-IsChain w t c vs none (let m = q.0.0 in let n = q.2 in omega arith) apart g in
    let f : table_before b p t ≡ put w t = rw (z, k') refl in
    subst (λ o. IsChain o c vs none) (sym f) u

pub table_after-IsRun :
    (b : Block) (p : Place) (t : Table) (a n : ℕ) → IsRun t a n → IsRun (table_after b p t) a n
table_after-IsRun b p t a n r = elim (Bool-cases (p.after.size == 0)) [
  | inl e ↦ rw e r
  | inr e ↦ rw e (put-IsRun (record p.after { prev = b.self; prev_valid = true }) t a n r)
]

pub table_before-IsRun :
    (b : Block) (p : Place) (t : Table) (a n : ℕ) → IsRun t a n → IsRun (table_before b p t) a n
table_before-IsRun b p t a n r = elim (Bool-cases (p.before.size == 0)) [
  | inl e ↦ rw e r
  | inr e ↦ rw e (put-IsRun (record p.before { next = b.self; next_valid = true }) t a n r)
]

pub is_nonzero : (m n : ℕ) → m ≡ n → 1 ≤ n → (m == 0) ≡ false
is_nonzero m n e h = ground arith

-- The block before the place is read as it was, after the one behind it is written.
pub table_after-before :
    (b : Block) (p : Place) (t : Table) (us vs : List Extent) (c e : Option ℕ)
    → IsPlace t p us vs
    → AreAllApart us vs
    → IsChain t none us e
    → IsChain t c vs none
    → IsBlockOf (table_after b p t) p.before (last_or none us)
unfolding last_or
table_after-before b p t [] vs c e k a h g = k.0
table_after-before b p t (y ∷ ys) [] c e k a h g =
    let z : (p.after.size == 0) ≡ true = (let m = k.1 in ground arith) in rw z k.0
table_after-before b p t (y ∷ ys) (v ∷ vs) c e k a h (r, i, g) =
    let x = last_extent y ys in
    let k' = subst (IsBlockOf t p.before) (last_or-extent none y ys) k.0 in
    let q = last-IsBlock t none y ys e h in
    let w = with_prev t v.at true b.self in
    let z : (p.after.size == 0) ≡ false =
      is_nonzero p.after.size v.size (ap (λ x. x.size) k.1 ∙ i.1) r.0 in
    let f : table_after b p t ≡ put w t = rw (z, k.1) refl in
    let apart = (AreAllApart-last y ys (v ∷ vs) a).0 in
    let same : record { at = w.self; size = w.size } ≡ v = rw (i.0, i.1) refl in
    let o =
      get-put_other w t x.at x.size q.0 q.1 (let l = r.0 in let m = i.1 in omega arith)
        (subst (AreApart x) (sym same) apart) in
    subst (IsBlockOf (table_after b p t) p.before) (sym (last_or-extent none y ys))
      (k' ∙ sym o ∙ ap (λ u. get u x.at) (sym f))
