-- ===== src/Memory/Vm/Ordered.antt =====
-- kernel/memory/vm.cpp: `insert` keeps the list of the free blocks in order.
use cofuos.Prelude.{
  ℕ, ◌≡◌, refl, sym, ap, ◌∙◌, true, false, ◌==◌, arith, ◌+◌, ◌%◌, ◌≤◌, ◌<◌, ◌⊎◌, List, [], ◌∷◌,
  ◌++◌, Option, none, some,
}
use mathlib.Core.Path.{subst}
use cofuos.Memory.Vm.{Table, Block, Space, put}
use cofuos.Memory.Vm.Insert.{Place, insert_at, linked}
use cofuos.Memory.Vm.Sizes.{class_of}
use cofuos.Memory.Vm.Blocks.{IsRun, put-IsRun}
use cofuos.Memory.Vm.Chain.{
  Extent, link_of, last_or, first_or, IsBlock, IsChain, IsApart, IsPairwise, IsChain-split,
  IsChain-join, put-IsBlock, put-IsChain,
}
use cofuos.Memory.Vm.Relink.{
  last_extent, last_or-extent, last-IsBlock, IsPairwise-split, IsApart-append,
}
use cofuos.Memory.Vm.FreeList.{IsFreeList, IsAscending, last_size, IsHead, last_size-append}
use cofuos.Memory.Vm.Place.{IsPlace, IsBlockOf, IsFirstAtLeast, Placed}
use cofuos.Memory.Vm.Join.{
  before-size, table_after, table_before, insert_at-parts, table_after-left, table_after-right,
  table_before-left, table_before-right, table_after-IsRun, table_before-IsRun, table_after-before,
  is_nonzero,
}

abbrev pub extent_of : Block → Extent
extent_of b = record { at = b.self; size = b.size }

after-link :
    (b : Block) (p : Place) (t : Table) (us vs : List Extent)
    → IsPlace t p us vs
    → IsChain t (last_or none us) vs none
    → b.next < 512
    → (link_of (linked b p).next_valid (linked b p).next ≡ first_or none vs)
      × ((linked b p).next < 512)
after-link b p t us [] k h l =
    let z : (p.after.size == 0) ≡ true = (let m = k.1 in ground arith) in rw z (refl, l)
after-link b p t us (v ∷ vs) k h l =
    let z : (p.after.size == 0) ≡ false =
      (let m = ap (λ x. x.size) k.1 ∙ h.1.1 in let r = h.0.0 in ground arith) in
    let e : p.after.self ≡ v.at = ap (λ x. x.self) k.1 ∙ h.1.0 in
    let m : v.at < 512 = (let q = h.0.0 in let r = h.0.1 in omega arith) in rw (z, e) (refl, m)

before-link :
    (b : Block) (p : Place) (t : Table) (us vs : List Extent) (e : Option ℕ)
    → IsPlace t p us vs
    → IsChain t none us e
    → b.prev < 512
    → (link_of (linked b p).prev_valid (linked b p).prev ≡ last_or none us)
      × ((linked b p).prev < 512)
unfolding last_or
before-link b p t [] vs e k h l =
    let z : (p.before.size == 0) ≡ true = (let m = k.0 in ground arith) in rw z (refl, l)
before-link b p t (y ∷ ys) vs e k h l =
    let q = last-IsBlock t none y ys e h in
    let k' = subst (IsBlockOf t p.before) (last_or-extent none y ys) k.0 in
    let z : (p.before.size == 0) ≡ false =
      (let m = ap (λ x. x.size) k' ∙ q.2 in let n = q.0.0 in ground arith) in
    let f : p.before.self ≡ (last_extent y ys).at = ap (λ x. x.self) k' ∙ q.1 in
    let m : (last_extent y ys).at < 512 = (let r = q.0.0 in let o = q.0.1 in omega arith) in
    rw (z, f) (sym (last_or-extent none y ys), m)

insert_at-IsChain :
    (b : Block) (p : Place) (s : Space) (us vs : List Extent)
    → IsPlace s.table p us vs
    → IsChain s.table none (us ++ vs) none
    → IsPairwise (us ++ vs)
    → IsApart (extent_of b) (us ++ vs)
    → IsRun s.table b.self b.size
    → b.next < 512
    → b.prev < 512
    → IsChain (insert_at b p s).table none (us ++ extent_of b ∷ vs) none
insert_at-IsChain b p s us vs k h d a r l m =
    let (left, right) = IsChain-split s.table none us vs none h in
    let (du, dv, apart) = IsPairwise-split us vs d in
    let (au, av) = IsApart-append (extent_of b) us vs a in
    let small : b.self < 512 = (let x = r.0 in let y = r.1 in omega arith) in
    let t = s.table in
    let left1 = table_after-left b p t us vs _ _ k.1 apart right left in
    let right1 = table_after-right b p t vs _ k.1 dv small right in
    let before1 = table_after-before b p t us vs _ _ k apart left right in
    let t1 = table_after b p t in
    let left2 = table_before-left b p t1 us _ before1 du small left1 in
    let right2 = table_before-right b p t1 us vs _ _ before1 apart left1 right1 in
    let t2 = table_before b p t1 in
    let run = table_before-IsRun b p t1 b.self b.size (table_after-IsRun b p t b.self b.size r) in
    let c = linked b p in
    let (on, on_bound) = after-link b p t us vs k right l in
    let (back, back_bound) = before-link b p t us vs _ k left m in
    let block = put-IsBlock c t2 run on_bound back_bound in
    let left3 = put-IsChain c t2 none us _ r.0 au left2 in
    let right3 = put-IsChain c t2 (some b.self) vs none r.0 av right2 in
    let block' : IsBlock (put c t2) (extent_of b) (last_or none us) (first_or none vs) =
      (block.0, block.1, block.2, block.3, block.4 ∙ on, λ big. block.5 big ∙ back) in
    let chain =
      IsChain-join (put c t2) none us (extent_of b ∷ vs) none left3
        (put-IsRun c t2 b.self b.size run, block', right3) in
    subst (λ x. IsChain x none (us ++ extent_of b ∷ vs) none) (sym (insert_at-parts b p s).0) chain

insert-IsAscending :
    (us vs : List Extent) (x : Extent)
    → IsAscending (us ++ vs)
    → last_size us ≤ x.size
    → IsFirstAtLeast x.size vs
    → IsAscending (us ++ x ∷ vs)
insert-IsAscending [] [] x h l f = tt
insert-IsAscending [] (v ∷ vs) x h l f = (f, h)
insert-IsAscending (u ∷ []) [] x h l f = (l, tt)
insert-IsAscending (u ∷ []) (v ∷ vs) x h l f = (l, (f, h.1))
insert-IsAscending (u ∷ w ∷ us) vs x h l f = (h.0, insert-IsAscending (w ∷ us) vs x h.1 l f)

IsApart-swap :
    (x y : Extent) (ys zs : List Extent)
    → IsApart y (ys ++ zs)
    → ((y.at + y.size ≤ x.at) ⊎ (x.at + x.size ≤ y.at))
    → IsApart y (ys ++ x ∷ zs)
IsApart-swap x y [] zs h a = (a, h)
IsApart-swap x y (z ∷ ys) zs h a = (h.0, IsApart-swap x y ys zs h.1 a)

insert-IsPairwise :
    (us vs : List Extent) (x : Extent)
    → IsPairwise (us ++ vs)
    → IsApart x (us ++ vs)
    → IsPairwise (us ++ x ∷ vs)
insert-IsPairwise [] vs x h a = (a, h)
insert-IsPairwise (u ∷ us) vs x h a =
    (IsApart-swap x u us vs h.0 (ground (arith, a.0)), insert-IsPairwise us vs x h.1 a.1)

insert_at-IsHead :
    (b : Block) (p : Place) (s : Space) (us vs : List Extent)
    → IsPlace s.table p us vs
    → IsChain s.table none (us ++ vs) none
    → IsHead s.pdt (us ++ vs)
    → b.self < 512
    → IsHead (insert_at b p s).pdt (us ++ extent_of b ∷ vs)
unfolding last_or
insert_at-IsHead b p s [] vs k c h l =
    let z : (p.before.size == 0) ≡ true = (let m = k.0 in ground arith) in
    let m : b.self % 512 ≡ b.self = omega arith in (insert_at-parts b p s).1 ∙ rw z m
insert_at-IsHead b p s (u ∷ us) vs k c h l =
    let n = before-size s.table p.before (u ∷ us) vs c k.0 in
    let q =
      (last-IsBlock s.table none u us _ (IsChain-split s.table none (u ∷ us) vs none c).0).0.0 in
    let z = is_nonzero p.before.size (last_extent u us).size n q in
    (insert_at-parts b p s).1 ∙ rw z h

insert_at-class :
    (b : Block) (p : Place) (s : Space) (us vs : List Extent)
    → IsPlace s.table p us vs
    → IsChain s.table none (us ++ vs) none
    → s.pdt.remain ≡ class_of (last_size (us ++ vs))
    → (insert_at b p s).pdt.remain ≡ class_of (last_size (us ++ extent_of b ∷ vs))
insert_at-class b p s us [] k c h =
    let z : (p.after.size == 0) ≡ true = (let m = k.1 in ground arith) in
    (insert_at-parts b p s).2 ∙ rw z (ap class_of (sym (last_size-append us [] (extent_of b))))
insert_at-class b p s us (v ∷ vs) k c h =
    let (r, i, rest) = (IsChain-split s.table none us (v ∷ vs) none c).1 in
    let z = is_nonzero p.after.size v.size (ap (λ x. x.size) k.1 ∙ i.1) r.0 in
    let e = last_size-append us vs v ∙ sym (last_size-append us (v ∷ vs) (extent_of b)) in
    (insert_at-parts b p s).2 ∙ rw z (h ∙ ap class_of e)

-- The extent is put somewhere into the list.
abbrev pub Inserted : Space → Extent → List Extent → Type 0
Inserted s x xs =
    (us : List Extent) × (vs : List Extent) × (us ++ vs ≡ xs) × IsFreeList s (us ++ x ∷ vs)

-- A place in order is given: the block comes there, and the list stays one of free blocks.
pub insert_at-IsFreeList :
    (b : Block) (p : Place) (s : Space) (xs : List Extent)
    → Placed s.table b.size p xs
    → IsFreeList s xs
    → IsApart (extent_of b) xs
    → IsRun s.table b.self b.size
    → b.next < 512
    → b.prev < 512
    → Inserted (insert_at b p s) (extent_of b) xs
insert_at-IsFreeList b p s xs (us, vs, e, k, l, f) h a r n m =
    let (c, d, o, w, q) = subst (IsFreeList s) (sym e) h in
    let a' = subst (IsApart (extent_of b)) (sym e) a in
    let small : b.self < 512 = (let x = r.0 in let y = r.1 in omega arith) in
    (
      us,
      vs,
      e,
      (
        insert_at-IsChain b p s us vs k c d a' r n m,
        insert-IsPairwise us vs (extent_of b) d a',
        insert-IsAscending us vs (extent_of b) o l f,
        insert_at-IsHead b p s us vs k c w small,
        insert_at-class b p s us vs k c q,
      ),
    )
