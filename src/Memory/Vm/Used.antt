-- ===== src/Memory/Vm/Used.antt =====
-- kernel/memory/vm.cpp: which entries are in use does not change with the links.
use cofuos.Prelude.{
  ℕ, ◌≡◌, refl, ap, ◌∙◌, true, false, ◌==◌, ltb, if◌then◌else◌, Bool-cases, inl, inr,
}
use cofuos.Memory.Vm.{Table, Block, Space, get, put, is_used, erase}
use cofuos.Memory.Vm.Insert.{insert, insert_at, find_place, place_at, hinted, linked}
use cofuos.Memory.Vm.Blocks.{put-used}
use cofuos.Memory.Vm.Relink.{with_next, with_prev}
use cofuos.Memory.Vm.Erase.{relink_before, relink_after}
use cofuos.Memory.Vm.FreeList.{erase-parts}
use cofuos.Memory.Vm.Join.{insert_at-parts, table_after, table_before}

relink-used :
    (b : Block) (t : Table) (j : ℕ)
    → (is_used (relink_before b t j) ≡ is_used (t j))
      × (is_used (relink_after b t j) ≡ is_used (t j))
relink-used b t j =
    let before = put-used (with_next t b.prev b.next_valid b.next) t j in
    let after = put-used (with_prev t b.next b.prev_valid b.prev) t j in
    (
      elim (Bool-cases b.prev_valid) [ inl e ↦ rw e before | inr e ↦ rw e refl ],
      elim (Bool-cases b.next_valid) [
        | inl e ↦ elim (Bool-cases (ltb 1 (get t b.next).size)) [
          | inl f ↦ rw (e, f) after
          | inr f ↦ rw (e, f) refl
        ]
        | inr e ↦ rw e refl
      ],
    )

-- Only the links are written.
pub erase-used :
    (b : Block) (s : Space) (j : ℕ) → is_used ((erase b s).table j) ≡ is_used (s.table j)
erase-used b s j =
    ap (λ t. is_used (t j)) (erase-parts b s).0
    ∙ (relink-used b (relink_before b s.table) j).1
    ∙ (relink-used b s.table j).0

pub insert-used :
    (fuel : ℕ) (b : Block) (s : Space) (j : ℕ)
    → is_used ((insert fuel b s).table j) ≡ is_used (s.table j)
unfolding insert
insert-used fuel b s j = elim (Bool-cases (b.size == 0)) [
  | inl e ↦ rw e refl
  | inr e ↦
      let h = hinted b s in
      let p = find_place fuel s.table b.size (place_at h s) in
      let t1 = table_after h p s.table in
      let q : (if false then s else insert_at h p s).table
          ≡ put (linked h p) (table_before h p t1) =
        (insert_at-parts h p s).0 in
      let after : is_used (t1 j) ≡ is_used (s.table j) = elim (Bool-cases (p.after.size == 0)) [
        | inl f ↦ rw f refl
        | inr f ↦ rw f (put-used (record p.after { prev = h.self; prev_valid = true }) s.table j)
      ] in
      let before : is_used (table_before h p t1 j) ≡ is_used (t1 j) =
        elim (Bool-cases (p.before.size == 0)) [
          | inl f ↦ rw f refl
          | inr f ↦ rw f (put-used (record p.before { next = h.self; next_valid = true }) t1 j)
        ] in
      rw e (ap (λ t. is_used (t j)) q ∙ put-used (linked h p) _ j ∙ before ∙ after)
]
