-- ===== src/Memory/Vm/Reads.antt =====
-- kernel/memory/vm.cpp: which entries `BLOCK::get` depends on.
use cofuos.Prelude.{
  ℕ, ◌≡◌, refl, sym, ap, ◌∙◌, true, false, ◌==◌, ◌||◌, arith, ◌+◌, ◌-◌, ◌≤◌, ◌<◌, Bool-cases, ◌⊎◌,
  inl, inr,
}
use cofuos.Memory.Vm.{Table, Block, entries, is_used, put, get, read_block, steps_back}
use cofuos.Memory.Vm.Blocks.{IsRun, put-out, put-used, read-more, read-one, read-two}

read_block-same :
    (t u : Table) (a n : ℕ)
    → IsRun t a n
    → ((j : ℕ) → is_used (u j) ≡ is_used (t j))
    → ((k : ℕ) → k < n → u (a + k) ≡ t (a + k))
    → read_block u a ≡ read_block t a
read_block-same t u a n (p, q, f, e) used same =
    let z : a + 0 ≡ a = omega arith in
    let s0 = rw z at (same 0 (omega arith)) in
    let u1 = used (a + 1) in
    let u2 = used (a + 2) in
    elim (Bool-cases (n == 1)) [
      | inl w ↦
          let stop : (a + 1 == entries) || is_used (t (a + 1)) ≡ true = ground arith in
          rw (u1, stop, s0) refl
      | inr w ↦
          let s1 = same 1 (ground arith) in
          elim (Bool-cases (n == 2)) [
            | inl v ↦
                let stop : (a + 2 == entries) || is_used (t (a + 2)) ≡ true = ground arith in
                rw (u1, u2, stop, s0, s1) refl
            | inr v ↦ let s2 = same 2 (ground arith) in rw (s0, s1, s2) refl
          ]
    ]

read_block-self : (t : Table) (i : ℕ) → (read_block t i).self ≡ i
read_block-self t i = ground arith

-- Another block is read as before.
pub get-put_other :
    (b : Block) (t : Table) (a n : ℕ)
    → IsRun t a n
    → (get t a).self ≡ a
    → 1 ≤ b.size
    → (a + n ≤ b.self) ⊎ (b.self + b.size ≤ a)
    → get (put b t) a ≡ get t a
unfolding get
get-put_other b t a n r h p apart =
    let here : put b t a ≡ t a = put-out b t a p (let q = r.0 in ground arith) in
    let e : a - steps_back (t a).type (t a).content ≡ a = sym (read_block-self t _) ∙ h in
    let same =
      read_block-same t (put b t) a n r (put-used b t)
        (λ k l. put-out b t (a + k) p (ground arith)) in
    rw (here, e) same

-- A block of one entry is read without a link back.
pub get-single :
    (t : Table) (a n : ℕ) → IsRun t a n → (get t a).self ≡ a → n ≡ 1 → (get t a).prev_valid ≡ false
unfolding get
get-single t a n r h one =
    let e : a - steps_back (t a).type (t a).content ≡ a = sym (read_block-self t _) ∙ h in
    ap (λ i. (read_block t i).prev_valid) e ∙ ap (λ b. b.prev_valid) (read-one t a n r one)

-- Two tables with the same entries in a run that ends in both.
pub get-same :
    (t u : Table) (a n : ℕ)
    → IsRun t a n
    → IsRun u a n
    → ((k : ℕ) → k < n → u (a + k) ≡ t (a + k))
    → (get t a).self ≡ a
    → get u a ≡ get t a
unfolding get
get-same t u a n r q same h =
    let e : a - steps_back (t a).type (t a).content ≡ a = sym (read_block-self t _) ∙ h in
    let z : a + 0 ≡ a = omega arith in
    let s0 : u a ≡ t a = rw z at (same 0 (let p = r.0 in omega arith)) in
    rw (s0, e)
      (elim (Bool-cases (n == 1)) [
        | inl w ↦ read-one u a n q (ground arith) ∙ rw s0 (sym (read-one t a n r (ground arith)))
        | inr w ↦
            let s1 = same 1 (let p = r.0 in ground arith) in
            elim (Bool-cases (n == 2)) [
              | inl v ↦
                  read-two u a n q (ground arith)
                  ∙ rw (s0, s1) (sym (read-two t a n r (ground arith)))
              | inr v ↦
                  let big : 2 < n = (let p = r.0 in ground arith) in
                  let s2 = same 2 big in
                  read-more u a n q big ∙ rw (s0, s1, s2) (sym (read-more t a n r big))
            ]
      ])
