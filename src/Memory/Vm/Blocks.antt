-- ===== src/Memory/Vm/Blocks.antt =====
-- kernel/memory/vm.cpp: a free block in its entries, `BLOCK::put` and `BLOCK::get`.
use cofuos.Prelude.{
  ℕ, zero, suc, ◌≡◌, refl, ◌∙◌, true, false, ◌==◌, ltb, ◌||◌, if◌then◌else◌, arith, ◌+◌, ◌-◌, ◌≤◌,
  ◌<◌, Bool-cases, ◌⊎◌, inl, inr,
}
use mathlib.Core.Path.{subst}
use cofuos.Memory.Vm.{
  Pte, Table, Block, entries, is_used, write, marked, put_rest, put, get, read_block, steps_back,
  off_type, prev_type, size_type, next_type,
}

-- The entries from `a` on, `n` of them, are free, and the run ends there.
abbrev pub IsRun : Table → ℕ → ℕ → Type 0
IsRun t a n =
    (1 ≤ n)
    × (a + n ≤ entries)
    × ((k : ℕ) → k < n → is_used (t (a + k)) ≡ false)
    × ((a + n ≡ entries) ⊎ (is_used (t (a + n)) ≡ true))

put_rest-used : (n i a : ℕ) (t : Table) (j : ℕ) → is_used (put_rest n i a t j) ≡ is_used (t j)
put_rest-used zero i a t j = refl
put_rest-used (suc n) i a t j = put_rest-used n (suc i) a _ j ∙ ground arith

put_rest-out :
    (n i a : ℕ) (t : Table) (j : ℕ) → (j < a + i) ⊎ (a + i + n ≤ j) → put_rest n i a t j ≡ t j
put_rest-out zero i a t j h = refl
put_rest-out (suc n) i a t j h = put_rest-out n (suc i) a _ j (ground arith) ∙ ground arith

put_rest-in :
    (n i a : ℕ) (t : Table) (k : ℕ)
    → i ≤ k
    → k < i + n
    → put_rest n i a t (a + k) ≡ marked off_type true k (t (a + k))
put_rest-in zero i a t k h g = absurd (omega arith)
put_rest-in (suc n) i a t k h g = elim (Bool-cases (i == k)) [
  | inl e ↦
      let f : i ≡ k = ground arith in
      subst (λ q. put_rest (suc n) i a t (a + q) ≡ marked off_type true q (t (a + q))) f
        (put_rest-out n (suc i) a _ (a + i) (inl (omega arith)) ∙ ground arith)
  | inr e ↦ put_rest-in n (suc i) a _ k (ground arith) (omega arith) ∙ ground arith
]

-- The entry number `k` of a block.
abbrev pub image : Block → ℕ → Pte → Pte
image b k e =
    if k == 0
    then marked next_type b.next_valid b.next e
    else (if k == 1
        then marked prev_type b.prev_valid b.prev e
        else (if k == 2 then marked size_type true (b.size - 1) e else marked off_type true k e))

-- Through `put`, by the size of the block.
put-one : (b : Block) (t : Table) → b.size ≡ 1 → put b t ≡ write t b.self (image b 0 (t b.self))
unfolding put
put-one b t h = let e : (b.size == 1) ≡ true = ground arith in rw e refl

pub put-out :
    (b : Block) (t : Table) (j : ℕ)
    → 1 ≤ b.size
    → (j < b.self) ⊎ (b.self + b.size ≤ j)
    → put b t j ≡ t j
unfolding put
put-out b t j p h = elim (Bool-cases (b.size == 1)) [
  | inl e ↦ rw e (ground arith)
  | inr e ↦ elim (Bool-cases (b.size == 2)) [
    | inl f ↦ rw (e, f) (ground arith)
    | inr f ↦ rw (e, f) (put_rest-out (b.size - 3) 3 b.self _ j (ground arith) ∙ ground arith)
  ]
]

pub put-in :
    (b : Block) (t : Table) (k : ℕ) → k < b.size → put b t (b.self + k) ≡ image b k (t (b.self + k))
unfolding put
put-in b t k h = elim (Bool-cases (b.size == 1)) [
  | inl e ↦ rw e (ground arith)
  | inr e ↦ elim (Bool-cases (b.size == 2)) [
    | inl f ↦ rw (e, f) (ground arith)
    | inr f ↦
        rw (e, f)
          (elim (Bool-cases (ltb k 3)) [
            | inl g ↦
                put_rest-out (b.size - 3) 3 b.self _ (b.self + k) (inl (ground arith))
                ∙ ground arith
            | inr g ↦
                put_rest-in (b.size - 3) 3 b.self _ k (ground arith) (ground arith) ∙ ground arith
          ])
  ]
]

pub put-used : (b : Block) (t : Table) (j : ℕ) → is_used (put b t j) ≡ is_used (t j)
unfolding put
put-used b t j = elim (Bool-cases (b.size == 1)) [
  | inl e ↦ rw e (ground arith)
  | inr e ↦ elim (Bool-cases (b.size == 2)) [
    | inl f ↦ rw (e, f) (ground arith)
    | inr f ↦ rw (e, f) (put_rest-used (b.size - 3) 3 b.self _ j ∙ ground arith)
  ]
]

-- A block of one entry has no place for `prev`.
abbrev pub stored : Block → Block
stored b = if b.size == 1 then record b { prev = 0; prev_valid = false } else b

put-steps :
    (b : Block) (t : Table) (k : ℕ)
    → k < b.size
    → b.size ≤ 512
    → steps_back (put b t (b.self + k)).type (put b t (b.self + k)).content ≡ k
put-steps b t k h g = rw (put-in b t k h) (ground arith)

pub put-IsRun : (b : Block) (t : Table) (a n : ℕ) → IsRun t a n → IsRun (put b t) a n
put-IsRun b t a n (p, q, f, e) =
    (p, q, λ k h. put-used b t (a + k) ∙ f k h, (let u = put-used b t (a + n) in ground arith))

-- Through `read_block`, by the size of the run.
pub read-one :
    (u : Table) (a n : ℕ)
    → IsRun u a n
    → n ≡ 1
    → read_block u a ≡ record {
      self = a;
      next = (u a).content;
      prev = 0;
      size = 1;
      next_valid = (u a).valid;
      prev_valid = false;
    }
read-one u a n (p, q, f, e) w =
    let stop : (a + 1 == entries) || is_used (u (a + 1)) ≡ true = ground arith in rw stop refl

pub read-two :
    (u : Table) (a n : ℕ)
    → IsRun u a n
    → n ≡ 2
    → read_block u a ≡ record {
      self = a;
      next = (u a).content;
      prev = (u (a + 1)).content;
      size = 2;
      next_valid = (u a).valid;
      prev_valid = (u (a + 1)).valid;
    }
read-two u a n (p, q, f, e) w =
    let g = f 1 (ground arith) in
    let on : (a + 1 == entries) || is_used (u (a + 1)) ≡ false = ground arith in
    let stop : (a + 2 == entries) || is_used (u (a + 2)) ≡ true = ground arith in rw (on, stop) refl

pub read-more :
    (u : Table) (a n : ℕ)
    → IsRun u a n
    → 2 < n
    → read_block u a ≡ record {
      self = a;
      next = (u a).content;
      prev = (u (a + 1)).content;
      size = (u (a + 2)).content + 1;
      next_valid = (u a).valid;
      prev_valid = (u (a + 1)).valid;
    }
read-more u a n (p, q, f, e) w =
    let g1 = f 1 (omega arith) in
    let g2 = f 2 w in
    let on1 : (a + 1 == entries) || is_used (u (a + 1)) ≡ false = ground arith in
    let on2 : (a + 2 == entries) || is_used (u (a + 2)) ≡ false = ground arith in rw (on1, on2) refl

put-first :
    (b : Block) (t : Table)
    → IsRun t b.self b.size
    → b.next < 512
    → b.prev < 512
    → read_block (put b t) b.self ≡ stored b
put-first b t r n m =
    let run = put-IsRun b t b.self b.size r in
    let z : b.self + 0 ≡ b.self = omega arith in
    let h0 = rw z at (put-in b t 0 (let p = r.0 in omega arith)) in
    let size_bound = r.1 in
    elim (Bool-cases (b.size == 1)) [
      | inl w ↦ read-one (put b t) b.self b.size run (ground arith) ∙ rw h0 (ground arith)
      | inr w ↦
          let h1 = put-in b t 1 (let p = r.0 in ground arith) in
          elim (Bool-cases (b.size == 2)) [
            | inl v ↦
                read-two (put b t) b.self b.size run (ground arith) ∙ rw (h0, h1) (ground arith)
            | inr v ↦
                let h2 = put-in b t 2 (let p = r.0 in ground arith) in
                read-more (put b t) b.self b.size run (let p = r.0 in ground arith)
                ∙ rw (h0, h1, h2) (ground arith)
          ]
    ]

-- A block is written by `put` into the free entries of its run: `get` of any of these entries reads it back, but
-- for the link back of a block of one entry.
pub get-put :
    (b : Block) (t : Table) (k : ℕ)
    → IsRun t b.self b.size
    → b.next < 512
    → b.prev < 512
    → k < b.size
    → get (put b t) (b.self + k) ≡ stored b
unfolding get
get-put b t k r n m h =
    let s = put-steps b t k h (let q = r.1 in omega arith) in
    let e : b.self + k - k ≡ b.self = omega arith in rw (s, e) (put-first b t r n m)
