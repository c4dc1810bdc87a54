-- ===== src/Memory/Heap/Cover.antt =====
-- How many free blocks of a pool hold an address, and what the list operations do to that number.
use cofuos.Prelude.{
  ℕ, zero, suc, ◌+◌, ◌^◌, ◌≤◌, ◌<◌, ◌≡◌, refl, ◌≢◌, ◌⊎◌, inl, inr, true, false, ◌==◌, arith, ltb,
  if◌then◌else◌, min, List, [], ◌∷◌, All, Bool-cases,
}
use cofuos.Prelude.Tickets.{contains}
use cofuos.Memory.Heap.{
  Pool, set_list, is_aligned, is_buddy, prev_of, cur_of, insert_block, remove_block, buddy_of,
}
use cofuos.Prelude.Powers.{pow-suc}
use cofuos.Memory.Heap.Words.{Halves, bit_xor-Halves}

-- 1 if the block of class `sh` at `b` holds the address `x`.
abbrev pub holds : ℕ → ℕ → ℕ → ℕ
holds sh b x = if ltb x b then 0 else (if ltb x (b + 2 ^ sh) then 1 else 0)

unfoldable pub list_cover : ℕ → List ℕ → ℕ → ℕ
list_cover sh [] x = 0
list_cover sh (b ∷ bs) x = holds sh b x + list_cover sh bs x

-- The free blocks of the classes below `n` that hold the address `x`.
unfoldable pub cover : ℕ → Pool → ℕ → ℕ
cover zero p x = 0
cover (suc n) p x = list_cover n (p n) x + cover n p x

-- A block of class `sh`: not null, and at a multiple of its size.
abbrev pub IsBlock : ℕ → ℕ → Type 0
IsBlock sh b = (0 < b) × (is_aligned sh b ≡ true)

abbrev pub IsPool : Pool → Type 0
IsPool p = (sh : ℕ) → All (IsBlock sh) (p sh)

pub list_cover-insert_block :
    (sh b : ℕ) (bs : List ℕ) (x : ℕ)
    → list_cover sh (insert_block b bs) x ≡ holds sh b x + list_cover sh bs x
unfolding list_cover insert_block
list_cover-insert_block sh b [] x = refl
list_cover-insert_block sh b (c ∷ bs) x =
    let rest = list_cover-insert_block sh b bs x in
    elim (Bool-cases (ltb c b)) [ inl e ↦ rw e (omega arith) | inr e ↦ rw e refl ]

pub list_cover-remove_block :
    (sh b : ℕ) (bs : List ℕ) (x : ℕ)
    → contains bs b ≡ true
    → holds sh b x + list_cover sh (remove_block b bs) x ≡ list_cover sh bs x
unfolding list_cover remove_block
list_cover-remove_block sh b [] x m = absurd (ground arith)
list_cover-remove_block sh b (c ∷ bs) x m = elim (Bool-cases (c == b)) [
  | inl e ↦ let s : c ≡ b = ground arith in rw (e, s) refl
  | inr e ↦ let rest = list_cover-remove_block sh b bs x (ground arith) in rw e (omega arith)
]

pub All-insert_block :
    (sh b : ℕ) (bs : List ℕ)
    → IsBlock sh b
    → All (IsBlock sh) bs
    → All (IsBlock sh) (insert_block b bs)
unfolding insert_block
All-insert_block sh b [] h hs = (h, tt)
All-insert_block sh b (c ∷ bs) h (hc, hs) = elim (Bool-cases (ltb c b)) [
  | inl e ↦ rw e (hc, All-insert_block sh b bs h hs)
  | inr e ↦ rw e (h, (hc, hs))
]

pub All-remove_block :
    (sh b : ℕ) (bs : List ℕ) → All (IsBlock sh) bs → All (IsBlock sh) (remove_block b bs)
unfolding remove_block
All-remove_block sh b [] hs = tt
All-remove_block sh b (c ∷ bs) (hc, hs) = elim (Bool-cases (c == b)) [
  | inl e ↦ rw e hs
  | inr e ↦ rw e (hc, All-remove_block sh b bs hs)
]

pub IsBlock-contains :
    (sh b : ℕ) (bs : List ℕ) → All (IsBlock sh) bs → contains bs b ≡ true → IsBlock sh b
IsBlock-contains sh b [] hs m = absurd (ground arith)
IsBlock-contains sh b (c ∷ bs) (hc, hs) m = elim (Bool-cases (c == b)) [
  | inl e ↦ let s : c ≡ b = ground arith in rw (← s) hc
  | inr e ↦ IsBlock-contains sh b bs hs (ground arith)
]

pub IsPool-set_list :
    (p : Pool) (sh : ℕ) (bs : List ℕ) → IsPool p → All (IsBlock sh) bs → IsPool (set_list p sh bs)
IsPool-set_list p sh bs hp hs i = elim (Bool-cases (i == sh)) [
  | inl e ↦ let s : i ≡ sh = ground arith in rw e (rw s hs)
  | inr e ↦ rw e (hp i)
]

cover-set_list_above :
    (n : ℕ) (p : Pool) (sh : ℕ) (bs : List ℕ) (x : ℕ)
    → n ≤ sh
    → cover n (set_list p sh bs) x ≡ cover n p x
unfolding cover
cover-set_list_above zero p sh bs x h = refl
cover-set_list_above (suc n) p sh bs x h =
    let e : (n == sh) ≡ false = ground arith in
    let rest = cover-set_list_above n p sh bs x (omega arith) in rw (e, rest) refl

pub cover-set_list :
    (n : ℕ) (p : Pool) (sh : ℕ) (bs : List ℕ) (x : ℕ)
    → sh < n
    → cover n (set_list p sh bs) x + list_cover sh (p sh) x ≡ cover n p x + list_cover sh bs x
unfolding cover
cover-set_list zero p sh bs x h = absurd (omega arith)
cover-set_list (suc n) p sh bs x h = elim (Bool-cases (n == sh)) [
  | inl e ↦
      let s : n ≡ sh = ground arith in
      let rest = cover-set_list_above n p sh bs x (omega arith) in rw (e, rest) (rw s (omega arith))
  | inr e ↦ let rest = cover-set_list n p sh bs x (ground arith) in rw e (omega arith)
]

-- The block before and the one after, when they are not null, are in the list.
contains-prev_of :
    (b prev : ℕ) (bs : List ℕ)
    → (prev_of b prev bs ≡ prev) ⊎ (contains bs (prev_of b prev bs) ≡ true)
unfolding prev_of
contains-prev_of b prev [] = inl refl
contains-prev_of b prev (c ∷ bs) = elim (Bool-cases (ltb c b)) [
  | inl e ↦ rw e (elim (contains-prev_of b c bs) [
    | inl s ↦ inr (rw s (ground arith))
    | inr m ↦ inr (rw m (ground arith))
  ])
  | inr e ↦ rw e (inl refl)
]

contains-cur_of : (b : ℕ) (bs : List ℕ) → (cur_of b bs ≡ 0) ⊎ (contains bs (cur_of b bs) ≡ true)
unfolding cur_of
contains-cur_of b [] = inl refl
contains-cur_of b (c ∷ bs) = elim (Bool-cases (ltb c b)) [
  | inl e ↦ rw e (elim (contains-cur_of b bs) [ inl s ↦ inl s | inr m ↦ inr (rw m (ground arith)) ])
  | inr e ↦ rw e (inr (ground arith))
]

pub contains-buddy_of :
    (sh b : ℕ) (bs : List ℕ)
    → buddy_of sh b bs ≢ 0
    → (contains bs (buddy_of sh b bs) ≡ true) × (is_buddy sh (buddy_of sh b bs) b ≡ true)
contains-buddy_of sh b bs h = elim (Bool-cases (is_buddy sh (prev_of b 0 bs) b)) [
  | inl e ↦ rw e (elim (contains-prev_of b 0 bs) [ inl s ↦ absurd (ground arith) | inr m ↦ (m, e) ])
  | inr e ↦ elim (Bool-cases (is_buddy sh (cur_of b bs) b)) [
    | inl c ↦
        rw (e, c) (elim (contains-cur_of b bs) [ inl s ↦ absurd (ground arith) | inr m ↦ (m, c) ])
    | inr c ↦ absurd (h (rw (e, c) refl))
  ]
]

pub holds-Halves : (sh a b x : ℕ) → Halves sh a b → holds (suc sh) a x ≡ holds sh a x + holds sh b x
holds-Halves sh a b x (s, al) = let w = pow-suc sh in ground arith

-- Two buddies hold what the block of the next class at the lower one holds.
pub holds-buddy :
    (sh a b x : ℕ)
    → IsBlock sh a
    → IsBlock sh b
    → is_buddy sh a b ≡ true
    → IsBlock (suc sh) (min b a) × (holds (suc sh) (min b a) x ≡ holds sh a x + holds sh b x)
holds-buddy sh a b x (pa, ha) (pb, hb) e = elim (bit_xor-Halves sh a b ha hb (ground arith)) [
  | inl h ↦ let m : min b a ≡ a = omega (arith, h.0) in rw m ((pa, h.1), holds-Halves sh a b x h)
  | inr h ↦
      let m : min b a ≡ b = omega (arith, h.0) in
      let s = holds-Halves sh b a x h in rw m ((pb, h.1), omega arith)
]
