-- ===== src/Process/Handles/Clear.antt =====
-- Assigning a fixed handle, and clearing the table.
use cofuos.Prelude.{
  ℕ, zero, suc, ◌+◌, ◌/◌, ◌≤◌, ◌<◌, ◌≡◌, ◌≢◌, refl, ◌⊎◌, inl, inr, Bool, true, false, leb, ◌==◌,
  not, ◌&&◌, ◌||◌, if◌then◌else◌, arith, Bool-cases, List, ◌∷◌, length,
}
use cofuos.Process.Handles.{
  HandleTable, limit, avl_base, handle_of_page, add_page, swapped, assign, emptied, Outcome, failed,
  done, clear, clear_loop,
}
use cofuos.Process.Handles.Table.{occupied_none, occupied-change, IsValid, add_page-IsValid}
use cofuos.Process.Handles.Close.{emptied-IsValid}

-- `r` is what a successful `assign` of `x` to the fixed handle `i` returns.
pub record IsAssigned (s : ℕ → ℕ) (i x : ℕ) (r : Outcome × HandleTable) : Type 0 where
  pub relaxed : r.0 ≡ done (s i)
  pub slots : (j : ℕ) → r.1.slot j ≡ (if j == i then x else s j)
  pub valid : IsValid r.1

swapped-IsAssigned :
    (i x : ℕ) (t : HandleTable)
    → IsValid t
    → i < avl_base
    → x ≢ 0
    → t.has_page (i / handle_of_page) ≡ true
    → IsAssigned t.slot i x (done (t.slot i), swapped i x t)
swapped-IsAssigned i x t v l n h = record {
  relaxed = refl;
  slots = λ j. refl;
  valid = record {
    counted = ground (arith, occupied-change limit i x t.slot (omega arith), v.counted);
    top_in = v.top_in;
    above = λ j a b. ground (arith, v.above j);
    paged = λ j s. ground (arith, v.paged j);
  };
}

-- `assign` of an object to one of the four fixed handles of a well-formed table puts it there, gives back
-- the object that stood there before (0 for none) to be relaxed, and leaves the table well formed; it
-- fails, without a change, only where the page is missing and cannot be had.
pub assign_lem :
    (commit : ℕ → Bool) (i x : ℕ) (t : HandleTable)
    → IsValid t
    → i < avl_base
    → x ≢ 0
    → IsAssigned t.slot i x (assign commit i x t)
      ⊎ ((commit 0 ≡ false) × (t.has_page 0 ≡ false) × (assign commit i x t ≡ (failed, t)))
unfolding assign
assign_lem commit i x t v l n =
    let o : leb avl_base i || (x == 0) ≡ false = ground arith in
    let p : i / handle_of_page ≡ 0 = omega arith in
    rw o (elim (Bool-cases (t.has_page (i / handle_of_page))) [
      | inl h ↦ rw h (inl (swapped-IsAssigned i x t v l n h))
      | inr h ↦ rw h (elim (Bool-cases (commit (i / handle_of_page))) [
        | inl c ↦ rw c (
            inl (
              swapped-IsAssigned i x (add_page (i / handle_of_page) t)
                (add_page-IsValid (i / handle_of_page) t v) l n (ground arith)))
        | inr c ↦ rw c (inr (rw p at c, rw p at h, refl))
      ])
    ])

-- What the first `n` turns of `clear` leave: valid, and empty up to slot `n`.
record IsCleared (n : ℕ) (t : HandleTable) (r : List ℕ × HandleTable) : Type 0 where
  below : (j : ℕ) → j < n → r.1.slot j ≡ 0
  counted : length r.0 + r.1.count ≡ t.count
  valid : IsValid r.1

IsCleared-slot :
    (n : ℕ) (t : HandleTable) (relaxed : List ℕ) (t' : HandleTable)
    → n < limit
    → IsCleared n t (relaxed, t')
    → IsCleared (suc n) t (
        if t'.has_page (n / handle_of_page) && not (t'.slot n == 0)
        then (t'.slot n ∷ relaxed, emptied n t')
        else (relaxed, t'))
IsCleared-slot n t relaxed t' l c = elim (Bool-cases (t'.slot n == 0)) [
  | inl e ↦
      let z : t'.has_page (n / handle_of_page) && not (t'.slot n == 0) ≡ false = ground arith in
      rw z
        (record { below = λ j k. ground (arith, c.below j); counted = c.counted; valid = c.valid })
  | inr e ↦
      let s : t'.slot n ≢ 0 = ground arith in
      let z : t'.has_page (n / handle_of_page) && not (t'.slot n == 0) ≡ true =
        ground (arith, c.valid.paged n s) in
      rw z (record {
        below = λ j k. ground (arith, c.below j);
        counted = ground (arith, c.counted, occupied-change limit n 0 t'.slot l, c.valid.counted);
        valid = emptied-IsValid n t' c.valid l s;
      })
]

clear_loop_lem : (n : ℕ) (t : HandleTable) → IsValid t → n ≤ limit → IsCleared n t (clear_loop n t)
unfolding clear_loop
clear_loop_lem zero t v l = record {
  below = λ j k. absurd (omega arith);
  counted = omega arith;
  valid = v;
}
clear_loop_lem (suc n) t v l =
    IsCleared-slot n t (clear_loop n t).0 (clear_loop n t).1 (omega arith)
      (clear_loop_lem n t v (omega arith))

-- `clear` of a well-formed table relaxes as many objects as are counted, empties every slot, and comes
-- to the count 0 that the code asserts.
pub clear_lem :
    (t : HandleTable)
    → IsValid t
    → (length (clear t).0 ≡ t.count)
      × ((clear t).1.count ≡ 0)
      × ((j : ℕ) → j < limit → (clear t).1.slot j ≡ 0)
unfolding clear
clear_lem t v =
    let c = clear_loop_lem limit t v (omega arith) in
    let z = occupied_none limit (clear_loop limit t).1.slot c.below in
    let n : (clear_loop limit t).1.count ≡ 0 = omega (arith, z, c.valid.counted) in
    (omega (arith, c.counted), n, c.below)
