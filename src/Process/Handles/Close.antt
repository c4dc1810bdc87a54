-- ===== src/Process/Handles/Close.antt =====
-- Closing a handle, assigning a fixed one, and clearing the table.
use cofuos.Prelude.{
  ℕ, zero, suc, ◌+◌, ◌/◌, ◌≤◌, ◌<◌, ◌≡◌, ◌≢◌, refl, sym, ap, ◌∙◌, ◌⊎◌, inl, inr, true, false, leb,
  ◌==◌, if◌then◌else◌, arith, Bool-cases,
}
use cofuos.Process.Handles.{
  HandleTable, limit, avl_base, handle_of_page, lower, emptied, lowered, close_top, close, Outcome,
  failed, done,
}
use cofuos.Process.Handles.Table.{occupied-change, IsValid, IsPut, IsUnchanged}

lower_le : (n : ℕ) (t : HandleTable) → lower n t ≤ n
unfolding lower
lower_le zero t = omega arith
lower_le (suc n) t = ground (arith, lower_le n t)

-- What `lower` leaves behind is empty.
lower_above :
    (n j : ℕ) (t : HandleTable)
    → ((i : ℕ) → t.slot i ≢ 0 → t.has_page (i / handle_of_page) ≡ true)
    → lower n t < j
    → j ≤ n
    → avl_base ≤ j
    → t.slot j ≡ 0
unfolding lower
lower_above zero j t p l r b = absurd (omega arith)
lower_above (suc n) j t p l r b = ground (arith, lower_above n j t p)

pub emptied-IsValid :
    (i : ℕ) (t : HandleTable) → IsValid t → i < limit → t.slot i ≢ 0 → IsValid (emptied i t)
emptied-IsValid i t v l n = record {
  counted = ground (arith, occupied-change limit i 0 t.slot l, v.counted);
  top_in = v.top_in;
  above = λ j a b. ground (arith, v.above j);
  paged = λ j s. ground (arith, v.paged j);
}

lowered-IsValid :
    (n : ℕ) (t : HandleTable)
    → IsValid t
    → suc n < limit
    → t.slot (suc n) ≢ 0
    → t.top ≤ suc n + 1
    → IsValid (lowered n t)
lowered-IsValid n t v l s top =
    let e = emptied-IsValid (suc n) t v l s in
    record {
      counted = e.counted;
      top_in = omega (arith, lower_le n (emptied (suc n) t));
      above = λ j a b. ground (arith, v.above j, lower_above n j (emptied (suc n) t) e.paged);
      paged = e.paged;
    }

-- `r` is what a successful `close` of handle `i` returns.
pub record IsClosed (t : HandleTable) (i : ℕ) (r : Outcome × HandleTable) : Type 0 where
  pub relaxed : r.0 ≡ done (t.slot i)
  pub slots : (j : ℕ) → r.1.slot j ≡ (if j == i then 0 else t.slot j)
  pub counted : r.1.count + 1 ≡ t.count
  pub valid : IsValid r.1

close_top-IsClosed :
    (i : ℕ) (t : HandleTable)
    → IsValid t
    → i < limit
    → t.slot i ≢ 0
    → t.top ≤ i + 1
    → (0 < i) ⊎ (1 < t.top)
    → IsClosed t i (close_top i t)
close_top-IsClosed zero t v l s a g = absurd (ground arith)
close_top-IsClosed (suc n) t v l s a g = record {
  relaxed = refl;
  slots = λ j. refl;
  counted = ground (arith, occupied-change limit (suc n) 0 t.slot l, v.counted);
  valid = lowered-IsValid n t v l s a;
}

-- `close` of a handle of a well-formed table succeeds just when its slot holds an object: that object is
-- relaxed, its slot is emptied, no other slot changes, one handle less is counted, and the table stays
-- well formed. Otherwise nothing changes. Handle 0 is left out while `top` is at most 1.
pub close_lem :
    (i : ℕ) (t : HandleTable)
    → IsValid t
    → i < limit
    → (0 < i) ⊎ (1 < t.top)
    → ((t.slot i ≡ 0) × (close i t ≡ (failed, t))) ⊎ ((t.slot i ≢ 0) × IsClosed t i (close i t))
unfolding close
close_lem i t v l g = elim (Bool-cases (t.slot i == 0)) [
  | inl e ↦ inl (ground arith, ground arith)
  | inr e ↦
      let s : t.slot i ≢ 0 = ground arith in
      let o : leb limit i ≡ false = ground arith in
      inr (
        s,
        rw o (
            rw (v.paged i s) (
              rw e (elim (Bool-cases (leb t.top (i + 1))) [
                | inl h ↦ rw h (close_top-IsClosed i t v l s (ground arith) g)
                | inr h ↦ rw h (record {
                  relaxed = refl;
                  slots = λ j. refl;
                  counted = ground (arith, occupied-change limit i 0 t.slot l, v.counted);
                  valid = emptied-IsValid i t v l s;
                })
              ]))),
      )
]

-- A handle that `put` returned can be closed again: the object that was put is relaxed, every slot and
-- the count are what they were before, and the table is well formed.
pub close-put :
    (t : HandleTable) (x : ℕ) (r : ℕ × HandleTable)
    → IsPut t.slot t.count x r
    → x ≢ 0
    → ((close r.0 r.1).0 ≡ done x) × IsUnchanged t.slot t.count (close r.0 r.1).1
close-put t x r p n =
    let s : r.1.slot r.0 ≡ x = ground (arith, p.slots r.0) in
    elim (close_lem r.0 r.1 p.valid p.inside.1 (inl (omega (arith, p.inside)))) [
      | inl e ↦ absurd (n (sym s ∙ e.0))
      | inr e ↦ (
        e.1.relaxed ∙ ap done s,
        record {
          slots = λ j. ground (arith, e.1.slots j, p.slots j, p.was_free);
          counted = omega (arith, e.1.counted, p.counted);
          valid = e.1.valid;
        },
      )
    ]
