-- ===== src/Process/Handles/Table.antt =====
-- The handle table is well formed: what it counts, and where its handles stand.
use cofuos.Prelude.{
  ℕ, zero, suc, ◌+◌, ◌/◌, ◌≤◌, ◌<◌, ◌≡◌, ◌≢◌, refl, ◌⊎◌, inl, inr, Bool, true, ltb, ◌==◌,
  if◌then◌else◌, arith, Bool-cases,
}
use cofuos.Process.Handles.{
  HandleTable, limit, avl_base, handle_of_page, add_page, filled, put_loop, put, start,
}

-- How many of the first `n` slots hold an object.
unfoldable pub occupied : ℕ → (ℕ → ℕ) → ℕ
occupied zero s = 0
occupied (suc n) s = occupied n s + (if s n == 0 then 0 else 1)

occupied-cong :
    (n : ℕ) (s s' : ℕ → ℕ) → ((j : ℕ) → j < n → s' j ≡ s j) → occupied n s' ≡ occupied n s
unfolding occupied
occupied-cong zero s s' e = refl
occupied-cong (suc n) s s' e =
    ground (arith, e n (omega arith), occupied-cong n s s' (λ j l. e j (omega arith)))

pub occupied_none : (n : ℕ) (s : ℕ → ℕ) → ((j : ℕ) → j < n → s j ≡ 0) → occupied n s ≡ 0
unfolding occupied
occupied_none zero s e = refl
occupied_none (suc n) s e =
    ground (arith, e n (omega arith), occupied_none n s (λ j l. e j (omega arith)))

pub occupied-change :
    (n j x : ℕ) (s : ℕ → ℕ)
    → j < n
    → occupied n (λ i. if i == j then x else s i) + (if s j == 0 then 0 else 1)
      ≡ occupied n s + (if x == 0 then 0 else 1)
unfolding occupied
occupied-change zero j x s l = absurd (omega arith)
occupied-change (suc n) j x s l = elim (Bool-cases (n == j)) [
  | inl h ↦ ground (arith, occupied-cong n s (λ i. if i == j then x else s i) (λ i k. ground arith))
  | inr h ↦ ground (arith, occupied-change n j x s (ground arith))
]

-- `count` is the number of handles; above `top` and the fixed handles no slot is in use, and each that
-- is in use stands in a page that is there.
pub record IsValid (t : HandleTable) : Type 0 where
  pub counted : occupied limit t.slot ≡ t.count
  pub top_in : t.top ≤ limit
  pub above : (i : ℕ) → t.top ≤ i → avl_base ≤ i → t.slot i ≡ 0
  pub paged : (i : ℕ) → t.slot i ≢ 0 → t.has_page (i / handle_of_page) ≡ true

pub add_page-IsValid : (n : ℕ) (t : HandleTable) → IsValid t → IsValid (add_page n t)
add_page-IsValid n t v = record {
  counted = v.counted;
  top_in = v.top_in;
  above = v.above;
  paged = λ i s. ground (arith, v.paged i s);
}

pub filled-IsValid :
    (i x : ℕ) (t : HandleTable)
    → IsValid t
    → i < limit
    → x ≢ 0
    → t.slot i ≡ 0
    → t.has_page (i / handle_of_page) ≡ true
    → IsValid (filled i x t)
filled-IsValid i x t v l n z h = record {
  counted = ground (arith, occupied-change limit i x t.slot l, v.counted);
  top_in = ground (arith, v.top_in);
  above = λ j a b. ground (arith, v.above j);
  paged = λ j s. ground (arith, v.paged j);
}

-- The handles of `t'` are the slots `s`, `c` in number.
pub record IsUnchanged (s : ℕ → ℕ) (c : ℕ) (t' : HandleTable) : Type 0 where
  pub slots : (j : ℕ) → t'.slot j ≡ s j
  pub counted : t'.count ≡ c
  pub valid : IsValid t'

-- `r` is what `put` of `x` in a table of slots `s`, `c` of them in use, returns: a free slot behind the
-- fixed ones takes `x`, and no other slot changes.
pub record IsPut (s : ℕ → ℕ) (c x : ℕ) (r : ℕ × HandleTable) : Type 0 where
  pub inside : (avl_base ≤ r.0) × (r.0 < limit)
  pub was_free : s r.0 ≡ 0
  pub slots : (j : ℕ) → r.1.slot j ≡ (if j == r.0 then x else s j)
  pub counted : r.1.count ≡ c + 1
  pub valid : IsValid r.1

filled-IsPut :
    (i x : ℕ) (t : HandleTable)
    → IsValid t
    → avl_base ≤ i
    → i < limit
    → x ≢ 0
    → t.slot i ≡ 0
    → t.has_page (i / handle_of_page) ≡ true
    → IsPut t.slot t.count x (i, filled i x t)
filled-IsPut i x t v b l n z h = record {
  inside = (b, l);
  was_free = z;
  slots = λ j. refl;
  counted = refl;
  valid = filled-IsValid i x t v l n z h;
}

put_loop_lem :
    (fuel : ℕ) (commit : ℕ → Bool) (i x : ℕ) (t : HandleTable)
    → IsValid t
    → x ≢ 0
    → avl_base ≤ i
    → (((put_loop fuel commit i x t).0 ≡ 0)
        × IsUnchanged t.slot t.count (put_loop fuel commit i x t).1)
      ⊎ IsPut t.slot t.count x (put_loop fuel commit i x t)
unfolding put_loop
put_loop_lem zero commit i x t v n b =
    inl (refl, record { slots = λ j. refl; counted = refl; valid = v })
put_loop_lem (suc fuel) commit i x t v n b =
    let stay : IsUnchanged t.slot t.count t = record {
      slots = λ j. refl;
      counted = refl;
      valid = v;
    } in
    let more = add_page-IsValid (i / handle_of_page) t v in
    elim (Bool-cases (ltb i limit)) [
      | inr e ↦ rw e (inl (refl, stay))
      | inl e ↦ rw e (elim (Bool-cases (t.has_page (i / handle_of_page))) [
        | inl h ↦ rw h (elim (Bool-cases (t.slot i == 0)) [
          | inl z ↦ rw z (inr (filled-IsPut i x t v b (ground arith) n (ground arith) h))
          | inr z ↦ rw z (put_loop_lem fuel commit (i + 1) x t v n (omega arith))
        ])
        | inr h ↦ rw h (elim (Bool-cases (commit (i / handle_of_page))) [
          | inr c ↦ rw c (inl (refl, stay))
          | inl c ↦ rw c (elim (Bool-cases (t.slot i == 0)) [
            | inl z ↦ rw z (
                inr (
                  filled-IsPut i x (add_page (i / handle_of_page) t) more b (ground arith) n
                    (ground arith) (ground arith)))
            | inr z ↦ rw z (
                put_loop_lem fuel commit (i + 1) x (add_page (i / handle_of_page) t) more n
                  (omega arith))
          ])
        ])
      ])
    ]

-- Where pages can be had and a slot from the start on is free, the loop finds one.
put_loop_total :
    (fuel : ℕ) (commit : ℕ → Bool) (i j x : ℕ) (t : HandleTable)
    → ((n : ℕ) → commit n ≡ true)
    → 0 < i
    → i ≤ j
    → j < limit
    → j < i + fuel
    → t.slot j ≡ 0
    → (put_loop fuel commit i x t).0 ≢ 0
unfolding put_loop
put_loop_total zero commit i j x t c p l r enough z = absurd (omega arith)
put_loop_total (suc fuel) commit i j x t c p l r enough z = ground (
  arith,
  c (i / handle_of_page),
  put_loop_total fuel commit (i + 1) j x t c,
  put_loop_total fuel commit (i + 1) j x (add_page (i / handle_of_page) t) c,
)

-- `put` of an object in a well-formed table either returns 0 and leaves every handle as it was, or
-- returns the number of a slot that was free, behind the fixed ones, which now holds the object,
-- while no other slot changes and one handle more is counted. The table stays well formed.
pub put_lem :
    (commit : ℕ → Bool) (x : ℕ) (t : HandleTable)
    → IsValid t
    → x ≢ 0
    → (((put commit x t).0 ≡ 0) × IsUnchanged t.slot t.count (put commit x t).1)
      ⊎ IsPut t.slot t.count x (put commit x t)
unfolding put
put_lem commit x t v n = put_loop_lem limit commit (start t) x t v n (ground arith)

-- Where pages can be had, `put` fails only when every slot from the one where it starts up to the
-- limit is in use: with slot `j` free it returns a handle.
pub put_total :
    (commit : ℕ → Bool) (x j : ℕ) (t : HandleTable)
    → ((n : ℕ) → commit n ≡ true)
    → start t ≤ j
    → j < limit
    → t.slot j ≡ 0
    → (put commit x t).0 ≢ 0
unfolding put
put_total commit x j t c l r z =
    put_loop_total limit commit (start t) j x t c (ground arith) l r (omega arith) z
