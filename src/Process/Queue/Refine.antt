-- ===== src/Process/Queue/Refine.antt =====
-- The linked queue of threads refines a list of distinct threads.
use cofuos.Prelude.{
  ℕ, ◌<◌, ◌==◌, ◌≡◌, ◌≢◌, refl, sym, ap, ◌∙◌, ◌⊎◌, inl, inr, true, false, if◌then◌else◌, List, [],
  ◌∷◌, ◌++◌, arith, Bool-cases, length, get_or, drop, none, some,
}
use mathlib.Core.Path.{subst}
use cofuos.Prelude.Tickets.{contains, erase}
use cofuos.Process.Queue.{Next, set_next, ThreadQueue, put, get, cancel, find_prev}
use cofuos.Process.Queue.Chain.{
  IsChain, last, IsChain-set_next, IsChain-snoc, last-real, last-snoc, find_prev_lem,
  find_prev-absent, erase-absent,
}

-- The queue `q` in the store `next` holds the threads `xs` in their order.
pub record IsQueue (next : Next) (q : ThreadQueue) (xs : List ℕ) : Type 0 where
  pub chain : IsChain next q.head xs
  pub ends : q.tail ≡ last xs

-- `put` of a thread that is not in the queue adds it behind the others.
pub put-IsQueue :
    (th : ℕ) (next : Next) (q : ThreadQueue) (xs : List ℕ)
    → IsQueue next q xs
    → th ≢ 0
    → contains xs th ≡ false
    → IsQueue (put th next q).0 (put th next q).1 (xs ++ th ∷ [])
unfolding put last
put-IsQueue th next q [] v z n =
    let e : q.tail == 0 ≡ true = ground (arith, v.ends) in
    rw e (record { chain = (refl, z, refl, ground arith); ends = refl })
put-IsQueue th next q (x ∷ xs) v z n =
    let r = last-real next q.head x xs v.chain in
    let e : q.tail == 0 ≡ false = ground (arith, v.ends) in
    rw e (
      rw v.ends (record {
        chain =
            IsChain-snoc (set_next next th 0) q.head x xs th
              (IsChain-set_next next q.head (x ∷ xs) th 0 n v.chain) n z (ground arith);
        ends = sym (last-snoc (x ∷ xs) th);
      }))

taken_tail :
    (next : Next) (x : ℕ) (xs : List ℕ) (q : ThreadQueue)
    → IsChain next (next x) xs
    → q.tail ≡ last (x ∷ xs)
    → (if next x == 0 then 0 else q.tail) ≡ last xs
unfolding last
taken_tail next x [] q r e = rw r refl
taken_tail next x (y ∷ ys) q r e = let n : next x == 0 ≡ false = ground (arith, r) in rw n e

-- `get` takes the thread that has been in the queue longest, 0 where there is none.
pub get-IsQueue :
    (next : Next) (q : ThreadQueue) (xs : List ℕ)
    → IsQueue next q xs
    → ((get next q).0 ≡ get_or xs 0 0) × IsQueue (get next q).1 (get next q).2 (drop 1 xs)
unfolding get last
get-IsQueue next q [] v = let e : q.head == 0 ≡ true = ground (arith, v.chain) in rw e (refl, v)
get-IsQueue next q (x ∷ xs) v =
    let (a, b, d, r) = v.chain in
    let e : q.head == 0 ≡ false = ground (arith, a, b) in
    rw e (
      rw a (
        (
          refl,
          record {
            chain = IsChain-set_next next (next x) xs x 0 d r;
            ends = taken_tail next x xs q r v.ends;
          },
        )))

-- In a queue of some threads `put` of one that is not among them adds it behind the others, and `get` takes the
-- one that has been there longest, 0 where there is none, and leaves the others.
pub put-get-IsQueue :
    (th : ℕ) (next : Next) (q : ThreadQueue) (xs : List ℕ)
    → IsQueue next q xs
    → th ≢ 0
    → contains xs th ≡ false
    → IsQueue (put th next q).0 (put th next q).1 (xs ++ th ∷ [])
      × ((get next q).0 ≡ get_or xs 0 0)
      × IsQueue (get next q).1 (get next q).2 (drop 1 xs)
put-get-IsQueue th next q xs v z n =
    let g = get-IsQueue next q xs v in (put-IsQueue th next q xs v z n, g.0, g.1)

-- The end of `cancel`, with `prev` before the thread.
cancel-inside :
    (fuel th : ℕ) (next : Next) (q : ThreadQueue) (x : ℕ) (xs : List ℕ)
    → IsQueue next q (x ∷ xs)
    → (x == th) ≡ false
    → contains xs th ≡ true
    → length xs < fuel
    → (n : Next) × (r : ThreadQueue) × (cancel fuel th next q ≡ some (n, r))
      × IsQueue n r (x ∷ erase th xs)
unfolding cancel
cancel-inside fuel th next q x xs v e m l =
    let (a, b, d, r) = v.chain in
    let prev = find_prev fuel next x th in
    let i = find_prev_lem fuel next x xs th (refl, b, d, r) m l in
    let h : q.head == th ≡ false = rw a e in
    let p : prev == 0 ≡ false = ground (arith, i.real) in
    elim (Bool-cases (next th == 0)) [
      | inl f ↦
          let f' : next th ≡ 0 = ground arith in
          (
            set_next next prev 0,
            record q { tail = prev },
            rw (h, a, p, f) refl,
            record {
              chain = rw a (
                  subst (λ n. IsChain n x (x ∷ erase th xs)) (ap (λ v. set_next next prev v) f')
                    i.chain);
              ends = sym (i.end f');
            },
          )
      | inr f ↦
          let f' : next th ≢ 0 = ground arith in
          (
            set_next next prev (next th),
            q,
            rw (h, a, p, f) refl,
            record { chain = rw a i.chain; ends = v.ends ∙ sym (i.middle f') },
          )
    ]

cancel-first :
    (fuel th : ℕ) (next : Next) (q : ThreadQueue) (xs : List ℕ)
    → IsQueue next q (th ∷ xs)
    → (n : Next) × (r : ThreadQueue) × (cancel fuel th next q ≡ some (n, r)) × IsQueue n r xs
unfolding cancel
cancel-first fuel th next q xs v =
    let h : q.head == th ≡ true = ground (arith, v.chain.0) in
    ((get next q).1, (get next q).2, rw h refl, (get-IsQueue next q (th ∷ xs) v).1)

-- Either the thread is in the queue, and `cancel` takes it out and leaves the others in their order, or
-- it is not, and `cancel` is the bugcheck. Any fuel above the length of the queue will do.
pub cancel-IsQueue :
    (fuel th : ℕ) (next : Next) (q : ThreadQueue) (xs : List ℕ)
    → IsQueue next q xs
    → th ≢ 0
    → length xs < fuel
    → ((contains xs th ≡ false) × (cancel fuel th next q ≡ none))
      ⊎ ((contains xs th ≡ true)
          × (n : Next) × (r : ThreadQueue) × (cancel fuel th next q ≡ some (n, r))
          × IsQueue n r (erase th xs))
unfolding cancel
cancel-IsQueue fuel th next q [] v z l =
    let h : q.head == th ≡ false = ground (arith, v.chain) in
    inl (refl, rw (h, find_prev-absent fuel next q.head [] th v.chain refl z l) refl)
cancel-IsQueue fuel th next q (x ∷ xs) v z l =
    let (a, b, d, r) = v.chain in
    elim (Bool-cases (x == th)) [
      | inl e ↦
          let t : x ≡ th = ground arith in
          let n : contains xs th ≡ false = ground (arith, rw t at d) in
          let gone : erase th (x ∷ xs) ≡ xs = ground (arith, erase-absent th xs n) in
          let m : contains (x ∷ xs) th ≡ true = ground arith in
          let (n, s, f, i) = cancel-first fuel th next q xs (rw t at v) in
          inr (m, n, s, f, rw gone i)
      | inr e ↦ elim (Bool-cases (contains xs th)) [
        | inl m ↦
            let kept : erase th (x ∷ xs) ≡ x ∷ erase th xs = ground arith in
            let c : contains (x ∷ xs) th ≡ true = ground arith in
            let (n, s, f, i) = cancel-inside fuel th next q x xs v e m (omega arith) in
            inr (c, n, s, f, rw kept i)
        | inr m ↦
            let n : contains (x ∷ xs) th ≡ false = ground arith in
            let h : q.head == th ≡ false = rw a e in
            inl (n, rw (h, find_prev-absent fuel next q.head (x ∷ xs) th v.chain n z l) refl)
      ]
    ]
