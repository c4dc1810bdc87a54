-- ===== src/Process/Queue/Tests.antt =====
-- Witnesses and tests.
use cofuos.Prelude.{
  ◌==◌, ◌≡◌, refl, ◌⊎◌, true, false, if◌then◌else◌, [], ◌∷◌, ◌++◌, arith, none, some,
}
use cofuos.Process.Queue.{Next, ThreadQueue, put, get, cancel}
use cofuos.Process.Queue.Chain.{last}
use cofuos.Process.Queue.Refine.{IsQueue, put-get-IsQueue, cancel-IsQueue}

-- The threads 8, 3 and 5.
abbrev store : Next
store i = if i == 8 then 3 else if i == 3 then 5 else 0

abbrev three : ThreadQueue
three = record { head = 8; tail = 5 }

three-IsQueue : IsQueue store three (8 ∷ 3 ∷ 5 ∷ [])
unfolding last
three-IsQueue = record {
  chain = (refl, omega arith, refl, (refl, omega arith, refl, (refl, omega arith, refl, refl)));
  ends = refl;
}

put-get-IsQueue_example :
    IsQueue (put 9 store three).0 (put 9 store three).1 ((8 ∷ 3 ∷ 5 ∷ []) ++ 9 ∷ [])
    × ((get store three).0 ≡ 8)
    × IsQueue (get store three).1 (get store three).2 (3 ∷ 5 ∷ [])
put-get-IsQueue_example =
    put-get-IsQueue 9 store three (8 ∷ 3 ∷ 5 ∷ []) three-IsQueue (omega arith) refl

cancel-IsQueue_example :
    ((true ≡ false) × (cancel 4 5 store three ≡ none))
    ⊎ ((true ≡ true)
        × (n : Next) × (r : ThreadQueue) × (cancel 4 5 store three ≡ some (n, r))
        × IsQueue n r (8 ∷ 3 ∷ []))
cancel-IsQueue_example =
    cancel-IsQueue 4 5 store three (8 ∷ 3 ∷ 5 ∷ []) three-IsQueue (omega arith) (omega arith)
