-- ===== src/Container/LinkedList/Tests.antt =====
-- Witnesses and tests.
use cofuos.Prelude.{ℕ, ◌≡◌, ◌≢◌, refl, false, [], ◌∷◌, arith, ◌≤◌}
use cofuos.Prelude.Tickets.{contains}
use cofuos.Container.LinkedList.{Links, LinkedList, State, clear, splice, write}
use cofuos.Container.LinkedList.Segment.{last_or}
use cofuos.Container.LinkedList.Runs.{IsApart}
use cofuos.Container.LinkedList.Refine.{IsList}
use cofuos.Container.LinkedList.Operations.{iterator_to, GivesList}
use cofuos.Container.LinkedList.Ends.{clear-IsList}
use cofuos.Container.LinkedList.Frame.{GivesBoth, splice-IsList}

-- One list of the nodes 3, 5 and 8, and another one of 4 and 6.
abbrev links : Links
links = record {
  next = write (write (write (λ i. 0) 3 5) 5 8) 4 6;
  prev = write (write (write (λ i. 0) 5 3) 8 5) 6 4;
}

abbrev three : State
three = record { links = links; list = record { self = 1; head = 3; tail = 8; count = 3 } }

abbrev two : LinkedList
two = record { self = 2; head = 4; tail = 6; count = 2 }

three-IsList : IsList three (3 ∷ 5 ∷ 8 ∷ [])
unfolding last_or
three-IsList = ground arith

two-IsList : IsList (record three { list = two }) (4 ∷ 6 ∷ [])
unfolding last_or
two-IsList = ground arith

lists-IsApart : IsApart (3 ∷ 5 ∷ 8 ∷ []) (4 ∷ 6 ∷ [])
lists-IsApart a m = ground arith

-- 6 goes from the second list to the place before 5.
splice-IsList_example :
    GivesBoth
      (splice (iterator_to three (5 ∷ 8 ∷ [])) (record { owner = 2; ptr = 6 }) two three)
      (3 ∷ 6 ∷ 5 ∷ 8 ∷ [])
      (4 ∷ [])
splice-IsList_example =
    splice-IsList three two (3 ∷ []) (5 ∷ 8 ∷ []) (4 ∷ []) [] 6 three-IsList two-IsList
      lists-IsApart

nine-IsNew : contains (3 ∷ 5 ∷ 8 ∷ []) 9 ≡ false
nine-IsNew = refl

nine-real : ◌≢◌ {A = ℕ} 9 0
nine-real = ground arith

three_turns : 3 ≤ 3
three_turns = omega arith

clear-IsList_example : GivesList (clear 3 three) []
clear-IsList_example = clear-IsList (3 ∷ 5 ∷ 8 ∷ []) 3 three three_turns three-IsList
