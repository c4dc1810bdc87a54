-- ===== src/Process/Scheduler/Tests.antt =====
-- Witnesses and tests.
use cofuos.Prelude.{◌==◌, ◌≡◌, refl, some, [], ◌∷◌, if◌then◌else◌}
use cofuos.Process.Scheduler.{Ready, get, get_loop}

-- Thread 9 with priority 5, threads 6 and 7 with priority 3.
abbrev three_ready : Ready
three_ready i = if i == 3 then 6 ∷ 7 ∷ [] else if i == 5 then 9 ∷ [] else []

get_urgent : (get 16 three_ready).0 ≡ some 6
unfolding get get_loop
get_urgent = refl
