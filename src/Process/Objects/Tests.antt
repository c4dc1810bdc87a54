-- ===== src/Process/Objects/Tests.antt =====
-- Witnesses and tests.
use cofuos.Prelude.{◌≡◌, ◌≤◌, List, [], ◌∷◌, length, none, arith}
use cofuos.Container.HashSet.{create}
use cofuos.Process.Objects.{Request, put_all, get, put_all-empty}

-- Two objects with the names "ab" and "c".
abbrev requests : List Request
requests =
    record { privilege = 3; name = 97 ∷ 98 ∷ []; obj = 1; properties = 0 }
    ∷ record { privilege = 3; name = 99 ∷ []; obj = 2; properties = 2 }
    ∷ []

sixteen : 1 ≤ 16
sixteen = omega arith

put_all-empty_example :
    (put_all length requests (create 16) ≡ create 16)
    × (get length (99 ∷ []) (put_all length requests (create 16)) ≡ none)
put_all-empty_example = put_all-empty length 16 requests (99 ∷ []) sixteen
