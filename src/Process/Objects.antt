-- ===== src/Process/Objects.antt =====
-- kernel/interface/object.cpp, include/object.hpp: the named objects. `fasthash64` over the text of a name is the
-- parameter `text_hash`. `objlock` makes each operation atomic. The reference that `manage` takes is the caller's.
mod Tests
use cofuos.Prelude.{
  ℕ, ◌≡◌, refl, ap, sym, ◌∙◌, ◌+◌, ◌%◌, ◌^◌, ◌≤◌, ltb, leb, ◌==◌, Bool, true, false, ◌&&◌,
  if◌then◌else◌, Option, none, some, List, [], ◌∷◌, length, arith, Bool-cases, inl, inr, ◌↔◌,
}
use cofuos.Container.HashSet.{Hashing, HashSet, create, insert, find}
use cofuos.Container.HashSet.Bag.{count_if, count_from-empty}
use cofuos.Container.HashSet.Placement.{IsValid, insert-IsValid}
use cofuos.Container.HashSet.Lookup.{find-none}

pub record Object : Type 0 where
  pub name : List ℕ
  pub obj : ℕ
  pub property : ℕ

abbrev pub max_name_length : ℕ
max_name_length = 504

-- `==` of two texts.
abbrev pub equal_text : List ℕ → List ℕ → Bool
equal_text [] [] = true
equal_text [] (y ∷ ys) = false
equal_text (x ∷ xs) [] = false
equal_text (x ∷ xs) (y ∷ ys) = let rest = equal_text xs ys in if x == y then rest else false

pub equal_text-true : (xs ys : List ℕ) → equal_text xs ys ≡ true → xs ≡ ys
equal_text-true [] [] h = refl
equal_text-true [] (y ∷ ys) h = absurd (ground arith)
equal_text-true (x ∷ xs) [] h = absurd (ground arith)
equal_text-true (x ∷ xs) (y ∷ ys) h =
    let e : x ≡ y = ground arith in let t = equal_text-true xs ys (ground arith) in cc

-- A call of `put` with its arguments.
pub record Request : Type 0 where
  pub privilege : ℕ
  pub name : List ℕ
  pub obj : ℕ
  pub properties : ℕ

module _ (text_hash : List ℕ → ℕ) where
  -- `object_manager::hash` and `object_manager::equal`
  abbrev pub hashing : Hashing Object (List ℕ)
  hashing = record {
    hash = λ o. text_hash o.name;
    key_hash = text_hash;
    equal = λ o name. equal_text o.name name;
    law = λ o name e. ap text_hash (equal_text-true o.name name e);
  }

  -- `object_manager::put`, by a thread of a process with this privilege.
  pub put : ℕ → List ℕ → ℕ → ℕ → HashSet Object → Bool × HashSet Object
  put privilege name obj properties table =
      let added = insert hashing (record { name = name; obj = obj; property = properties }) table in
      if leb max_name_length (length name)
      then (false, table)
      else (if ltb privilege (properties % 2 ^ 8)
          then (false, table)
          else elim (find hashing name table) [ none ↦ (false, table) | some o ↦ (true, added) ])

  -- `object_manager::get`
  abbrev pub get : List ℕ → HashSet Object → Option Object
  get name table = find hashing name table

  -- A name that no object has is refused, and nothing is stored. So an empty table stays empty for ever.
  pub put-unnamed :
      (privilege : ℕ) (name : List ℕ) (obj properties : ℕ) (table : HashSet Object)
      → IsValid hashing table
      → count_if (λ o. equal_text o.name name) table ≡ 0
      → put privilege name obj properties table ≡ (false, table)
  unfolding put
  put-unnamed privilege name obj properties table v h =
      let e = (find-none hashing name table v).1 h in
      elim (Bool-cases (leb max_name_length (length name))) [
        | inl a ↦ rw a refl
        | inr a ↦ elim (Bool-cases (ltb privilege (properties % 2 ^ 8))) [
          | inl b ↦ rw (a, b) refl
          | inr b ↦ rw (a, b, e) refl
        ]
      ]

  abbrev pub put_all : List Request → HashSet Object → HashSet Object
  put_all [] table = table
  put_all (r ∷ rs) table = put_all rs (put r.privilege r.name r.obj r.properties table).1

  create-IsValid : (fac : ℕ) → 1 ≤ fac → IsValid hashing (create fac)
  create-IsValid fac h = (h, (λ i. tt), sym (count_from-empty (λ (o : Object). true) fac 0))

  create-count :
      (name : List ℕ) (fac : ℕ) → count_if (λ (o : Object). equal_text o.name name) (create fac) ≡ 0
  create-count name fac = count_from-empty (λ (o : Object). equal_text o.name name) fac 0

  -- From an empty table, whatever is put, the table stays empty, and `get` finds no name.
  pub put_all-empty :
      (fac : ℕ) (rs : List Request) (name : List ℕ)
      → 1 ≤ fac
      → (put_all rs (create fac) ≡ create fac) × (get name (put_all rs (create fac)) ≡ none)
  put_all-empty fac [] name h =
      (refl, (find-none hashing name (create fac) (create-IsValid fac h)).1 (create-count name fac))
  put_all-empty fac (r ∷ rs) name h =
      let e =
        put-unnamed r.privilege r.name r.obj r.properties (create fac) (create-IsValid fac h)
          (create-count r.name fac) in
      let t = put_all-empty fac rs name h in
      let q : put_all (r ∷ rs) (create fac) ≡ put_all rs (create fac) =
        ap (λ p. put_all rs p.1) e in
      (q ∙ t.0, ap (get name) q ∙ t.1)
