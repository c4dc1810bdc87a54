-- ===== src/Process/Handles.antt =====
-- kernel/process/process.cpp, kernel/process/include/process.hpp: `handle_table`. An object is the
-- number of its address, 0 is the null pointer. `has_page` tells which pages of slots are committed,
-- `commit` whether `vm.reserve` and `vm.commit` give a page. What is relaxed is returned. `objlock`
-- makes each operation atomic.
pub mod Table
pub mod Close
pub mod Clear
mod Tests
use cofuos.Prelude.{
  ℕ, zero, suc, ◌+◌, ◌-◌, ◌*◌, ◌/◌, ◌%◌, ◌^◌, max, Bool, true, false, ltb, leb, ◌==◌, not, ◌&&◌,
  ◌||◌, if◌then◌else◌, List, [], ◌∷◌, ◌++◌, Option, none, some,
}

abbrev pub limit : ℕ
limit = 0x800

abbrev pub avl_base : ℕ
avl_base = 4

abbrev pub handle_of_page : ℕ
handle_of_page = 512

pub record HandleTable : Type 0 where
  pub count : ℕ
  pub top : ℕ
  pub has_page : ℕ → Bool
  pub slot : ℕ → ℕ

abbrev pub empty : HandleTable
empty = record { count = 0; top = 0; has_page = λ i. false; slot = λ i. 0 }

abbrev pub add_page : ℕ → HandleTable → HandleTable
add_page n t = record t { has_page = λ i. if i == n then true else t.has_page i }

abbrev pub set_slot : ℕ → ℕ → HandleTable → HandleTable
set_slot n x t = record t { slot = λ i. if i == n then x else t.slot i }

-- The state after slot `index`, whose page is there, takes `x`.
abbrev pub filled : ℕ → ℕ → HandleTable → HandleTable
filled index x t = record (set_slot index x t) { count = t.count + 1; top = max t.top (index + 1) }

-- The loop of `put`, with fuel for the slots up to the limit.
pub put_loop : ℕ → (ℕ → Bool) → ℕ → ℕ → HandleTable → ℕ × HandleTable
put_loop zero commit index x t = (0, t)
put_loop (suc fuel) commit index x t =
    let there = put_loop fuel commit (index + 1) x t in
    let added = put_loop fuel commit (index + 1) x (add_page (index / handle_of_page) t) in
    if ltb index limit
    then (if t.has_page (index / handle_of_page)
        then (if t.slot index == 0 then (index, filled index x t) else there)
        else (if commit (index / handle_of_page)
            then (if t.slot index == 0
                then (index, filled index x (add_page (index / handle_of_page) t))
                else added)
            else (0, t)))
    else (0, t)

-- Where `put` starts to look.
abbrev pub start : HandleTable → ℕ
start t = if ltb (t.top * 3) (t.count * 4) then max avl_base t.top else avl_base

pub put : (ℕ → Bool) → ℕ → HandleTable → ℕ × HandleTable
put commit x t = put_loop limit commit (start t) x t

pub data Outcome : Type 0 where
  failed : Outcome
  done : ℕ → Outcome
  wild_read : Outcome

-- The state after slot `index`, whose page is there, takes `x` for what it held.
abbrev pub swapped : ℕ → ℕ → HandleTable → HandleTable
swapped index x t = record (set_slot index x t) {
  count = if t.slot index == 0 then t.count + 1 else t.count;
}

-- `done` carries the object that is relaxed, 0 for none.
pub assign : (ℕ → Bool) → ℕ → ℕ → HandleTable → Outcome × HandleTable
assign commit index x t =
    if leb avl_base index || (x == 0)
    then (failed, t)
    else (if t.has_page (index / handle_of_page)
        then (done (t.slot index), swapped index x t)
        else (if commit (index / handle_of_page)
            then (done (t.slot index), swapped index x (add_page (index / handle_of_page) t))
            else (failed, t)))

-- The loop of `close` that looks down for the last slot in use.
pub lower : ℕ → HandleTable → ℕ
lower zero t = zero
lower (suc n) t =
    let rest = lower n t in
    if ltb (suc n) avl_base
    then suc n
    else (if t.has_page (suc n / handle_of_page)
        then (if t.slot (suc n) == 0 then rest else suc n)
        else suc n)

-- The state after slot `index` was emptied below the top.
abbrev pub emptied : ℕ → HandleTable → HandleTable
emptied index t = record (set_slot index 0 t) { count = t.count - 1 }

-- The state after slot `suc n` at the top was emptied.
abbrev pub lowered : ℕ → HandleTable → HandleTable
lowered n t = record (emptied (suc n) t) { top = lower n (emptied (suc n) t) + 1 }

-- At slot 0 the index wraps round, and the loop reads far behind the table.
abbrev pub close_top : ℕ → HandleTable → Outcome × HandleTable
close_top zero t = (wild_read, emptied zero t)
close_top (suc n) t = (done (t.slot (suc n)), lowered n t)

pub close : ℕ → HandleTable → Outcome × HandleTable
close index t =
    if leb limit index
    then (failed, t)
    else (if not (t.has_page (index / handle_of_page))
        then (failed, t)
        else (if t.slot index == 0
            then (failed, t)
            else (if leb t.top (index + 1)
                then close_top index t
                else (done (t.slot index), emptied index t))))

pub lookup : ℕ → HandleTable → ℕ
lookup index t =
    if leb limit index then 0 else (if t.has_page (index / handle_of_page) then t.slot index else 0)

-- The loops of `clear` over the first `n` slots, with the objects that are relaxed, the last first.
pub clear_loop : ℕ → HandleTable → List ℕ × HandleTable
clear_loop zero t = ([], t)
clear_loop (suc n) t =
    let (relaxed, t') = clear_loop n t in
    if t'.has_page (n / handle_of_page) && not (t'.slot n == 0)
    then (t'.slot n ∷ relaxed, emptied n t')
    else (relaxed, t')

pub clear : HandleTable → List ℕ × HandleTable
clear t = clear_loop limit t
