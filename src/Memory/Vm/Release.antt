-- ===== src/Memory/Vm/Release.antt =====
-- kernel/memory/vm.cpp: `imp_release` in one page table. `pm.release` gives the page of a committed entry back:
-- the pages that were given back are listed; `used_pages` falls by their number.
use cofuos.Prelude.{
  ℕ, zero, suc, ◌+◌, ◌-◌, ◌/◌, ◌%◌, ◌^◌, ltb, ◌==◌, Bool, false, not, ◌&&◌, ◌||◌, if◌then◌else◌,
  Option, none, some, List, [], ◌∷◌,
}
use cofuos.Memory.Vm.{Pte, Table, Block, Space, entries, is_used, write, get}
use cofuos.Memory.Vm.Insert.{none_block, insert}
use cofuos.Memory.Vm.Pages.{take_block}

-- An entry is released: the page it maps, and whether it was neither mapped nor preserved.
abbrev pub released_entry : Pte → Pte
released_entry e =
    if e.present && not (e.page_addr == 0)
    then record e { present = false; page_addr = 0; preserve = false }
    else record e { preserve = false }

abbrev pub more_pages : Pte → Option (List ℕ × Table) → Option (List ℕ × Table)
more_pages e none = none
more_pages e (some (pages, t)) =
    some (if e.present && not (e.page_addr == 0) then e.page_addr ∷ pages else pages, t)

-- The loop of `imp_release`.
abbrev pub release_run : ℕ → ℕ → Table → Option (List ℕ × Table)
release_run zero i t = some ([], t)
release_run (suc n) i t =
    let rest = release_run n (i + 1) (write t i (released_entry (t i))) in
    if not (t i).present || (t i).page_addr == 0
    then (if (t i).preserve then more_pages (t i) rest else none)
    else more_pages (t i) rest

abbrev pub released : ℕ → ℕ → ℕ → Option (Block × Space) → Option (List ℕ × Space)
released fuel i n none = none
released fuel i n (some (b, s)) = elim (release_run n i s.table) [
  | none ↦ none
  | some r ↦ some (r.0, insert fuel b (record s { table = r.1 }))
]

abbrev is_free : ℕ → Table → Bool
is_free i t = not (is_used (t i))

abbrev pub grown : ℕ → Option (Block × Space) → Option (Block × Space)
grown n none = none
grown n (some (b, s)) = some (record b { size = b.size + n }, s)

-- Both sides are free: the block after goes first, then the one before.
abbrev pub merge_both : ℕ → ℕ → ℕ → Option (Block × Space) → Option (Block × Space)
merge_both fuel i n none = none
merge_both fuel i n (some (b, s)) = grown (b.size + n) (take_block fuel s (get s.table (i - 1)))

abbrev pub merge_after : ℕ → ℕ → Option (Block × Space) → Option (Block × Space)
merge_after i n none = none
merge_after i n (some (b, s)) = some (record b { self = i; size = n + b.size }, s)

-- The block that the entries make with their free neighbours, which leave the list.
abbrev pub merge : ℕ → ℕ → ℕ → Space → Option (Block × Space)
merge fuel i n s =
    let t = s.table in
    let has_prior = not (i == 0) && is_free (i - 1) t in
    let has_after = ltb (i + n) entries && is_free (i + n) t in
    let next = take_block fuel s (get t (i + n)) in
    if has_prior
    then (if has_after
        then merge_both fuel i n next
        else grown n (take_block fuel s (get t (i - 1))))
    else (if has_after
        then merge_after i n next
        else some (record none_block { self = i; size = n }, s))

unfoldable pub imp_release : ℕ → ℕ → ℕ → Space → Option (List ℕ × Space)
imp_release fuel base n s = let i = base / 2 ^ 12 % 512 in released fuel i n (merge fuel i n s)
