-- ===== src/Memory/Pm.antt =====
-- kernel/memory/pm.cpp: the physical page allocator. The byte map `pmm_bmp` is a function from the
-- page number to its BLOCK, read in groups of 4096. `lock` makes each operation atomic. What the
-- critical callback does to the allocator is the argument `callback`.
pub mod Group
pub mod Mark
pub mod Search
pub mod Blocks
pub mod Account
pub mod Release
mod Tests
use cofuos.Prelude.{
  ℕ, zero, suc, ◌+◌, ◌-◌, ◌*◌, ◌/◌, ◌%◌, ◌^◌, Bool, true, false, ltb, leb, ◌==◌, not, ◌&&◌,
  if◌then◌else◌,
}

pub record Block : Type 0 where
  pub solid : Bool
  pub free : Bool

abbrev pub Bmp : Type 0
Bmp = ℕ → Block

abbrev pub page_size : ℕ
page_size = 4096

abbrev pub update : Bmp → ℕ → Block → Bmp
update m i b j = if i == j then b else m j

abbrev pub set_solid : Bmp → ℕ → Bool → Bmp
set_solid m i v = update m i (record { solid = v; free = (m i).free })

abbrev pub set_free : Bmp → ℕ → Bool → Bmp
set_free m i v = update m i (record { solid = (m i).solid; free = v })

pub record Pm : Type 0 where
  pub bmp : Bmp
  pub page_count : ℕ
  pub total : ℕ
  pub used : ℕ
  pub reserved : ℕ
  pub next : ℕ
  pub soft_critical_limit : ℕ
  pub hard_critical_limit : ℕ

pub data Mode : Type 0 where
  none must_succeed take : Mode

abbrev pub is_none : Mode → Bool
is_none none = true
is_none must_succeed = false
is_none take = false

abbrev pub is_take : Mode → Bool
is_take none = false
is_take must_succeed = false
is_take take = true

pub critical_check : (Pm → Pm) → Pm → Pm
critical_check callback p =
    if leb p.total ((p.used + p.reserved + p.soft_critical_limit) % 2 ^ 64) then callback p else p

-- No free block in the group: its first block is solid and used.
pub is_full : Bmp → ℕ → Bool
is_full m page = (m (page * page_size)).solid && not (m (page * page_size)).free

pub data Found : Type 0 where
  found : ℕ → Found
  used_up : Found

-- The loop that looks for a group with a free block, from `page` round to `next`.
pub find_page : ℕ → Bmp → ℕ → ℕ → ℕ → Found
find_page zero m page_count next page = used_up
find_page (suc fuel) m page_count next page =
    let page' = if page + 1 == page_count then 0 else page + 1 in
    let rest = find_page fuel m page_count next page' in
    if is_full m page then (if page' == next then used_up else rest) else found page

-- The binary search for the first solid block of a group that starts at `base`.
pub bisect : ℕ → Bmp → ℕ → ℕ → ℕ → ℕ
bisect zero m base head tail = head
bisect (suc fuel) m base head tail =
    let mid = (head + tail) / 2 in
    let left = bisect fuel m base head mid in
    let right = bisect fuel m base mid tail in
    if ltb (head + 1) tail then (if (m (base + mid)).solid then left else right) else head

pub first_solid : Bmp → ℕ → ℕ
first_solid m base =
    let head = bisect page_size m base 0 page_size in
    if (m (base + head)).solid then head else head + 1

-- The loop after an allocation at `head`: blocks become solid down to the next free one.
pub mark : ℕ → Bmp → ℕ → Bmp
mark base m zero = m
mark base m (suc h) =
    let rest = mark base (set_solid m (base + h) true) h in
    if (m (base + h)).free then set_solid m (base + h) true else rest

-- The loop after a release: the solid blocks before it are solid no more.
pub pierce : ℕ → Bmp → ℕ → Bmp
pierce base m zero = m
pierce base m (suc h) =
    let rest = pierce base (set_solid m (base + h) false) h in
    if (m (base + h)).solid then rest else m

pub data Allocated : Type 0 where
  page : ℕ → Allocated
  refused : Allocated
  bugcheck : Allocated

-- The assertions on the counters, at the end of `allocate`.
abbrev pub has_room : Mode → Pm → Bool
has_room mode p =
    ltb ((p.used + p.reserved) % 2 ^ 64) p.total && not (is_take mode && (p.reserved == 0))

-- The block of the group, and the counters. After a bugcheck the machine is halted, so the marks that it
-- has made by then are left out of that state.
abbrev pub allocate_in : Mode → ℕ → Pm → Allocated × Pm
allocate_in mode g p =
    let base = g * page_size in
    let head = first_solid p.bmp base in
    if has_room mode p
    then (
      page (base + head),
      record p {
        bmp = mark base (set_free p.bmp (base + head) false) head;
        next = g;
        reserved = if is_take mode then p.reserved - 1 else p.reserved;
        used = p.used + 1;
      },
    )
    else (bugcheck, p)

abbrev pub allocate_found : Mode → Found → Pm → Allocated × Pm
allocate_found mode (found g) p = allocate_in mode g p
allocate_found mode used_up p = (bugcheck, p)

pub allocate : (Pm → Pm) → Mode → Pm → Allocated × Pm
allocate callback mode p =
    let q = critical_check callback p in
    if is_none mode && leb q.total ((q.used + q.reserved + q.hard_critical_limit) % 2 ^ 64)
    then (refused, q)
    else allocate_found mode (find_page q.page_count q.bmp q.page_count q.next q.next) q

pub reserve : (Pm → Pm) → ℕ → Pm → Bool × Pm
reserve callback page_count p =
    let q = critical_check callback p in
    if ltb ((q.used + q.reserved + page_count + q.hard_critical_limit) % 2 ^ 64) q.total
    then (true, record q { reserved = q.reserved + page_count })
    else (false, q)

-- `false` is the bugcheck of a double release. `pa` is the number of the page.
pub release : ℕ → Pm → Bool × Pm
release pa p =
    let g = pa / page_size in
    let off = pa % page_size in
    if (p.bmp pa).free then (false, p) else (
      true,
      record p { bmp = pierce (g * page_size) (set_free p.bmp pa true) off; used = p.used - 1 },
    )

-- The constructor's pass over one group, from its end: solid down to the last free block.
pub build_solid : ℕ → Bmp → Bmp
build_solid base m = mark base m page_size
