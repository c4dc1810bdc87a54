-- ===== src/Memory/Pm/Account.antt =====
-- The accounts of the allocator: which pages are free, and how many.
use cofuos.Prelude.{
  ℕ, ◌≤◌, zero, suc, ◌+◌, ◌-◌, ◌*◌, ◌/◌, ◌%◌, ◌^◌, ◌<◌, ◌≡◌, ◌≢◌, refl, ap, ◌⊎◌, inl, inr, Bool,
  true, false, leb, ◌==◌, ◌&&◌, if◌then◌else◌, arith, Bool-cases,
}
use cofuos.Memory.Pm.{
  Bmp, Pm, page_size, set_free, is_full, mark, pierce, find_page, Found, found, used_up, Mode,
  is_none, is_take, has_room, Allocated, page, refused, allocate, allocate_found, allocate_in,
  is_take, critical_check,
}
use cofuos.Memory.Pm.Group.{IsGroup, IsSound}
use cofuos.Memory.Pm.Mark.{free-mark, mark_outside, free-pierce, last_free}
use cofuos.Memory.Pm.Search.{first_solid_lem, find_page-found, find_page_total}
use cofuos.Memory.Pm.Blocks.{IsGroup-cong, mark-IsGroup, boundary-free}

unfoldable pub count_free : ℕ → Bmp → ℕ
count_free zero m = 0
count_free (suc n) m = count_free n m + (if (m n).free then 1 else 0)

count_free-cong :
    (n : ℕ) (m m' : Bmp)
    → ((j : ℕ) → j < n → (m' j).free ≡ (m j).free)
    → count_free n m' ≡ count_free n m
unfolding count_free
count_free-cong zero m m' e = refl
count_free-cong (suc n) m m' e =
    ground (arith, e n (omega arith), count_free-cong n m m' (λ j l. e j (omega arith)))

-- One flag that changes changes the count by one.
pub count_free-change :
    (n j : ℕ) (m m' : Bmp) (v : Bool)
    → ((i : ℕ) → i < n → (m' i).free ≡ (if i == j then v else (m i).free))
    → j < n
    → count_free n m' + (if (m j).free then 1 else 0) ≡ count_free n m + (if v then 1 else 0)
unfolding count_free
count_free-change zero j m m' v e l = absurd (omega arith)
count_free-change (suc n) j m m' v e l = elim (Bool-cases (n == j)) [
  | inl h ↦
      ground (
        arith,
        e n (omega arith),
        count_free-cong n m m' (λ i k. ground (arith, e i (omega arith))),
      )
  | inr h ↦
      ground (arith, e n (omega arith), count_free-change n j m m' v (λ i k. e i (omega arith)))
]

some_free : (n : ℕ) (m : Bmp) → 0 < count_free n m → (j : ℕ) × (j < n) × ((m j).free ≡ true)
unfolding count_free
some_free zero m h = absurd (omega arith)
some_free (suc n) m h = elim (Bool-cases (m n).free) [
  | inl e ↦ (n, omega arith, e)
  | inr e ↦ let (j, l, f) = some_free n m (ground arith) in (j, omega arith, f)
]

-- A sound allocator whose counters agree with its blocks, as `check_integrity` wants.
pub record IsValid (p : Pm) : Type 0 where
  pub sound : IsSound p
  pub counted : count_free (p.page_count * page_size) p.bmp + p.used ≡ p.total

other_group :
    (g h i j : ℕ) → g ≢ h → i < page_size → j < page_size → g * page_size + i ≢ h * page_size + j
other_group g h i j n l r e = n (ground (arith))

-- What an allocation at block `h` of a group does to the flags.
free-allocate_in :
    (m : Bmp) (base h j : ℕ)
    → (mark base (set_free m (base + h) false) h j).free
      ≡ (if j == base + h then false else (m j).free)
free-allocate_in m base h j = ground (arith, free-mark base (set_free m (base + h) false) h j)

pub free-release :
    (m : Bmp) (base pa off j : ℕ)
    → (pierce base (set_free m pa true) off j).free ≡ (if j == pa then true else (m j).free)
free-release m base pa off j = ground (arith, free-pierce base (set_free m pa true) off j)

-- The state after block `k` of group `g` went to a caller.
abbrev pub after_take : Mode → ℕ → ℕ → Pm → Pm
after_take mode g k p = record p {
  bmp = mark (g * page_size) (set_free p.bmp (g * page_size + k) false) k;
  next = g;
  reserved = if is_take mode then p.reserved - 1 else p.reserved;
  used = p.used + 1;
}

module _ (mode : Mode) (g k : ℕ) (p : Pm) (v : IsValid p) (l : g < p.page_count)
    (i : IsGroup p.bmp (g * page_size) k) (f : (p.bmp (g * page_size + k)).free ≡ true) where
  pub allocate_in_lem :
      has_room mode p ≡ true
      → allocate_in mode g p ≡ (page (g * page_size + k), after_take mode g k p)
  allocate_in_lem room = rw room (
      ap (λ h. (page (g * page_size + h), after_take mode g h p))
        (first_solid_lem p.bmp (g * page_size) k i))

  after_take-groups :
      (h : ℕ) → h < p.page_count → (j : ℕ) × IsGroup (after_take mode g k p).bmp (h * page_size) j
  after_take-groups h r = elim (Bool-cases (h == g)) [
    | inl e ↦
        let e' : h ≡ g = ground arith in
        rw e' (
          (
            last_free (g * page_size) (set_free p.bmp (g * page_size + k) false) k,
            mark-IsGroup p.bmp (g * page_size) k i,
          ))
    | inr e ↦
        let (j, q) = v.sound.groups h r in
        (
          j,
          IsGroup-cong p.bmp (after_take mode g k p).bmp (h * page_size) j
              (λ n b. ground (
                arith,
                mark_outside (g * page_size) (set_free p.bmp (g * page_size + k) false) k
                    (h * page_size + n),
                i.inside,
              ))
              q,
        )
  ]

  pub after_take-IsValid : IsValid (after_take mode g k p)
  after_take-IsValid = record {
    sound = record { groups = after_take-groups; next_in = l };
    counted = ground (
      arith,
      v.counted,
      i.inside,
      count_free-change (p.page_count * page_size) (g * page_size + k) p.bmp
          (after_take mode g k p).bmp false (λ j r. free-allocate_in p.bmp (g * page_size) k j),
    );
  }

-- A group with a free block is not full.
pub free-is_full :
    (p : Pm) (j : ℕ)
    → IsSound p
    → j < p.page_count * page_size
    → (p.bmp j).free ≡ true
    → (j / page_size < p.page_count) × (is_full p.bmp (j / page_size) ≡ false)
unfolding is_full
free-is_full p j s l f =
    let g = j / page_size in
    let (k, i) = s.groups g (omega arith) in
    let split : g * page_size + (j % page_size) ≡ j = omega arith in
    let u = i.used (j % page_size) in (omega arith, ground (arith, split, u, i.pierced 0, i.inside))

-- `r` hands out the free page `n` of `q`: it is used from then on, every other flag stands, one page
-- more is used, and the allocator stays valid.
pub record IsAllocation (q : Pm) (n : ℕ) (r : Allocated × Pm) : Type 0 where
  pub handed : r.0 ≡ page n
  pub inside : n < q.page_count * page_size
  pub was_free : (q.bmp n).free ≡ true
  pub flags : (j : ℕ) → (r.1.bmp j).free ≡ (if j == n then false else (q.bmp j).free)
  pub counted : r.1.used ≡ q.used + 1
  pub still : (r.1.total ≡ q.total) × (r.1.page_count ≡ q.page_count)
  pub valid : IsValid r.1

has_room_lem :
    (mode : Mode) (q : Pm)
    → q.used + q.reserved < q.total
    → (is_take mode ≡ true → 0 < q.reserved)
    → has_room mode q ≡ true
has_room_lem mode q l t = elim (Bool-cases (is_take mode)) [
  | inl e ↦ ground (arith, t e)
  | inr e ↦ ground arith
]

pub allocate_in-IsAllocation :
    (mode : Mode) (g : ℕ) (p : Pm)
    → IsValid p
    → g < p.page_count
    → is_full p.bmp g ≡ false
    → has_room mode p ≡ true
    → (n : ℕ) × IsAllocation p n (allocate_in mode g p)
      × ((allocate_in mode g p).1.reserved ≡ (if is_take mode then p.reserved - 1 else p.reserved))
allocate_in-IsAllocation mode g p v l f room =
    let (k, i) = v.sound.groups g l in
    let b = boundary-free p.bmp g k i f in
    let n = g * page_size + k in
    rw (allocate_in_lem mode g k p v l i b room) (
      (
        n,
        record {
          handed = refl;
          inside = omega (arith, i.inside);
          was_free = b;
          flags = λ j. free-allocate_in p.bmp (g * page_size) k j;
          counted = refl;
          still = (refl, refl);
          valid = after_take-IsValid mode g k p v l i b;
        },
        refl,
      ))

allocate_found-IsAllocation :
    (mode : Mode) (r : Found) (p : Pm)
    → IsValid p
    → r ≢ used_up
    → ((g : ℕ) → r ≡ found g → (g < p.page_count) × (is_full p.bmp g ≡ false))
    → has_room mode p ≡ true
    → (n : ℕ) × IsAllocation p n (allocate_found mode r p)
      × ((allocate_found mode r p).1.reserved
          ≡ (if is_take mode then p.reserved - 1 else p.reserved))
allocate_found-IsAllocation mode (found g) p v u e room =
    allocate_in-IsAllocation mode g p v (e g refl).0 (e g refl).1 room
allocate_found-IsAllocation mode used_up p v u e room = absurd (u refl)

-- The pages in use and those reserved leave one of the total, and a caller of mode TAKE has a reserve.
-- Then `allocate` hands out a free page of a valid allocator: it becomes used, no other page changes, TAKE
-- takes one off the reserve and the other modes take none, and the allocator stays valid, so none of its
-- bugchecks and assertions on the counters is met. Only mode NONE can be refused, when the hard limit is
-- reached, and then nothing changes. The state is the one after the critical callback.
pub allocate_lem :
    (callback : Pm → Pm) (mode : Mode) (p : Pm)
    → IsValid (critical_check callback p)
    → (critical_check callback p).used + (critical_check callback p).reserved
      < (critical_check callback p).total
    → (is_take mode ≡ true → 0 < (critical_check callback p).reserved)
    → ((is_none mode ≡ true)
        × ((critical_check callback p).total
            ≤ ((critical_check callback p).used
                + (critical_check callback p).reserved
                + (critical_check callback p).hard_critical_limit)
              % 2 ^ 64)
        × (allocate callback mode p ≡ (refused, critical_check callback p)))
      ⊎ ((n : ℕ) × IsAllocation (critical_check callback p) n (allocate callback mode p)
          × ((allocate callback mode p).1.reserved ≡ (
              if is_take mode
              then (critical_check callback p).reserved - 1
              else (critical_check callback p).reserved)))
unfolding allocate
allocate_lem callback mode p v l t =
    let q = critical_check callback p in
    let room : has_room mode q ≡ true = has_room_lem mode q l t in
    elim (Bool-cases
      (is_none mode && leb q.total ((q.used + q.reserved + q.hard_critical_limit) % 2 ^ 64))) [
        | inl e ↦ inl (ground arith, ground arith, ground arith)
        | inr e ↦
            let (j, r, f) = some_free (q.page_count * page_size) q.bmp (omega (arith, v.counted)) in
            let (a, b) = free-is_full q j v.sound r f in
            let search = find_page q.page_count q.bmp q.page_count q.next q.next in
            let a =
              allocate_found-IsAllocation mode search q v
                (find_page_total q.bmp q.page_count q.next (j / page_size) a v.sound.next_in b)
                (λ g.
                  find_page-found q.page_count q.bmp q.page_count q.next q.next g v.sound.next_in)
                room in
            inr (rw e a)
      ]
