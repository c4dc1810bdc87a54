-- ===== src/Memory/Heap.antt =====
-- util/include/buddy_heap.hpp: the buddy heap of the kernel and of user programs. `pool` gives for each
-- size class the addresses of its free blocks, in the order of their list; 0 is the null pointer. The
-- links of a list stand in its blocks, so a list is a list of addresses. `bot` and `top` are the template's
-- arguments. The lock makes `get` and `put` atomic.
pub mod Words
pub mod Cover
pub mod Blocks
pub mod Sizes
pub mod Expand
pub mod Requests
mod Tests
use Prim.Native.Nat.{bit_xor}
use cofuos.Prelude.{
  ℕ, zero, suc, ◌+◌, ◌-◌, ◌*◌, ◌/◌, ◌%◌, ◌^◌, min, max, Bool, true, false, ltb, leb, ◌==◌, not,
  ◌&&◌, ◌||◌, if◌then◌else◌, List, [], ◌∷◌,
}

abbrev pub Pool : Type 0
Pool = ℕ → List ℕ

abbrev pub set_list : Pool → ℕ → List ℕ → Pool
set_list p sh xs i = if i == sh then xs else p i

-- `0 == (ptr & block_mask(sh))`: the `sh` low bits are 0.
pub is_aligned : ℕ → ℕ → Bool
is_aligned zero ptr = true
is_aligned (suc n) ptr = (ptr % 2 == 0) && is_aligned n (ptr / 2)

-- `block_diff(a,b) == block_size(sh)`, for two pointers of which the first may be null.
abbrev pub is_buddy : ℕ → ℕ → ℕ → Bool
is_buddy sh a b = not (a == 0) && (bit_xor a b == 2 ^ sh)

-- The place in the list: the last block before `block`, from `prev` on, and the first one after it.
pub prev_of : ℕ → ℕ → List ℕ → ℕ
prev_of block prev [] = prev
prev_of block prev (x ∷ xs) = if ltb x block then prev_of block x xs else prev

pub cur_of : ℕ → List ℕ → ℕ
cur_of block [] = 0
cur_of block (x ∷ xs) = if ltb x block then cur_of block xs else x

pub insert_block : ℕ → List ℕ → List ℕ
insert_block block [] = block ∷ []
insert_block block (x ∷ xs) = if ltb x block then x ∷ insert_block block xs else block ∷ x ∷ xs

pub remove_block : ℕ → List ℕ → List ℕ
remove_block block [] = []
remove_block block (x ∷ xs) = if x == block then xs else x ∷ remove_block block xs

-- The block of the same list that `block` merges with, 0 for none.
abbrev pub buddy_of : ℕ → ℕ → List ℕ → ℕ
buddy_of sh block xs =
    if is_buddy sh (prev_of block 0 xs) block
    then prev_of block 0 xs
    else (if is_buddy sh (cur_of block xs) block then cur_of block xs else 0)

-- What `get` does with its own list; `rest` is what the next class gives.
abbrev pub take_from : ℕ → List ℕ → ℕ × Pool → Pool → ℕ × Pool
take_from sh [] rest p = rest
take_from sh (x ∷ xs) rest p = (x, set_list p sh xs)

module _ (top : ℕ) where
  -- `put`, which calls itself for the next class, `top - sh` times at most.
  pub put : ℕ → ℕ → ℕ → Pool → Bool × Pool
  put zero block sh p = (false, p)
  put (suc n) block sh p =
      let buddy = buddy_of sh block (p sh) in
      let merged = put n (min block buddy) (sh + 1) (set_list p sh (remove_block buddy (p sh))) in
      if not (is_aligned sh block)
      then (false, p)
      else (if ltb (sh + 1) top && not (buddy == 0)
          then merged
          else (true, set_list p sh (insert_block block (p sh))))

  -- What `get` does with the block of the next class: its second half goes to the pool.
  abbrev pub split : ℕ → ℕ → ℕ × Pool → ℕ × Pool
  split n sh (block, p) =
      let half = (put n (block + 2 ^ sh) sh p).1 in if block == 0 then (0, p) else (block, half)

  -- `get`, 0 for none; it calls itself for the next class, `top - sh` times at most.
  pub get : ℕ → ℕ → Pool → ℕ × Pool
  get zero sh p = (0, p)
  get (suc n) sh p =
      let rest = split (suc n) sh (get n (sh + 1) p) in
      let taken = take_from sh (p sh) rest p in if leb top sh then (0, p) else taken

-- The loop of `category`, from `res` down to `bot`.
pub category_loop : ℕ → ℕ → ℕ → ℕ
category_loop bot zero sz = bot
category_loop bot (suc res) sz =
    let rest = category_loop bot res sz in
    if leb (2 ^ res) sz
    then (if sz % 2 ^ res == 0 then res else res + 1)
    else (if ltb bot res then rest else res)

-- The class of a size, `top` for one that is too large.
pub category : ℕ → ℕ → ℕ → ℕ
category bot top sz = if ltb (2 ^ (top - 1)) sz then top else category_loop bot top sz

pub release : ℕ → ℕ → ℕ → ℕ → Pool → Bool × Pool
release bot top ptr sz p =
    let sh = category bot top sz in
    let done = put top (top - sh) ptr sh p in
    if ptr == 0 then (false, p) else (if leb top sh then (false, p) else done)

-- `allocate` without an expander.
pub allocate : ℕ → ℕ → ℕ → Pool → ℕ × Pool
allocate bot top req p =
    let sh = category bot top req in
    let got = get top (top - sh) sh p in if leb top sh then (0, p) else got

-- The largest class that a block at `base`, of `len` bytes at most, can have; `top` for none.
pub range_loop : ℕ → ℕ → ℕ → ℕ → ℕ → ℕ
range_loop zero cur res base len = res
range_loop (suc n) cur res base len =
    let rest = range_loop n (cur + 1) cur base len in
    if not (is_aligned cur base) || ltb len (2 ^ cur) then res else rest

abbrev pub range_category : ℕ → ℕ → ℕ → ℕ → ℕ
range_category bot top base len = range_loop (top - bot) bot top base len

-- What `expand` leaves behind: its result, `cap_size` and the pool.
abbrev pub Expanded : Type 0
Expanded = Bool × ℕ × Pool

-- The loop of `expand`; each pass takes a block off the range, so `len` passes are enough.
pub expand_loop : ℕ → ℕ → ℕ → ℕ → ℕ → Bool → ℕ → Pool → Expanded
expand_loop bot top zero cur len res cap p = (res, cap, p)
expand_loop bot top (suc n) cur len res cap p =
    let sh = range_category bot top cur len in
    let done = put top (top - sh) cur sh p in
    let rest = expand_loop bot top n (cur + 2 ^ sh) (len - 2 ^ sh) true (cap + 2 ^ sh) done.1 in
    if ltb len (2 ^ bot) || leb top sh
    then (res, cap, p)
    else (if done.0 then rest else (false, cap, done.1))

abbrev pub align_up : ℕ → ℕ → ℕ
align_up base size = (base + (size - 1)) / size * size

pub expand : ℕ → ℕ → ℕ → ℕ → ℕ → Pool → Expanded
expand bot top ptr len cap p =
    let first = align_up ptr (2 ^ bot) in
    let left = len - (first - ptr) in
    let done = expand_loop bot top left first left false cap p in
    if (ptr == 0) || (len == 0) || leb len (first - ptr) then (false, cap, p) else done
