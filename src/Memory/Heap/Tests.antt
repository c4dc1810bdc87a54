-- ===== src/Memory/Heap/Tests.antt =====
-- The buddy heap on concrete requests: classes 4 to 6, one free block of 64 bytes at 128.
use cofuos.Prelude.{ℕ, ◌≡◌, refl, ◌≢◌, true, arith, [], ◌∷◌}
use cofuos.Memory.Heap.{
  Pool, set_list, put, get, category, allocate, release, expand, is_aligned, prev_of, cur_of,
  insert_block, remove_block, category_loop,
}
use cofuos.Memory.Heap.Cover.{IsPool, IsPool-set_list}
use cofuos.Memory.Heap.Requests.{allocate-IsAllocated, allocate-release, IsAllocated, IsSame}
use cofuos.Memory.Heap.Expand.{expand_lem, IsGrown}

abbrev no_blocks : Pool
no_blocks sh = []

no_blocks-IsPool : IsPool no_blocks
no_blocks-IsPool sh = tt

abbrev one_block : Pool
one_block = set_list no_blocks 6 (128 ∷ [])

one_block-IsPool : IsPool one_block
unfolding is_aligned
one_block-IsPool = IsPool-set_list no_blocks 6 (128 ∷ []) no_blocks-IsPool ((omega arith, refl), tt)

-- 17 bytes need a block of 32, and the other half stays.
test_allocate : (allocate 4 7 17 one_block).0 ≡ 128
unfolding allocate category category_loop get put is_aligned prev_of cur_of insert_block
test_allocate = refl

test_half : (allocate 4 7 17 one_block).1 5 ≡ 160 ∷ []
unfolding allocate category category_loop get put is_aligned prev_of cur_of insert_block
test_half = refl

test_merged : (put 7 2 128 5 (allocate 4 7 17 one_block).1).1 6 ≡ 128 ∷ []
unfolding allocate category category_loop get put is_aligned prev_of cur_of insert_block
    remove_block
test_merged = refl

test_too_large : category 4 7 65 ≡ 7
unfolding category
test_too_large = refl

allocate-IsAllocated_example : IsAllocated 4 6 17 one_block (allocate 4 7 17 one_block)
allocate-IsAllocated_example =
    allocate-IsAllocated 4 6 17 one_block (omega arith) (omega arith) one_block-IsPool

one_block-allocated : (allocate 4 7 17 one_block).0 ≢ 0
one_block-allocated e = let t = test_allocate in omega arith

allocate-release_example :
    let r = allocate 4 7 17 one_block in
    let s = release 4 7 r.0 17 r.1 in (s.0 ≡ true) × IsSame 6 one_block s.1
allocate-release_example =
    allocate-release 4 6 17 one_block (omega arith) (omega arith) one_block-IsPool
      one_block-allocated

expand_lem_example : (m : ℕ) × IsGrown 4 6 200 100 0 no_blocks m (expand 4 7 200 100 0 no_blocks)
expand_lem_example = expand_lem 4 6 200 100 0 no_blocks (omega arith) (omega arith) no_blocks-IsPool
