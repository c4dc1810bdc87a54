-- ===== src/Exfat/Chain.antt =====
-- kernel/filesystem/exfat.cpp: `cluster_chain::get` with its cache. `fat` is `fat_reader::get`, the entry of
-- a cluster in the FAT and 0 when it cannot be read. An iterator in `lru_queue` is the index of the line
-- that it points to. `objlock` makes the operation atomic.
pub mod Walk
pub mod Cache
pub mod Lookup
mod Tests
use cofuos.Prelude.{
  ℕ, zero, suc, ◌+◌, ◌-◌, ◌%◌, ◌^◌, Bool, true, false, ltb, leb, ◌==◌, not, ◌||◌, if◌then◌else◌,
  List, [], ◌∷◌, length,
}
use cofuos.Prelude.Tickets.{contains, erase}

pub record Line : Type 0 where
  pub index : ℕ
  pub cluster : ℕ

pub record Chain : Type 0 where
  pub first_cluster : ℕ
  pub linear : Bool
  pub cache_line : List Line
  pub lru_queue : List ℕ

-- No cluster follows: the entry could not be read, or marks the end of the chain.
abbrev pub is_end : ℕ → Bool
is_end next = (next == 0) || leb 0xFFFFFFF8 next

-- The loop along the FAT, over `n` clusters; 0 when the chain ends before.
pub walk : (ℕ → ℕ) → ℕ → ℕ → ℕ
walk fat zero cluster = cluster
walk fat (suc n) cluster =
    let rest = walk fat n (fat cluster) in if is_end (fat cluster) then 0 else rest

-- The cluster of the line that an element of `lru_queue` points to.
pub cluster_at : List Line → ℕ → ℕ
cluster_at [] index = 0
cluster_at (l ∷ ls) index = if l.index == index then l.cluster else cluster_at ls index

-- The first line before `index`, the cache being in descending order, or the beginning of the chain.
pub nearest : Line → List Line → ℕ → Line
nearest start [] index = start
nearest start (l ∷ ls) index = if ltb l.index index then l else nearest start ls index

-- The line goes before the first one with a smaller index.
pub insert_line : Line → List Line → List Line
insert_line new [] = new ∷ []
insert_line new (l ∷ ls) = if ltb l.index new.index then new ∷ l ∷ ls else l ∷ insert_line new ls

pub erase_line : ℕ → List Line → List Line
erase_line index [] = []
erase_line index (l ∷ ls) = if l.index == index then ls else l ∷ erase_line index ls

pub back : List ℕ → ℕ
back [] = 0
back (i ∷ []) = i
back (i ∷ j ∷ is) = back (j ∷ is)

pub pop_back : List ℕ → List ℕ
pop_back [] = []
pop_back (i ∷ []) = []
pop_back (i ∷ j ∷ is) = i ∷ pop_back (j ∷ is)

-- The loop that removes excess lines, `n` times at most.
pub evict : ℕ → ℕ → List Line → List ℕ → List Line × List ℕ
evict zero limit ls is = (ls, is)
evict (suc n) limit ls is =
    let rest = evict n limit (erase_line (back is) ls) (pop_back is) in
    if ltb limit (length is) then rest else (ls, is)

-- The chain after a line was added to its cache.
abbrev pub cached : ℕ → Line → Chain → Chain
cached limit new c =
    let lines = insert_line new c.cache_line in
    let indices = new.index ∷ c.lru_queue in
    let kept = evict (length indices) limit lines indices in
    record c { cache_line = kept.0; lru_queue = kept.1 }

-- The part of `get` behind the search in the cache.
abbrev pub read_chain : ℕ → (ℕ → ℕ) → ℕ → Chain → ℕ × Chain
read_chain limit fat index c =
    let line = nearest (record { index = 0; cluster = c.first_cluster }) c.cache_line index in
    let cluster = walk fat (index - line.index) line.cluster in
    if cluster == 0
    then (0, c)
    else (cluster, cached limit (record { index = index; cluster = cluster }) c)

-- `get` of a chain that is neither empty nor linear.
abbrev pub get_listed : ℕ → (ℕ → ℕ) → ℕ → Chain → ℕ × Chain
get_listed limit fat index c =
    if index == 0
    then (c.first_cluster, c)
    else (if contains c.lru_queue index
        then (
          cluster_at c.cache_line index,
          record c { lru_queue = index ∷ erase index c.lru_queue },
        )
        else read_chain limit fat index c)

pub get : ℕ → (ℕ → ℕ) → ℕ → Chain → ℕ × Chain
get limit fat index c =
    if c.first_cluster == 0
    then (0, c)
    else (if c.linear
        then ((c.first_cluster + index) % 2 ^ 32, c)
        else get_listed limit fat index c)
