-- ===== src/Exfat/Chain/Lookup.antt =====
-- `get` with its cache agrees with a walk along the FAT from the first cluster.
use cofuos.Prelude.{
  ℕ, zero, suc, ◌+◌, ◌-◌, ◌%◌, ◌^◌, ◌≤◌, ◌<◌, ◌≡◌, refl, sym, ap, ◌∙◌, true, false, ltb, ◌==◌, not,
  ◌||◌, ◌&&◌, if◌then◌else◌, List, [], ◌∷◌, length, All, arith, Bool-cases, inl, inr,
}
use mathlib.Core.Path.{subst}
use cofuos.Prelude.Tickets.{
  contains, erase, contains-erase_self, contains-erase_ne, contains-erase-false,
}
use cofuos.Exfat.Chain.{
  Line, Chain, walk, nearest, insert_line, erase_line, back, pop_back, evict, read_chain,
  get_listed, get,
}
use cofuos.Exfat.Chain.Walk.{walk_on}
use cofuos.Exfat.Chain.Cache.{
  has, IsLine, IsDescending, Distinct, cluster_at_lem, nearest_lem, All-insert_line,
  has-insert_line, IsDescending-insert_line, has-erase_line, All-erase_line,
  IsDescending-erase_line, contains-pop_back, Distinct-pop_back, length-pop_back,
}

-- The cache holds true lines, in descending order, and `lru_queue` points to each of them once.
pub record IsCache (fat : ℕ → ℕ) (first : ℕ) (ls : List Line) (is : List ℕ) : Type 0 where
  pub lines : All (IsLine fat first) ls
  pub descending : IsDescending ls
  pub distinct : Distinct is
  pub same : (i : ℕ) → contains is i ≡ has ls i

abbrev pub IsValid : (ℕ → ℕ) → Chain → Type 0
IsValid fat c = IsCache fat c.first_cluster c.cache_line c.lru_queue

-- What `get` is to return of a chain that is not linear: 0 past its end.
pub cluster_of : (ℕ → ℕ) → ℕ → Chain → ℕ
cluster_of fat index c = if c.first_cluster == 0 then 0 else walk fat index c.first_cluster

module _ (fat : ℕ → ℕ) (first : ℕ) where
  evict_lem :
      (n limit : ℕ) (ls : List Line) (is : List ℕ)
      → IsCache fat first ls is
      → length is ≤ n + limit
      → IsCache fat first (evict n limit ls is).0 (evict n limit ls is).1
        × (length (evict n limit ls is).1 ≤ limit)
  unfolding evict
  evict_lem zero limit ls is v l = (v, omega arith)
  evict_lem (suc n) limit ls [] v l = rw (zero_small limit) (v, omega arith)
    where
      zero_small : (k : ℕ) → ltb k 0 ≡ false
      zero_small k = ground arith
  evict_lem (suc n) limit ls (i ∷ is) v l = elim (Bool-cases (ltb limit (length (i ∷ is)))) [
    | inr e ↦ rw e (v, ground arith)
    | inl e ↦ rw e (
        evict_lem n limit (erase_line (back (i ∷ is)) ls) (pop_back (i ∷ is))
          (record {
            lines = All-erase_line (IsLine fat first) (back (i ∷ is)) ls v.lines;
            descending = IsDescending-erase_line (back (i ∷ is)) ls v.descending;
            distinct = Distinct-pop_back (i ∷ is) v.distinct;
            same = λ j.
                contains-pop_back (i ∷ is) j v.distinct
                ∙ ap (λ b. not (back (i ∷ is) == j) && b) (v.same j)
                ∙ sym (has-erase_line (back (i ∷ is)) j ls v.descending);
          })
          (omega (arith, length-pop_back i is)))
  ]

  insert-IsCache :
      (new : Line) (ls : List Line) (is : List ℕ)
      → IsCache fat first ls is
      → IsLine fat first new
      → contains is new.index ≡ false
      → IsCache fat first (insert_line new ls) (new.index ∷ is)
  insert-IsCache new ls is v l n = record {
    lines = All-insert_line (IsLine fat first) new ls l v.lines;
    descending = IsDescending-insert_line new ls v.descending (sym (v.same new.index) ∙ n);
    distinct = (n, v.distinct);
    same = λ i. ap (λ b. (new.index == i) || b) (v.same i) ∙ sym (has-insert_line new ls i);
  }

  Distinct-erase : (i : ℕ) (is : List ℕ) → Distinct is → Distinct (erase i is)
  Distinct-erase i [] d = tt
  Distinct-erase i (j ∷ is) d = elim (Bool-cases (j == i)) [
    | inl e ↦ rw e (Distinct-erase i is d.1)
    | inr e ↦ rw e (contains-erase-false i j is d.0, Distinct-erase i is d.1)
  ]

  front-IsCache :
      (i : ℕ) (ls : List Line) (is : List ℕ)
      → IsCache fat first ls is
      → contains is i ≡ true
      → IsCache fat first ls (i ∷ erase i is)
  front-IsCache i ls is v m = record {
    lines = v.lines;
    descending = v.descending;
    distinct = (contains-erase_self i is, Distinct-erase i is v.distinct);
    same = λ j. elim (Bool-cases (i == j)) [
      | inl e ↦
          let k : i ≡ j = ground arith in
          let b : has ls j ≡ true = rw (sym k) (sym (v.same i) ∙ m) in ground arith
      | inr e ↦ ground (arith, contains-erase_ne i j is, v.same j)
    ];
  }

length-erase_le : (i : ℕ) (is : List ℕ) → length (erase i is) ≤ length is
length-erase_le i [] = omega arith
length-erase_le i (j ∷ is) = ground (arith, length-erase_le i is)

length-erase_lt : (i : ℕ) (is : List ℕ) → contains is i ≡ true → length (erase i is) < length is
length-erase_lt i [] h = absurd (ground arith)
length-erase_lt i (j ∷ is) h = ground (arith, length-erase_le i is, length-erase_lt i is)

walk_zero : (fat : ℕ → ℕ) (c : ℕ) → walk fat 0 c ≡ c
unfolding walk
walk_zero fat c = refl

-- What `get` returns of a chain that is not linear.
pub record IsGet (limit : ℕ) (fat : ℕ → ℕ) (index : ℕ) (c : Chain) (r : ℕ × Chain) : Type 0 where
  pub cluster : r.0 ≡ cluster_of fat index c
  pub valid : IsValid fat r.1
  pub bounded : length c.lru_queue ≤ limit → length r.1.lru_queue ≤ limit
  pub still : (r.1.first_cluster ≡ c.first_cluster) × (r.1.linear ≡ c.linear)

read_chain_lem :
    (limit : ℕ) (fat : ℕ → ℕ) (index : ℕ) (c : Chain)
    → IsValid fat c
    → (c.first_cluster == 0) ≡ false
    → (index == 0) ≡ false
    → contains c.lru_queue index ≡ false
    → IsGet limit fat index c (read_chain limit fat index c)
unfolding cluster_of
read_chain_lem limit fat index c v f i n =
    let start : Line = record { index = 0; cluster = c.first_cluster } in
    let (w, z, l) =
      nearest_lem fat c.first_cluster start c.cache_line index v.lines
        (walk_zero fat c.first_cluster) (ground arith) (ground arith) in
    let line = nearest start c.cache_line index in
    let e : line.index + (index - line.index) ≡ index = omega arith in
    let on = walk_on fat line.index (index - line.index) c.first_cluster (λ b. z (sym w ∙ b)) in
    let there : walk fat (index - line.index) line.cluster ≡ walk fat index c.first_cluster =
      sym (rw (e, w) at on) in
    rw there (elim (Bool-cases (walk fat index c.first_cluster == 0)) [
      | inl y ↦ rw y (record {
        cluster = rw f (ground arith);
        valid = v;
        bounded = λ b. b;
        still = (refl, refl);
      })
      | inr y ↦
          let new : Line = record { index = index; cluster = walk fat index c.first_cluster } in
          let (k, b) =
            evict_lem fat c.first_cluster (length (index ∷ c.lru_queue)) limit
              (insert_line new c.cache_line) (index ∷ c.lru_queue)
              (insert-IsCache fat c.first_cluster new c.cache_line c.lru_queue v
                (ground arith, refl, ground arith) n)
              (omega arith) in
          rw y (record { cluster = rw f refl; valid = k; bounded = λ _. b; still = (refl, refl) })
    ])

get_listed_lem :
    (limit : ℕ) (fat : ℕ → ℕ) (index : ℕ) (c : Chain)
    → IsValid fat c
    → (c.first_cluster == 0) ≡ false
    → IsGet limit fat index c (get_listed limit fat index c)
unfolding cluster_of
get_listed_lem limit fat index c v f = elim (Bool-cases (index == 0)) [
  | inl i ↦
      let z : index ≡ 0 = ground arith in
      rw i (record {
        cluster = rw (f, z) (sym (walk_zero fat c.first_cluster));
        valid = v;
        bounded = λ b. b;
        still = (refl, refl);
      })
  | inr i ↦ rw i (elim (Bool-cases (contains c.lru_queue index)) [
    | inr n ↦ rw n (read_chain_lem limit fat index c v f i n)
    | inl n ↦ rw n (record {
      cluster =
          rw f (
            cluster_at_lem fat c.first_cluster c.cache_line index v.lines (sym (v.same index) ∙ n));
      valid = front-IsCache fat c.first_cluster index c.cache_line c.lru_queue v n;
      bounded = λ b. omega (arith, length-erase_lt index c.lru_queue n);
      still = (refl, refl);
    })
  ])
]

-- `get` of a chain that is not linear, with a valid cache, returns what a walk along the FAT from the
-- first cluster returns: the cluster at the index, or 0 past the end of the chain. The cache stays
-- valid, and within the limit.
pub chain-get_lem :
    (limit : ℕ) (fat : ℕ → ℕ) (index : ℕ) (c : Chain)
    → IsValid fat c
    → c.linear ≡ false
    → IsGet limit fat index c (get limit fat index c)
unfolding get cluster_of
chain-get_lem limit fat index c v l = elim (Bool-cases (c.first_cluster == 0)) [
  | inl f ↦ rw f (record { cluster = rw f refl; valid = v; bounded = λ b. b; still = (refl, refl) })
  | inr f ↦ rw f (
      subst
        (λ b.
          IsGet limit fat index c
            (if b then ((c.first_cluster + index) % 2 ^ 32, c) else get_listed limit fat index c))
        (sym l) (get_listed_lem limit fat index c v f))
]
