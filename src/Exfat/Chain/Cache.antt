-- ===== src/Exfat/Chain/Cache.antt =====
-- The cache of a chain: its lines are true, stand in descending order, and are those of `lru_queue`.
use cofuos.Prelude.{
  ℕ, ◌+◌, ◌≤◌, ◌<◌, ◌≡◌, ◌≢◌, refl, sym, ◌∙◌, Bool, true, false, ltb, ◌==◌, not, ◌||◌, ◌&&◌, List,
  [], ◌∷◌, length, All, arith, Bool-cases, inl, inr,
}
use cofuos.Prelude.Tickets.{contains, contains-ne}
use cofuos.Exfat.Chain.{Line, walk, cluster_at, nearest, insert_line, erase_line, back, pop_back}

abbrev pub has : List Line → ℕ → Bool
has [] i = false
has (l ∷ ls) i = (l.index == i) || has ls i

-- The line tells the cluster that the FAT has at its index.
abbrev pub IsLine : (ℕ → ℕ) → ℕ → Line → Type 0
IsLine fat first l = (0 < l.index) × (walk fat l.index first ≡ l.cluster) × (l.cluster ≢ 0)

abbrev pub Below : ℕ → List Line → Type 0
Below n ls = All (λ (l : Line). l.index < n) ls

abbrev pub IsDescending : List Line → Type 0
IsDescending [] = Unit {0}
IsDescending (l ∷ ls) = Below l.index ls × IsDescending ls

abbrev pub Distinct : List ℕ → Type 0
Distinct [] = Unit {0}
Distinct (i ∷ is) = (contains is i ≡ false) × Distinct is

pub cluster_at_lem :
    (fat : ℕ → ℕ) (first : ℕ) (ls : List Line) (i : ℕ)
    → All (IsLine fat first) ls
    → has ls i ≡ true
    → cluster_at ls i ≡ walk fat i first
unfolding cluster_at
cluster_at_lem fat first [] i a h = absurd (ground arith)
cluster_at_lem fat first (l ∷ ls) i a h = elim (Bool-cases (l.index == i)) [
  | inl e ↦ let e' : l.index ≡ i = ground arith in rw e (sym (rw e' at (a.0.1)))
  | inr e ↦ rw e (cluster_at_lem fat first ls i a.1 (ground arith))
]

-- Where `read_chain` begins its walk.
pub nearest_lem :
    (fat : ℕ → ℕ) (first : ℕ) (start : Line) (ls : List Line) (i : ℕ)
    → All (IsLine fat first) ls
    → walk fat start.index first ≡ start.cluster
    → start.cluster ≢ 0
    → start.index < i
    → (walk fat (nearest start ls i).index first ≡ (nearest start ls i).cluster)
      × ((nearest start ls i).cluster ≢ 0)
      × ((nearest start ls i).index < i)
unfolding nearest
nearest_lem fat first start [] i a w z l = (w, z, l)
nearest_lem fat first start (x ∷ xs) i a w z l = elim (Bool-cases (ltb x.index i)) [
  | inl e ↦ rw e (a.0.1, a.0.2, ground arith)
  | inr e ↦ rw e (nearest_lem fat first start xs i a.1 w z l)
]

pub All-insert_line :
    (P : Line → Type 0) (new : Line) (ls : List Line)
    → P new
    → All P ls
    → All P (insert_line new ls)
unfolding insert_line
All-insert_line P new [] p a = (p, tt)
All-insert_line P new (l ∷ ls) p a = elim (Bool-cases (ltb l.index new.index)) [
  | inl e ↦ rw e (p, a)
  | inr e ↦ rw e (a.0, All-insert_line P new ls p a.1)
]

pub has-insert_line :
    (new : Line) (ls : List Line) (i : ℕ)
    → has (insert_line new ls) i ≡ (new.index == i) || has ls i
unfolding insert_line
has-insert_line new [] i = refl
has-insert_line new (l ∷ ls) i = ground (arith, has-insert_line new ls i)

Below-weaken : (m n : ℕ) (ls : List Line) → m ≤ n → Below m ls → Below n ls
Below-weaken m n [] l b = tt
Below-weaken m n (x ∷ xs) l b = (omega (arith, b.0), Below-weaken m n xs l b.1)

pub IsDescending-insert_line :
    (new : Line) (ls : List Line)
    → IsDescending ls
    → has ls new.index ≡ false
    → IsDescending (insert_line new ls)
unfolding insert_line
IsDescending-insert_line new [] d h = (tt, tt)
IsDescending-insert_line new (l ∷ ls) d h = elim (Bool-cases (ltb l.index new.index)) [
  | inl e ↦ rw e ((ground arith, Below-weaken l.index new.index ls (ground arith) d.0), d)
  | inr e ↦ rw e (
    All-insert_line (λ x. x.index < l.index) new ls (ground arith) d.0,
    IsDescending-insert_line new ls d.1 (ground arith),
  )
]

Below-has : (n : ℕ) (ls : List Line) → Below n ls → has ls n ≡ false
Below-has n [] b = refl
Below-has n (l ∷ ls) b = ground (arith, b.0, Below-has n ls b.1)

pub has-erase_line :
    (i j : ℕ) (ls : List Line)
    → IsDescending ls
    → has (erase_line i ls) j ≡ not (i == j) && has ls j
unfolding erase_line
has-erase_line i j [] d = ground arith
has-erase_line i j (l ∷ ls) d = elim (Bool-cases (l.index == i)) [
  | inl e ↦
      let e' : l.index ≡ i = ground arith in
      rw e (elim (Bool-cases (i == j)) [
        | inl k ↦
            let k' : i ≡ j = ground arith in
            let b : has ls j ≡ false = rw (sym (e' ∙ k')) (Below-has l.index ls d.0) in ground arith
        | inr k ↦ ground arith
      ])
  | inr e ↦ rw e (ground (arith, has-erase_line i j ls d.1))
]

pub All-erase_line :
    (P : Line → Type 0) (i : ℕ) (ls : List Line) → All P ls → All P (erase_line i ls)
unfolding erase_line
All-erase_line P i [] a = tt
All-erase_line P i (l ∷ ls) a = elim (Bool-cases (l.index == i)) [
  | inl e ↦ rw e a.1
  | inr e ↦ rw e (a.0, All-erase_line P i ls a.1)
]

pub IsDescending-erase_line :
    (i : ℕ) (ls : List Line) → IsDescending ls → IsDescending (erase_line i ls)
unfolding erase_line
IsDescending-erase_line i [] d = tt
IsDescending-erase_line i (l ∷ ls) d = elim (Bool-cases (l.index == i)) [
  | inl e ↦ rw e d.1
  | inr e ↦
      rw e (All-erase_line (λ x. x.index < l.index) i ls d.0, IsDescending-erase_line i ls d.1)
]

contains-back : (i : ℕ) (is : List ℕ) → contains (i ∷ is) (back (i ∷ is)) ≡ true
unfolding back
contains-back i [] = ground arith
contains-back i (j ∷ is) = ground (arith, contains-back j is)

pub contains-pop_back :
    (is : List ℕ) (j : ℕ)
    → Distinct is
    → contains (pop_back is) j ≡ not (back is == j) && contains is j
unfolding back pop_back
contains-pop_back [] j d = ground arith
contains-pop_back (i ∷ []) j d = ground arith
contains-pop_back (i ∷ k ∷ is) j d =
    let apart = contains-ne (k ∷ is) i (back (k ∷ is)) d.0 (contains-back k is) in
    ground (arith, contains-pop_back (k ∷ is) j d.1)

pub Distinct-pop_back : (is : List ℕ) → Distinct is → Distinct (pop_back is)
unfolding pop_back
Distinct-pop_back [] d = tt
Distinct-pop_back (i ∷ []) d = tt
Distinct-pop_back (i ∷ k ∷ is) d =
    (ground (arith, contains-pop_back (k ∷ is) i d.1, d.0), Distinct-pop_back (k ∷ is) d.1)

pub length-pop_back : (i : ℕ) (is : List ℕ) → length (pop_back (i ∷ is)) + 1 ≡ length (i ∷ is)
unfolding pop_back
length-pop_back i [] = refl
length-pop_back i (k ∷ is) = ground (arith, length-pop_back k is)
