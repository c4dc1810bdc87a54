-- ===== src/File/Instance/Count.antt =====
-- The references of the instances: those of the folders' tables and those that other code holds.
use mathlib.Core.Path.{subst}
use cofuos.Prelude.{
  ◌&&◌, ℕ, zero, suc, ◌+◌, ◌-◌, ◌≤◌, ◌<◌, ◌≡◌, refl, ◌∙◌, sym, ◌≢◌, inl, inr, true, false, ltb,
  ◌==◌, if◌then◌else◌, Option, none, some, List, [], ◌∷◌, length, arith, Bool-cases,
}
use cofuos.Prelude.Tickets.{count, remove, length-remove, count-remove_self, count-remove_ne}
use cofuos.File.Instance.{
  is_sound, Store, Mode, Entry, acquire, release, detach, relax, find, create, open_child, open_or,
  open_disk, allows,
}
use cofuos.Exfat.Names.{name_equal}

-- `held` and one reference of `c` more.
abbrev pub hold : ℕ → (ℕ → ℕ) → ℕ → ℕ
hold c held i = held i + (if i == c then 1 else 0)

abbrev pub hold_result : Option ℕ → (ℕ → ℕ) → ℕ → ℕ
hold_result none held i = held i
hold_result (some c) held i = hold c held i

-- Other code holds `held i` references of the instance `i`. Each count is the number of those references and of
-- the entries of the instance's own table, an instance with a reference is once in the table of its parent, which
-- has a smaller number, and in no other, the tables have instances with a reference only, and the file system holds one of the root.
pub record IsStore (s : Store) (held : ℕ → ℕ) : Type 0 where
  pub counts : (i : ℕ) → s.ref_count i ≡ held i + length (s.file_table i)
  pub listed : (i : ℕ) → 0 < s.ref_count i → 0 < i → count i (s.file_table (s.parent i)) ≡ 1
  pub alive :
      (p i : ℕ) → 0 < count i (s.file_table p) → (0 < s.ref_count i) × (0 < i) × (s.parent i ≡ p)
  pub older : (i : ℕ) → 0 < s.ref_count i → 0 < i → s.parent i < i
  pub unused : (i : ℕ) → s.next ≤ i → s.ref_count i ≡ 0
  pub used : 0 < s.next
  pub root : 0 < held 0

pub IsStore-same : (s : Store) (f g : ℕ → ℕ) → ((i : ℕ) → f i ≡ g i) → IsStore s f → IsStore s g
IsStore-same s f g e h = record {
  counts = λ i. omega (arith, e i, h.counts i);
  listed = h.listed;
  alive = h.alive;
  older = h.older;
  unused = h.unused;
  used = h.used;
  root = omega (arith, e 0, h.root);
}

-- `acquire` of an instance in use gives one more reference.
pub acquire-IsStore :
    (i : ℕ) (s : Store) (held : ℕ → ℕ)
    → IsStore s held
    → 0 < s.ref_count i
    → IsStore (acquire i s) (hold i held)
acquire-IsStore i s held h live = record {
  counts = λ j. ground (arith, h.counts j);
  listed = λ j l p. h.listed j (ground arith) p;
  alive = λ p j c. let t = h.alive p j c in (ground arith, t.1, t.2);
  older = λ j l p. h.older j (ground arith) p;
  unused = λ j l. ground (arith, h.unused j l);
  used = h.used;
  root = ground (arith, h.root);
}

release-IsStore :
    (i : ℕ) (s : Store) (held : ℕ → ℕ)
    → IsStore s (hold i held)
    → 0 < held 0
    → 0 < s.ref_count i - 1
    → IsStore (release i s) held
release-IsStore i s held h r nz = record {
  counts = λ j. ground (arith, h.counts j);
  listed = λ j l p. h.listed j (ground arith) p;
  alive = λ p j c. let t = h.alive p j c in (ground arith, t.1, t.2);
  older = λ j l p. h.older j (ground arith) p;
  unused = λ j l. ground (arith, h.unused j l);
  used = h.used;
  root = r;
}

-- The last reference of `i` goes: the reference that it had of its parent is nobody's entry now.
detach-IsStore :
    (i : ℕ) (s : Store) (held : ℕ → ℕ)
    → IsStore s (hold i held)
    → 0 < held 0
    → s.ref_count i - 1 ≡ 0
    → IsStore (detach i (release i s)) (hold (s.parent i) held) × (s.parent i < i)
detach-IsStore zero s held h r z = let c = h.counts 0 in absurd (omega arith)
detach-IsStore (suc k) s held h r z =
    let i = suc k in
    let p = s.parent i in
    let c = h.counts i in
    let one : hold i held i ≡ held i + 1 = ground arith in
    let l = h.listed i (omega arith) (omega arith) in
    let o = h.older i (omega arith) (omega arith) in
    let erased = length-remove i (s.file_table p) (omega arith) in
    let none_left = count-remove_self i (s.file_table p) (omega arith) in
    (
      record {
        counts = λ j. elim (Bool-cases (j == p)) [
          | inl e ↦ let w : j ≡ p = ground arith in let cp = h.counts p in rw w (ground arith)
          | inr e ↦ elim (Bool-cases (j == i)) [
            | inl d ↦ let w : j ≡ i = ground arith in rw w (ground arith)
            | inr d ↦ let cj = h.counts j in ground arith
          ]
        ];
        listed = λ j q w.
            let ne : j ≢ i = ground arith in
            let lj = h.listed j (ground arith) w in
            elim (Bool-cases (s.parent j == p)) [
              | inl e ↦
                  let v : s.parent j ≡ p = ground arith in
                  let lp = subst (λ t. count j (s.file_table t) ≡ 1) v lj in
                  rw e (count-remove_ne i j (s.file_table p) ne ∙ lp)
              | inr e ↦ rw e lj
            ];
        alive = λ q j c. elim (Bool-cases (q == p)) [
          | inl e ↦
              let v : q ≡ p = ground arith in
              let c' : 0 < count j (remove i (s.file_table p)) = ground arith in
              let ne : j ≢ i = λ d.
                let c'' = subst (λ t. 0 < count t (remove i (s.file_table p))) d c' in
                omega arith in
              let t = h.alive p j (omega (arith, count-remove_ne i j (s.file_table p) ne)) in
              (let t0 = t.0 in ground arith, t.1, t.2 ∙ sym v)
          | inr e ↦
              let t = h.alive q j (ground arith) in
              let t2 = t.2 in
              let ne : j ≢ i = λ d. let v = subst (λ t. s.parent t ≡ q) d t2 in ground arith in
              (let t0 = t.0 in ground arith, t.1, t.2)
        ];
        older = λ j q w. h.older j (ground arith) w;
        unused = λ j q. ground (arith, h.unused j q);
        used = h.used;
        root = ground arith;
      },
      o,
    )

-- `relax` of an instance that other code holds a reference of takes that reference, and deletes the instance and
-- the folders above it that nobody refers to any more.
pub relax-IsStore :
    (n i : ℕ) (s : Store) (held : ℕ → ℕ)
    → i < n
    → IsStore s (hold i held)
    → 0 < held 0
    → IsStore (relax n i s) held
unfolding relax
relax-IsStore zero i s held l h r = absurd (omega arith)
relax-IsStore (suc n) i s held l h r = elim (Bool-cases ((release i s).ref_count i == 0)) [
  | inl e ↦
      let d = detach-IsStore i s held h r (ground arith) in
      let o = d.1 in
      rw e (relax-IsStore n (s.parent i) (detach i (release i s)) held (omega arith) d.0 r)
  | inr e ↦ rw e (release-IsStore i s held h r (ground arith))
]

next-above : (s : Store) (held : ℕ → ℕ) → IsStore s held → (j : ℕ) → 0 < s.ref_count j → j < s.next
next-above s held h j l = elim (Bool-cases (ltb j (s.next))) [
  | inl t ↦ ground arith
  | inr t ↦ let z = h.unused j (ground arith) in absurd (omega arith)
]

create-IsStore :
    (cur : ℕ) (e : Entry) (s : Store) (held : ℕ → ℕ)
    → IsStore s held
    → 0 < s.ref_count cur
    → IsStore (create cur e s) (hold (s.next) held)
create-IsStore cur e s held h live =
    let below = next-above s held h in
    let bc = below cur live in
    let fresh = h.counts (s.next) in
    let gone = h.unused (s.next) (omega arith) in
    let none_yet : count (s.next) (s.file_table cur) ≡ 0 =
      elim (Bool-cases (count (s.next) (s.file_table cur) == 0)) [
        | inl t ↦ ground arith
        | inr t ↦ let l = (h.alive cur (s.next) (ground arith)).0 in absurd (omega arith)
      ] in
    record {
      counts = λ j.
          let cj = h.counts j in
          elim (Bool-cases (j == s.next)) [
            | inl t ↦ let w : j ≡ s.next = ground arith in rw w (ground arith)
            | inr t ↦ elim (Bool-cases (j == cur)) [
              | inl d ↦ let w : j ≡ cur = ground arith in rw w (ground (arith, h.counts cur))
              | inr d ↦ ground arith
            ]
          ];
      listed = λ j q w. elim (Bool-cases (j == s.next)) [
        | inl t ↦ let v : j ≡ s.next = ground arith in rw v (ground arith)
        | inr t ↦
            let old : 0 < s.ref_count j = elim (Bool-cases (j == cur)) [
              | inl d ↦ let v : j ≡ cur = ground arith in rw v live
              | inr d ↦ ground arith
            ] in
            let lj = h.listed j old w in
            let bj = below j old in
            let oj = h.older j old w in
            let np : (s.parent j == s.next) ≡ false = ground arith in
            elim (Bool-cases (s.parent j == cur)) [
              | inl d ↦
                  let v : s.parent j ≡ cur = ground arith in
                  let lc = subst (λ t. count j (s.file_table t) ≡ 1) v lj in
                  rw (t, np, d) (ground arith)
              | inr d ↦ rw (t, np, d) lj
            ]
      ];
      alive = λ q j c. elim (Bool-cases (q == s.next)) [
        | inl t ↦ absurd (ground arith)
        | inr t ↦ elim (Bool-cases (q == cur)) [
          | inl d ↦
              let v : q ≡ cur = ground arith in
              elim (Bool-cases (j == s.next)) [
                | inl n ↦ (ground arith, ground arith, ground arith)
                | inr n ↦
                    let a = h.alive cur j (ground arith) in
                    (let a0 = a.0 in ground arith, a.1, let a2 = a.2 in ground arith)
              ]
          | inr d ↦
              let a = h.alive q j (ground arith) in
              let b = below j a.0 in
              (let a0 = a.0 in ground arith, a.1, let a2 = a.2 in ground arith)
        ]
      ];
      older = λ j q w. elim (Bool-cases (j == s.next)) [
        | inl t ↦ let v : j ≡ s.next = ground arith in rw v (ground arith)
        | inr t ↦ elim (Bool-cases (j == cur)) [
          | inl d ↦
              let v : j ≡ cur = ground arith in
              let oc = h.older j (subst (λ t. 0 < s.ref_count t) (sym v) live) w in ground arith
          | inr d ↦ let oj = h.older j (ground arith) w in ground arith
        ]
      ];
      unused = λ j q. let z = h.unused j (omega arith) in ground arith;
      used = omega arith;
      root = ground (arith, h.root);
    }

find-count :
    (s : Store) (is : List ℕ) (str : List ℕ) (i : ℕ) → find s is str ≡ some i → 0 < count i is
unfolding find
find-count s [] str i e = absurd (ground arith)
find-count s (x ∷ is) str i e = elim (Bool-cases (name_equal (s.name x) str)) [
  | inl t ↦ ground arith
  | inr t ↦ let r = find-count s is str i (ground arith) in ground arith
]

-- What `open` gives: a reference of an instance below the folder, of a kind that the mode allows, or nothing.
abbrev pub IsChild : ℕ → Mode → (ℕ → ℕ) → Option ℕ × Store → Type 0
IsChild cur mode held (none, s) = IsStore s held
IsChild cur mode held (some i, s) =
    IsStore s (hold i held) × (cur < i) × (allows mode (s.is_folder i) ≡ true)

open_disk-IsChild :
    (on_disk : ℕ → List ℕ → Option Entry) (cur : ℕ) (mode : Mode) (s : Store) (held : ℕ → ℕ)
    (o : Option Entry)
    → IsStore s held
    → 0 < s.ref_count cur
    → IsChild cur mode held (open_disk on_disk mode s cur o)
open_disk-IsChild on_disk cur mode s held none h live = h
open_disk-IsChild on_disk cur mode s held (some e) h live =
    elim (Bool-cases (allows mode e.folder && is_sound e)) [
      | inl t ↦
          let b = next-above s held h cur live in
          let n : (s.next == s.next) ≡ true = ground arith in
          rw t (create-IsStore cur e s held h live, b, rw n (ground arith))
      | inr t ↦ rw t h
    ]

open_or-IsChild :
    (on_disk : ℕ → List ℕ → Option Entry) (cur : ℕ) (str : List ℕ) (mode : Mode) (s : Store)
    (held : ℕ → ℕ) (o : Option ℕ)
    → IsStore s held
    → 0 < s.ref_count cur
    → ((i : ℕ) → o ≡ some i → (0 < s.ref_count i) × (cur < i))
    → IsChild cur mode held (open_or on_disk mode s cur str o)
open_or-IsChild on_disk cur str mode s held (some i) h live f =
    elim (Bool-cases (allows mode (s.is_folder i))) [
      | inl e ↦ let g = f i refl in rw e (acquire-IsStore i s held h g.0, g.1, e)
      | inr e ↦ rw e h
    ]
open_or-IsChild on_disk cur str mode s held none h live f =
    open_disk-IsChild on_disk cur mode s held (on_disk cur str) h live

-- `open` of a name in a folder that is in use gives a reference of an instance of a kind that the mode allows, a
-- child of the folder in use already or a new one, or nothing; every reference stays counted.
pub open_child-IsChild :
    (on_disk : ℕ → List ℕ → Option Entry) (cur : ℕ) (str : List ℕ) (mode : Mode) (s : Store)
    (held : ℕ → ℕ)
    → IsStore s held
    → 0 < s.ref_count cur
    → IsChild cur mode held (open_child on_disk cur str mode s)
unfolding open_child
open_child-IsChild on_disk cur str mode s held h live =
    open_or-IsChild on_disk cur str mode s held (find s (s.file_table cur) str) h live (λ i e.
      let a = h.alive cur i (find-count s (s.file_table cur) str i e) in
      let o = h.older i a.0 a.1 in (a.0, let p = a.2 in omega arith))
