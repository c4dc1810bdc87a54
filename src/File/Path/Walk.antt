-- ===== src/File/Path/Walk.antt =====
-- `imp_open` and the references of the instances on the way.
use cofuos.Prelude.{
  ◌⊎◌, refl, ◌∷◌, ℕ, zero, suc, ◌≤◌, ◌<◌, ◌≡◌, ◌≢◌, inl, inr, Bool, true, false, ◌==◌,
  if◌then◌else◌, Option, none, some, List, [], length, arith, Bool-cases,
}
use cofuos.Prelude.Tickets.{count}
use cofuos.File.Instance.{Store, Mode, Entry, acquire, open_child}
use cofuos.File.Instance.Count.{
  IsStore, IsStore-same, hold, hold_result, acquire-IsStore, relax-IsStore, open_child-IsChild,
  IsChild,
}
use cofuos.File.Path.{
  name_of, tail_of, rest_of, is_dot, is_dot_dot, drop_ref, folder_only, open_parent, at_end,
  on_from, step, next_of, Opened, done, deadlock, closes_in, imp_open, open_from, open_file,
  open_wd,
}
use cofuos.File.Path.Names.{
  goes_up, goes_up-next, goes_up-here, ends_in_dot, ends_in_dot-last, ends_in_dot-next,
  tail_of-slash, length-rest_of,
}

count_le : (t : ℕ) (xs : List ℕ) → count t xs ≤ length xs
count_le t [] = omega arith
count_le t (x ∷ xs) = ground (arith, count_le t xs)

drop_ref-IsStore :
    (i : ℕ) (s : Store) (held : ℕ → ℕ)
    → IsStore s (hold i held)
    → 0 < held 0
    → IsStore (drop_ref i s) held
drop_ref-IsStore i s held h r = relax-IsStore (suc i) i s held (omega arith) h r

hold-swap :
    (i j : ℕ) (s : Store) (held : ℕ → ℕ)
    → IsStore s (hold i (hold j held))
    → IsStore s (hold j (hold i held))
hold-swap i j s held h = IsStore-same s _ _ (λ k. omega arith) h

-- The instance of a name that is not a single dot is below the folder, or the parent if `up` allows that, or there is
-- none.
abbrev IsNext : Bool → ℕ → (ℕ → ℕ) → Option ℕ × Store → Type 0
IsNext up cur held (none, s) = IsStore s (hold cur held)
IsNext up cur held (some i, s) =
    IsStore s (hold cur (hold i held)) × (i ≢ cur) × ((cur < i) ⊎ (up ≡ true))

held-live : (i : ℕ) (s : Store) (held : ℕ → ℕ) → IsStore s (hold i held) → 0 < s.ref_count i
held-live i s held h = ground (arith, h.counts i)

open_parent-IsNext :
    (cur : ℕ) (s : Store) (held : ℕ → ℕ)
    → IsStore s (hold cur held)
    → IsNext true cur held (open_parent cur s)
open_parent-IsNext zero s held h = h
open_parent-IsNext (suc k) s held h =
    let p = s.parent (suc k) in
    let l = held-live (suc k) s held h in
    let one = h.listed (suc k) l (omega arith) in
    let o = h.older (suc k) l (omega arith) in
    let c = count_le (suc k) (s.file_table p) in
    let live : 0 < s.ref_count p = omega (arith, h.counts p) in
    (
      hold-swap p (suc k) _ held (acquire-IsStore p s (hold (suc k) held) h live),
      λ e. omega arith,
      inr refl,
    )

IsChild-IsNext :
    (cur : ℕ) (mode : Mode) (held : ℕ → ℕ) (r : Option ℕ × Store)
    → IsChild cur mode (hold cur held) r
    → IsNext false cur held r
IsChild-IsNext cur mode held (none, s) h = h
IsChild-IsNext cur mode held (some i, s) h =
    let l = h.1 in (hold-swap i cur s held h.0, (λ e. omega arith), inl l)

other_name-IsNext :
    (on_disk : ℕ → List ℕ → Option Entry) (cur : ℕ) (name : List ℕ) (s : Store) (mode : Mode)
    (held : ℕ → ℕ)
    → IsStore s (hold cur held)
    → IsNext
        (is_dot_dot name)
        cur
        held
        (if is_dot_dot name then open_parent cur s else open_child on_disk cur name mode s)
other_name-IsNext on_disk cur name s mode held h = elim (Bool-cases (is_dot_dot name)) [
  | inl e ↦ rw e (open_parent-IsNext cur s held h)
  | inr e ↦ rw e (
      IsChild-IsNext cur mode held _
        (open_child-IsChild on_disk cur name mode s (hold cur held) h (held-live cur s held h)))
]

-- The references that the caller has in the end: the result is not counted if the path ends in a dot.
abbrev pub held_after : Bool → Option ℕ → (ℕ → ℕ) → ℕ → ℕ
held_after dot r held = if dot then held else hold_result r held

-- What the caller has in the end: its references stay counted, with that of the result, or the thread waits for
-- itself, which only a path that goes up can bring about.
abbrev pub IsOpened : Bool → Bool → (ℕ → ℕ) → Opened → Type 0
IsOpened dot up held (done r s) = IsStore s (held_after dot r held)
IsOpened dot up held deadlock = up ≡ true

IsOpened-mono :
    (dot up up' : Bool) (held : ℕ → ℕ) (r : Opened)
    → (up ≡ true → up' ≡ true)
    → IsOpened dot up held r
    → IsOpened dot up' held r
IsOpened-mono dot up up' held (done r s) u h = h
IsOpened-mono dot up up' held deadlock u h = u h

at_end-IsOpened :
    (up at_up : Bool) (cur : ℕ) (held : ℕ → ℕ) (r : Option ℕ × Store)
    → IsNext at_up cur held r
    → 0 < held 0
    → IsOpened false up held (at_end cur r)
at_end-IsOpened up at_up cur held (none, s) h r = drop_ref-IsStore cur s held h r
at_end-IsOpened up at_up cur held (some i, s) h r =
    drop_ref-IsStore cur s (hold i held) h.0 (omega arith)

-- What `imp_open` with fuel `n` does for every folder that the caller has a reference of.
abbrev IsWalk : (ℕ → List ℕ → Option Entry) → ℕ → Type 0
IsWalk on_disk n =
    (cur : ℕ) (path : List ℕ) (mode : Mode) (s : Store) (held : ℕ → ℕ)
    → length path < n
    → IsStore s (hold cur held)
    → 0 < held 0
    → IsOpened (ends_in_dot true path) (goes_up true path) held (imp_open on_disk n cur path mode s)

-- The parent is not below the folder.
closes_in-up :
    (i cur : ℕ) (up : Bool) (s : Store) (held : ℕ → ℕ)
    → IsStore s (hold cur held)
    → (cur < i) ⊎ (up ≡ true)
    → closes_in i cur s ≡ true
    → up ≡ true
closes_in-up i cur up s held h (inr u) c = u
closes_in-up i cur up s held h (inl l) c =
    let live = held-live cur s held h in
    let nz : 0 < cur = ground arith in
    let o = h.older cur live nz in let e : s.parent cur ≡ i = ground arith in absurd (omega arith)

on_from-IsOpened :
    (cur : ℕ) (held : ℕ → ℕ) (dot at_up up : Bool) (go : ℕ → Store → Opened) (r : Option ℕ × Store)
    → ((i : ℕ) (s : Store) → IsStore s (hold i held) → IsOpened dot up held (go i s))
    → IsNext at_up cur held r
    → (at_up ≡ true → up ≡ true)
    → 0 < held 0
    → IsOpened dot up held (on_from cur go r)
on_from-IsOpened cur held true at_up up go (none, s) g h u r = drop_ref-IsStore cur s held h r
on_from-IsOpened cur held false at_up up go (none, s) g h u r = drop_ref-IsStore cur s held h r
on_from-IsOpened cur held dot at_up up go (some i, s) g h u r =
    let e : (i == cur) ≡ false = let n = h.1 in ground arith in
    elim (Bool-cases (closes_in i cur s)) [
      | inl c ↦ rw (e, c) (u (closes_in-up i cur at_up s (hold i held) h.0 h.2 c))
      | inr c ↦
          rw (e, c) (g i (drop_ref cur s) (drop_ref-IsStore cur s (hold i held) h.0 (omega arith)))
    ]

-- A name that is a single dot.
dot_step-IsOpened :
    (cur : ℕ) (held : ℕ → ℕ) (dot up : Bool) (go : ℕ → Store → Opened) (s : Store)
    → ((i : ℕ) (t : Store) → IsStore t (hold i held) → IsOpened dot up held (go i t))
    → IsStore s (hold cur held)
    → IsOpened dot up held (on_from cur go (some cur, s))
dot_step-IsOpened cur held dot up go s g h =
    let e : (cur == cur) ≡ true = ground arith in rw e (g cur s h)

name_step :
    (on_disk : ℕ → List ℕ → Option Entry) (n : ℕ)
    → IsWalk on_disk n
    → (cur c : ℕ) (cs : List ℕ) (mode : Mode) (s : Store) (held : ℕ → ℕ) → length cs < n
    → IsStore s (hold cur held)
    → 0 < held 0
    → (c == 47) ≡ false
    → let tail = tail_of (c ∷ cs) in
      let go : ℕ → Store → Opened = λ i t. imp_open on_disk n i (rest_of tail) mode t in
      IsOpened
        (ends_in_dot true (c ∷ cs))
        (goes_up true (c ∷ cs))
        held
        (step cur go tail (next_of on_disk cur (name_of (c ∷ cs)) s) mode)
name_step on_disk n walk cur c cs mode s held l h r nc =
    let path = c ∷ cs in
    let rest = rest_of (tail_of path) in
    let name = name_of path in
    let dot = ends_in_dot true rest in
    let up = goes_up true path in
    let go : ℕ → Store → Opened = λ i t. imp_open on_disk n i rest mode t in
    let g : tail_of path ≡ 47 ∷ rest
        → (i : ℕ) (t : Store) → IsStore t (hold i held)
        → IsOpened dot up held (go i t) =
      λ e i t ht.
        IsOpened-mono dot (goes_up true rest) up held (go i t) (goes_up-next true path rest e)
          (walk i rest mode t held (omega (arith, length-rest_of c cs)) ht r) in
    elim (tail_of-slash path) [
      | inl e ↦ elim (Bool-cases (is_dot name)) [
        | inl d ↦ rw (e, ends_in_dot-last c cs nc e, d) (drop_ref-IsStore cur s held h r)
        | inr d ↦
            rw (e, ends_in_dot-last c cs nc e, d)
              (at_end-IsOpened up _ cur held _ (other_name-IsNext on_disk cur name s mode held h) r)
      ]
      | inr e ↦ elim (Bool-cases (is_dot name)) [
        | inl d ↦
            rw (ends_in_dot-next true path rest e, e, d)
              (dot_step-IsOpened cur held dot up go s (g e) h)
        | inr d ↦
            rw (ends_in_dot-next true path rest e, e, d)
              (on_from-IsOpened cur held dot (is_dot_dot name) up go _ (g e)
                (other_name-IsNext on_disk cur name s folder_only held h) (goes_up-here path rest e)
                r)
      ]
    ]

imp_open-IsWalk : (on_disk : ℕ → List ℕ → Option Entry) (n : ℕ) → IsWalk on_disk n
unfolding imp_open ends_in_dot
imp_open-IsWalk on_disk zero cur path mode s held l h r = absurd (omega arith)
imp_open-IsWalk on_disk (suc n) cur [] mode s held l h r = elim (Bool-cases (mode.allow_folder)) [
  | inl e ↦ rw e h
  | inr e ↦ rw e (drop_ref-IsStore cur s held h r)
]
imp_open-IsWalk on_disk (suc n) cur (c ∷ cs) mode s held l h r = elim (Bool-cases (c == 47)) [
  | inl e ↦ rw e (elim (Bool-cases (ends_in_dot true (c ∷ cs))) [
    | inl d ↦ rw d (drop_ref-IsStore cur s held h r)
    | inr d ↦ rw d (drop_ref-IsStore cur s held h r)
  ])
  | inr e ↦
      rw e
        (name_step on_disk n (imp_open-IsWalk on_disk n) cur c cs mode s held (omega arith) h r e)
]

pub imp_open_lem :
    (on_disk : ℕ → List ℕ → Option Entry) (cur : ℕ) (path : List ℕ) (mode : Mode) (s : Store)
    (held : ℕ → ℕ)
    → IsStore s (hold cur held)
    → 0 < held 0
    → IsOpened
        (ends_in_dot true path)
        (goes_up true path)
        held
        (imp_open on_disk (suc (length path)) cur path mode s)
imp_open_lem on_disk cur path mode s held h r =
    imp_open-IsWalk on_disk (suc (length path)) cur path mode s held (omega arith) h r

-- With the last reference of the folder, two dots and more names wait for the lock that the thread has.
pub imp_open-deadlock :
    (on_disk : ℕ → List ℕ → Option Entry) (k : ℕ) (path : List ℕ) (mode : Mode) (s : Store)
    → s.ref_count (suc k) ≡ 1
    → s.parent (suc k) < suc k
    → imp_open on_disk (suc (suc (suc (suc (length path))))) (suc k) (46 ∷ 46 ∷ 47 ∷ path) mode s
      ≡ deadlock
unfolding imp_open name_of tail_of
imp_open-deadlock on_disk k path mode s one below =
    let e : (s.parent (suc k) == suc k) ≡ false = ground arith in
    let f : (suc k == s.parent (suc k)) ≡ false = ground arith in ground (arith, e, f, one)

open_from-IsOpened :
    (on_disk : ℕ → List ℕ → Option Entry) (cwd : ℕ) (path : List ℕ) (mode : Mode) (s : Store)
    (held : ℕ → ℕ)
    → IsStore s held
    → 0 < s.ref_count cwd
    → IsOpened
        (ends_in_dot true path)
        (goes_up true path)
        held
        (open_from on_disk (some cwd) path mode s)
open_from-IsOpened on_disk cwd path mode s held h live =
    imp_open_lem on_disk cwd path mode (acquire cwd s) held (acquire-IsStore cwd s held h live)
      (h.root)

-- The part of a path after the slash that it begins with.
abbrev pub relative : List ℕ → List ℕ
relative [] = []
relative (c ∷ path) = if c == 47 then path else c ∷ path

root-live : (s : Store) (held : ℕ → ℕ) → IsStore s held → 0 < s.ref_count 0
root-live s held h = let r = h.root in let c = h.counts 0 in omega arith

-- `open` and `open_wd` of any path in a process whose working directory is in use: the references that other code
-- has stay counted, and the caller gets one of the result, if any, unless the path ends in a name that is one dot; a path in which
-- a name before the last is two dots may wait for ever.
pub open_file-IsOpened :
    (on_disk : ℕ → List ℕ → Option Entry) (cwd : ℕ) (path : List ℕ) (mode : Mode) (s : Store)
    (held : ℕ → ℕ)
    → IsStore s held
    → 0 < s.ref_count cwd
    → let r = open_file on_disk (some cwd) path mode s in
      let w = open_wd on_disk (some cwd) path s in
      let dot = ends_in_dot true (relative path) in
      let up = goes_up true (relative path) in IsOpened dot up held r × IsOpened dot up held w
unfolding open_file open_wd ends_in_dot
open_file-IsOpened on_disk cwd [] mode s held h live = (h, h)
open_file-IsOpened on_disk cwd (c ∷ path) mode s held h live = elim (Bool-cases (c == 47)) [
  | inl e ↦ rw e (
    open_from-IsOpened on_disk 0 path mode s held h (root-live s held h),
    open_from-IsOpened on_disk 0 path folder_only s held h (root-live s held h),
  )
  | inr e ↦ rw e (
    open_from-IsOpened on_disk cwd (c ∷ path) mode s held h live,
    open_from-IsOpened on_disk cwd (c ∷ path) folder_only s held h live,
  )
]
