-- ===== src/File/Path/Names.antt =====
-- The last name of a path, and the names of parents before it.
use cofuos.Prelude.{
  ℕ, ◌≤◌, ◌≡◌, refl, sym, ◌⊎◌, inl, inr, Bool, true, false, ◌==◌, ◌&&◌, ◌||◌, List, [], ◌∷◌, length,
  arith, Bool-cases,
}
use cofuos.File.Path.{name_of, tail_of, rest_of, is_dot, is_dot_dot}

-- The path ends in a name that is one dot; `first` says that a name begins here.
unfoldable pub ends_in_dot : Bool → List ℕ → Bool
ends_in_dot first [] = false
ends_in_dot first (c ∷ []) = first && (c == 46)
ends_in_dot first (c ∷ d ∷ cs) = ends_in_dot (c == 47) (d ∷ cs)

inside_name : (cs : List ℕ) → tail_of cs ≡ [] → ends_in_dot false cs ≡ false
unfolding ends_in_dot tail_of
inside_name [] h = refl
inside_name (c ∷ []) h = refl
inside_name (c ∷ d ∷ cs) h = elim (Bool-cases (c == 47)) [
  | inl e ↦ absurd (ground arith)
  | inr e ↦ rw e (inside_name (d ∷ cs) (ground arith))
]

pub ends_in_dot-last :
    (c : ℕ) (cs : List ℕ)
    → (c == 47) ≡ false
    → tail_of (c ∷ cs) ≡ []
    → ends_in_dot true (c ∷ cs) ≡ is_dot (name_of (c ∷ cs))
unfolding ends_in_dot tail_of name_of
ends_in_dot-last c [] n h = rw n refl
ends_in_dot-last c (d ∷ cs) n h = elim (Bool-cases (d == 47)) [
  | inl e ↦ absurd (ground arith)
  | inr e ↦ let t : tail_of (d ∷ cs) ≡ [] = ground arith in rw (n, e) (inside_name (d ∷ cs) t)
]

and_false : (b : Bool) → (b && false) ≡ false
and_false true = refl
and_false false = refl

pub ends_in_dot-next :
    (first : Bool) (path rest : List ℕ)
    → tail_of path ≡ 47 ∷ rest
    → ends_in_dot first path ≡ ends_in_dot true rest
unfolding ends_in_dot tail_of
ends_in_dot-next first [] rest h = absurd (ground arith)
ends_in_dot-next first (c ∷ []) rest h = elim (Bool-cases (c == 47)) [
  | inl e ↦
      let r : [] ≡ rest = ground arith in
      let dot : (c == 46) ≡ false = ground arith in rw (dot, (sym r)) (and_false first)
  | inr e ↦ absurd (ground arith)
]
ends_in_dot-next first (c ∷ d ∷ cs) rest h = elim (Bool-cases (c == 47)) [
  | inl e ↦ let r : rest ≡ d ∷ cs = ground arith in rw (e, r) refl
  | inr e ↦ rw e (ends_in_dot-next false (d ∷ cs) rest (ground arith))
]

pub tail_of-slash :
    (path : List ℕ) → (tail_of path ≡ []) ⊎ (tail_of path ≡ 47 ∷ rest_of (tail_of path))
unfolding tail_of
tail_of-slash [] = inl refl
tail_of-slash (c ∷ cs) = elim (Bool-cases (c == 47)) [
  | inl e ↦ let w : c ≡ 47 = ground arith in rw e (inr (rw w refl))
  | inr e ↦ rw e (tail_of-slash cs)
]

pub length-rest_of : (c : ℕ) (cs : List ℕ) → length (rest_of (tail_of (c ∷ cs))) ≤ length cs
unfolding tail_of
length-rest_of c [] = ground arith
length-rest_of c (d ∷ cs) = elim (Bool-cases (c == 47)) [
  | inl e ↦ rw e (omega arith)
  | inr e ↦ rw e (omega (arith, length-rest_of d cs))
]

or_true : (b : Bool) → (b || true) ≡ true
or_true true = refl
or_true false = refl

-- Two dots and a slash.
abbrev starts_up : ℕ → List ℕ → Bool
starts_up c [] = false
starts_up c (d ∷ []) = false
starts_up c (d ∷ e ∷ cs) = (c == 46) && (d == 46) && (e == 47)

-- The path has a name of two dots before its last name; `first` says that a name begins here.
unfoldable pub goes_up : Bool → List ℕ → Bool
goes_up first [] = false
goes_up first (c ∷ cs) = (first && starts_up c cs) || goes_up (c == 47) cs

pub goes_up-next :
    (first : Bool) (path rest : List ℕ)
    → tail_of path ≡ 47 ∷ rest
    → goes_up true rest ≡ true
    → goes_up first path ≡ true
unfolding goes_up tail_of
goes_up-next first [] rest h g = absurd (ground arith)
goes_up-next first (c ∷ cs) rest h g = elim (Bool-cases (c == 47)) [
  | inl e ↦
      let r : cs ≡ rest = ground arith in
      let t : goes_up true cs ≡ true = rw r g in rw (e, t) (or_true _)
  | inr e ↦
      let t : goes_up false cs ≡ true = goes_up-next false cs rest (ground arith) g in
      rw (e, t) (or_true _)
]

pub goes_up-here :
    (path rest : List ℕ)
    → tail_of path ≡ 47 ∷ rest
    → is_dot_dot (name_of path) ≡ true
    → goes_up true path ≡ true
unfolding goes_up tail_of name_of
goes_up-here [] rest h g = absurd (ground arith)
goes_up-here (c ∷ []) rest h g = absurd (ground arith)
goes_up-here (c ∷ d ∷ []) rest h g = absurd (ground arith)
goes_up-here (c ∷ d ∷ e ∷ cs) rest h g = ground arith
