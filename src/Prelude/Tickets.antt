-- ===== src/Prelude/Tickets.antt =====
-- Finite sets of numbers, as lists: the contents of a `hash_set` whose elements are integers.
use cofuos.Prelude.{
  ℕ, Bool, true, false, List, [], ◌∷◌, ◌≡◌, refl, ◌≢◌, ◌==◌, ◌||◌, if◌then◌else◌, arith, suc,
  length, ◌<◌,
}

abbrev pub contains : List ℕ → ℕ → Bool
contains [] t = false
contains (x ∷ xs) t = (x == t) || contains xs t

-- Every occurrence goes.
abbrev pub erase : ℕ → List ℕ → List ℕ
erase t [] = []
erase t (x ∷ xs) = if x == t then erase t xs else x ∷ erase t xs

pub contains-erase_self : (t : ℕ) (xs : List ℕ) → contains (erase t xs) t ≡ false
contains-erase_self t [] = refl
contains-erase_self t (x ∷ xs) = ground (arith, contains-erase_self t xs)

pub contains-erase_ne : (t u : ℕ) (xs : List ℕ) → u ≢ t → contains (erase t xs) u ≡ contains xs u
contains-erase_ne t u [] h = refl
contains-erase_ne t u (x ∷ xs) h = ground (arith, contains-erase_ne t u xs h)

pub contains-erase-false :
    (t u : ℕ) (xs : List ℕ) → contains xs u ≡ false → contains (erase t xs) u ≡ false
contains-erase-false t u [] h = refl
contains-erase-false t u (x ∷ xs) h = ground (arith, contains-erase-false t u xs)

pub contains-ne : (xs : List ℕ) (x y : ℕ) → contains xs x ≡ false → contains xs y ≡ true → x ≢ y
contains-ne xs x y n m e = let m' = rw (← e) at m in ground arith

abbrev pub count : ℕ → List ℕ → ℕ
count t [] = 0
count t (x ∷ xs) = if x == t then suc (count t xs) else count t xs

-- The first occurrence goes: one element is erased.
abbrev pub remove : ℕ → List ℕ → List ℕ
remove t [] = []
remove t (x ∷ xs) = if x == t then xs else x ∷ remove t xs

pub length-remove : (t : ℕ) (xs : List ℕ) → 0 < count t xs → length xs ≡ suc (length (remove t xs))
length-remove t [] h = absurd (ground arith)
length-remove t (x ∷ xs) h = ground (arith, length-remove t xs)

pub count-remove_self :
    (t : ℕ) (xs : List ℕ) → 0 < count t xs → count t xs ≡ suc (count t (remove t xs))
count-remove_self t [] h = absurd (ground arith)
count-remove_self t (x ∷ xs) h = ground (arith, count-remove_self t xs)

pub count-remove_ne : (t u : ℕ) (xs : List ℕ) → u ≢ t → count u (remove t xs) ≡ count u xs
count-remove_ne t u [] h = refl
count-remove_ne t u (x ∷ xs) h = ground (arith, count-remove_ne t u xs h)
