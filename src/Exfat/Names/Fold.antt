-- ===== src/Exfat/Names/Fold.antt =====
-- Names that differ in the case of letters only.
use Prim.Native.Nat.{bit_xor}
use cofuos.Prelude.{
  ℕ, zero, suc, ◌+◌, ◌-◌, ◌≤◌, ◌<◌, ◌≡◌, refl, sym, inl, inr, ◌↔◌, Bool, true, ltb, ◌==◌, ◌&&◌,
  List, [], ◌∷◌, length, map, arith, Bool-cases,
}
use cofuos.Prelude.Xor.{bit_xor-pow, IsRaised}
use cofuos.Exfat.Names.{
  to_upper, char_equal, match_all, name_equal, name_hash, hash_loop, hash_byte,
}

raised-to_upper : (a b : ℕ) → IsRaised 5 a b → 65 ≤ a → a ≤ 90 → to_upper a ≡ to_upper b
raised-to_upper a b (e, z) l h = ground arith

char_equal-to_upper : (x y : ℕ) → char_equal x y ≡ true → to_upper x ≡ to_upper y
char_equal-to_upper x y h = elim (Bool-cases (x == y)) [
  | inl e ↦ let s : x ≡ y = ground arith in rw s refl
  | inr e ↦ elim (bit_xor-pow 5 x y (ground arith)) [
    | inl r ↦ raised-to_upper x y r (ground arith) (ground arith)
    | inr r ↦ sym (raised-to_upper y x r (ground arith) (ground arith))
  ]
]

-- A letter and its capital, `n` letters from A on.
are_letters : ℕ → Bool
are_letters zero = true
are_letters (suc n) =
    ((bit_xor (65 + n) (97 + n) == 32) && (bit_xor (97 + n) (65 + n) == 32)) && are_letters n

are_letters_lem :
    (n i : ℕ)
    → are_letters n ≡ true
    → i < n
    → (bit_xor (65 + i) (97 + i) ≡ 32) × (bit_xor (97 + i) (65 + i) ≡ 32)
unfolding are_letters
are_letters_lem zero i h l = absurd (omega arith)
are_letters_lem (suc n) i h l = ground (arith, are_letters_lem n i)

all_letters : are_letters 26 ≡ true
unfolding are_letters
all_letters = refl

both_differ :
    (u v a b : ℕ)
    → u ≡ a
    → v ≡ b
    → (bit_xor u v ≡ 32) × (bit_xor v u ≡ 32)
    → (bit_xor a b ≡ 32) × (bit_xor b a ≡ 32)
both_differ u v a b s t h = (cc, cc)

letter-char_equal :
    (a b : ℕ) → 65 ≤ a → a ≤ 90 → b ≡ a + 32 → (char_equal a b ≡ true) × (char_equal b a ≡ true)
letter-char_equal a b l h e =
    let t = are_letters_lem 26 (a - 65) all_letters (omega arith) in
    let s : 65 + (a - 65) ≡ a = omega arith in
    let s' : 97 + (a - 65) ≡ b = omega arith in
    let t' = both_differ _ _ a b s s' t in (ground arith, ground arith)

to_upper-char_equal : (x y : ℕ) → to_upper x ≡ to_upper y → char_equal x y ≡ true
to_upper-char_equal x y h = elim (Bool-cases (x == y)) [
  | inl e ↦ rw e refl
  | inr e ↦ elim (Bool-cases (ltb x y)) [
    | inl l ↦ (letter-char_equal x y (ground arith) (ground arith) (ground arith)).0
    | inr l ↦ (letter-char_equal y x (ground arith) (ground arith) (ground arith)).1
  ]
]

match_all-to_upper :
    (a b : List ℕ) → length a ≡ length b → match_all a b ≡ true → map to_upper a ≡ map to_upper b
unfolding match_all
match_all-to_upper [] [] l h = refl
match_all-to_upper [] (b ∷ bs) l h = absurd (omega arith)
match_all-to_upper (a ∷ cs) [] l h = absurd (omega arith)
match_all-to_upper (a ∷ cs) (b ∷ bs) l h =
    let c : char_equal a b ≡ true = ground arith in
    let rest = match_all-to_upper cs bs (omega arith) (ground arith) in
    rw (char_equal-to_upper a b c, rest) refl

to_upper-match_all :
    (a b : List ℕ)
    → map to_upper a ≡ map to_upper b
    → (length a ≡ length b) × (match_all a b ≡ true)
unfolding match_all
to_upper-match_all [] [] h = (refl, refl)
to_upper-match_all [] (b ∷ bs) h = absurd (ground arith)
to_upper-match_all (a ∷ cs) [] h = absurd (ground arith)
to_upper-match_all (a ∷ cs) (b ∷ bs) h =
    let e : to_upper a ≡ to_upper b = cc in
    let f : map to_upper cs ≡ map to_upper bs = cc in
    let rest = to_upper-match_all cs bs f in
    let c = to_upper-char_equal a b e in rw (c, rest.1) (omega (arith, rest.0), refl)

hash_loop-to_upper :
    (sum : ℕ) (a b : List ℕ) → map to_upper a ≡ map to_upper b → hash_loop sum a ≡ hash_loop sum b
unfolding hash_loop
hash_loop-to_upper sum [] [] h = refl
hash_loop-to_upper sum [] (b ∷ bs) h = absurd (ground arith)
hash_loop-to_upper sum (a ∷ cs) [] h = absurd (ground arith)
hash_loop-to_upper sum (a ∷ cs) (b ∷ bs) h =
    let e : to_upper a ≡ to_upper b = cc in
    let f : map to_upper cs ≡ map to_upper bs = cc in
    rw e (hash_loop-to_upper (hash_byte sum b) cs bs f)

-- Two names of bytes are equal for `name_equal` exactly when they are the same after each small letter is replaced
-- by its capital, and names that are equal have the same hash.
pub name_equal_lem :
    (a b : List ℕ)
    → ((name_equal a b ≡ true) ↔ (map to_upper a ≡ map to_upper b))
      × (name_equal a b ≡ true → name_hash a ≡ name_hash b)
name_equal_lem a b =
    let forth : name_equal a b ≡ true → map to_upper a ≡ map to_upper b =
      λ h. match_all-to_upper a b (ground arith) (ground arith) in
    (
      (forth, λ e. let m = to_upper-match_all a b e in ground arith),
      λ h. hash_loop-to_upper 0 a b (forth h),
    )
