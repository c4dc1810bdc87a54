-- ===== src/User/Strings/Order.antt =====
-- `strcmp` and the order of strings.
use cofuos.Prelude.{
  ℕ, ◌<◌, ◌≡◌, refl, sym, ◌∙◌, ◌↔◌, inl, inr, Bool, true, false, ltb, leb, ◌==◌, ◌&&◌, ◌||◌, List,
  [], ◌∷◌, All, arith, Bool-cases,
}
use cofuos.User.Strings.{ℤ, pos, negsuc, strcmp}

-- The order of a dictionary, with a string before its continuations.
unfoldable pub is_before : List ℕ → List ℕ → Bool
is_before [] [] = false
is_before [] (b ∷ bs) = true
is_before (a ∷ cs) [] = false
is_before (a ∷ cs) (b ∷ bs) = ltb a b || ((a == b) && is_before cs bs)

abbrev pub is_negative : ℤ → Bool
is_negative (pos n) = false
is_negative (negsuc n) = true

abbrev pub is_zero : ℤ → Bool
is_zero (pos n) = n == 0
is_zero (negsuc n) = false

unfoldable pub is_same : List ℕ → List ℕ → Bool
is_same [] [] = true
is_same [] (b ∷ bs) = false
is_same (a ∷ cs) [] = false
is_same (a ∷ cs) (b ∷ bs) = (a == b) && is_same cs bs

is_same-≡ : (a b : List ℕ) → is_same a b ≡ true → a ≡ b
unfolding is_same
is_same-≡ [] [] h = refl
is_same-≡ [] (b ∷ bs) h = absurd (ground arith)
is_same-≡ (a ∷ cs) [] h = absurd (ground arith)
is_same-≡ (a ∷ cs) (b ∷ bs) h =
    let e : a ≡ b = ground arith in let r = is_same-≡ cs bs (ground arith) in rw (e, r) refl

is_same_self : (a : List ℕ) → is_same a a ≡ true
unfolding is_same
is_same_self [] = refl
is_same_self (a ∷ cs) = let e : (a == a) ≡ true = ground arith in rw (e, is_same_self cs) refl

abbrev pub IsText : List ℕ → Type 0
IsText str = All (λ c. 0 < c) str

strcmp_sign :
    (a b : List ℕ)
    → IsText a
    → IsText b
    → (is_negative (strcmp a b) ≡ is_before a b) × (is_zero (strcmp a b) ≡ is_same a b)
unfolding strcmp is_before is_same
strcmp_sign [] [] ha hb = (refl, refl)
strcmp_sign [] (b ∷ bs) ha (hb, hbs) = let e : leb b 0 ≡ false = ground arith in rw e (refl, refl)
strcmp_sign (a ∷ cs) [] (ha, hcs) hb =
    let e : leb 0 a ≡ true = ground arith in rw e (refl, ground arith)
strcmp_sign (a ∷ cs) (b ∷ bs) (ha, hcs) (hb, hbs) = elim (Bool-cases (a == b)) [
  | inl e ↦
      let r = strcmp_sign cs bs hcs hbs in let n : ltb a b ≡ false = ground arith in rw (e, n) r
  | inr e ↦ elim (Bool-cases (leb b a)) [
    | inl l ↦ let n : ltb a b ≡ false = ground arith in rw (e, l, n) (refl, ground arith)
    | inr l ↦ let n : ltb a b ≡ true = ground arith in rw (e, l, n) (refl, refl)
  ]
]

-- `strcmp` of two strings, whose characters are not 0, is negative exactly when the first is before the second
-- in the order of a dictionary, and 0 exactly when they are the same.
pub strcmp_lem :
    (a b : List ℕ)
    → IsText a
    → IsText b
    → (is_negative (strcmp a b) ≡ is_before a b) × ((is_zero (strcmp a b) ≡ true) ↔ (a ≡ b))
strcmp_lem a b ha hb =
    let s = strcmp_sign a b ha hb in
    (s.0, ((λ z. is_same-≡ a b (sym (s.1) ∙ z)), λ e. s.1 ∙ rw e (is_same_self b)))
