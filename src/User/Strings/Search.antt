-- ===== src/User/Strings/Search.antt =====
-- `strstr`: what it finds, and what it misses.
use mathlib.Core.List.{append_assoc, append-nil}
use cofuos.Prelude.{
  ℕ, ◌==◌, ◌≡◌, refl, sym, ap, ◌∙◌, ◌≢◌, inl, inr, true, false, none, some, List, [], ◌∷◌, ◌++◌,
  arith, Bool-cases,
}
use cofuos.User.Strings.{strstr_loop, strstr}

-- `found` is an occurrence of `substr` in `str`, with what follows it.
abbrev pub IsOccurrence : List ℕ → List ℕ → List ℕ → Type 0
IsOccurrence str substr found =
    ((before : List ℕ) × (str ≡ before ++ found)) × ((rest : List ℕ) × (found ≡ substr ++ rest))

strstr_loop-IsOccurrence :
    (substr place str cmp m found : List ℕ)
    → place ≡ m ++ str
    → substr ≡ m ++ cmp
    → strstr_loop substr place str cmp ≡ some found
    → IsOccurrence place substr found
unfolding strstr_loop
strstr_loop-IsOccurrence substr place str [] m found p q e =
    let f : place ≡ found = ground arith in
    let s : substr ≡ m = q ∙ append-nil m in
    (([], f), (str, sym f ∙ p ∙ ap (λ l. l ++ str) (sym s)))
strstr_loop-IsOccurrence substr place [] (c ∷ cs) m found p q e = absurd (ground arith)
strstr_loop-IsOccurrence substr place (s ∷ ss) (c ∷ cs) m found p q e = elim (Bool-cases (c == s)) [
  | inl t ↦
      let w : c ≡ s = ground arith in
      let e' : strstr_loop substr place ss cs ≡ some found = ground arith in
      strstr_loop-IsOccurrence substr place ss cs (m ++ (s ∷ [])) found
        (p ∙ sym (append_assoc m (s ∷ []) ss))
        (q ∙ ap (λ t. m ++ (t ∷ cs)) w ∙ sym (append_assoc m (s ∷ []) cs)) e'
  | inr t ↦
      let e' : strstr_loop substr ss ss substr ≡ some found = ground arith in
      let r = strstr_loop-IsOccurrence substr ss ss substr [] found refl refl e' in
      (
        (
          m ++ (s ∷ r.0.0),
          p ∙ ap (λ l. m ++ (s ∷ l)) (r.0.1) ∙ sym (append_assoc m (s ∷ r.0.0) found),
        ),
        r.1,
      )
]

-- What `strstr` returns is a place in the string where the other string stands.
pub strstr-IsOccurrence :
    (str substr found : List ℕ) → strstr str substr ≡ some found → IsOccurrence str substr found
strstr-IsOccurrence str substr found e =
    strstr_loop-IsOccurrence substr str str substr [] found refl refl e

-- For two characters that are not the same, `strstr` does not find the second of them after the first in a
-- string that has the first one twice and then the second, although it stands there.
pub strstr-misses :
    (c d : ℕ)
    → c ≢ d
    → (strstr (c ∷ c ∷ d ∷ []) (c ∷ d ∷ []) ≡ none)
      × IsOccurrence (c ∷ c ∷ d ∷ []) (c ∷ d ∷ []) (c ∷ d ∷ [])
unfolding strstr_loop
strstr-misses c d n =
    let e : (c == c) ≡ true = ground arith in
    let f : (d == c) ≡ false = ground arith in
    let g : (c == d) ≡ false = ground arith in (rw (e, f, g) refl, ((c ∷ [], refl), ([], refl)))
