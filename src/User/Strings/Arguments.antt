-- ===== src/User/Strings/Arguments.antt =====
-- The two passes of `parse_commandline`.
use cofuos.Prelude.{
  ℕ, ◌+◌, ◌≤◌, ◌≡◌, refl, true, false, inl, inr, leb, ◌==◌, not, ◌&&◌, some, List, [], ◌∷◌, length,
  arith, Bool-cases,
}
use cofuos.User.Numbers.{isspace}
use cofuos.User.Strings.{count_words, Filled, fill_args, argc_of, parse_commandline}

-- The second pass has room for each word that the first has counted, and stores them all.
abbrev IsFilled : ℕ → ℕ → List ℕ → Filled → Type 0
IsFilled stored prev cs f =
    (f.stored ≡ stored + count_words prev cs)
    × (length f.args ≡ count_words prev cs)
    × (length f.text ≡ length cs)

fill_args-IsFilled :
    (argc stored prev i : ℕ) (cs : List ℕ)
    → stored + count_words prev cs ≤ argc
    → IsFilled stored prev cs (fill_args argc stored prev i cs)
unfolding fill_args count_words
fill_args-IsFilled argc stored prev i [] h = (omega arith, refl, refl)
fill_args-IsFilled argc stored prev i (c ∷ cs) h =
    elim (Bool-cases (not (isspace c) && isspace prev)) [
      | inl e ↦
          let h' : stored + (count_words c cs + 1) ≤ argc = ground arith in
          let r = fill_args-IsFilled argc (stored + 1) c (i + 1) cs (omega arith) in
          let g : leb argc stored ≡ false = ground arith in
          rw (e, g) (omega (arith, r.0), omega (arith, r.1), omega (arith, r.2))
      | inr e ↦
          let h' : stored + count_words c cs ≤ argc = ground arith in
          let r = fill_args-IsFilled argc stored c (i + 1) cs h' in
          elim (Bool-cases (isspace c && not (isspace prev))) [
            | inl g ↦ rw (e, g) (r.0, r.1, omega (arith, r.2))
            | inr g ↦ rw (e, g) (r.0, r.1, omega (arith, r.2))
          ]
    ]

-- `parse_commandline` of any line gives as many arguments as its first pass counts, and a text of the same length:
-- the second pass neither stops early nor stores a place beyond the ones that it has.
pub parse_commandline_lem :
    (cmd : List ℕ)
    → (r : List ℕ × List ℕ) × (parse_commandline cmd ≡ some r)
      × (length r.0 ≡ argc_of cmd)
      × (length r.1 ≡ length cmd)
parse_commandline_lem cmd =
    let f = fill_args (argc_of cmd) 1 0 0 cmd in
    let h = fill_args-IsFilled (argc_of cmd) 1 0 0 cmd (omega arith) in
    let e : (f.stored == argc_of cmd) ≡ true = let s = h.0 in ground arith in
    ((0 ∷ f.args, f.text), rw e refl, omega (arith, h.1), h.2)
