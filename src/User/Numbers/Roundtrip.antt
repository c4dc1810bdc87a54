-- ===== src/User/Numbers/Roundtrip.antt =====
-- What is printed is read back.
use cofuos.Prelude.{
  ℕ, zero, suc, ◌+◌, ◌/◌, ◌*◌, ◌%◌, ◌^◌, ◌≤◌, ◌<◌, ◌==◌, ◌≡◌, refl, ◌∙◌, Bool, true, false, leb,
  ◌&&◌, if◌then◌else◌, List, [], ◌∷◌, get_or, drop, arith, Bool-cases, inl, inr, ◌⊎◌,
}
use cofuos.User.Numbers.{
  isspace, hex2bin, skip_space, has_prefix, base_of, read_digits, strtoull, digit_char,
  print_digits, Format, octal, decimal, hex, big_hex, format_base, is_low, print_unsigned,
}

-- A bound on what `n` places hold in the smallest base, 8.
room : ℕ → ℕ
room zero = 1
room (suc n) = 8 * room n

hex2bin-digit_char : (low : Bool) (d : ℕ) → d < 16 → hex2bin (digit_char low d) ≡ d
unfolding hex2bin
hex2bin-digit_char low d l = ground arith

read_one :
    (base q d val : ℕ) (low : Bool) (out : List ℕ)
    → d < base
    → base ≤ 16
    → (q * base + d) % 2 ^ 64 ≡ val
    → read_digits base q (digit_char low d ∷ out) ≡ read_digits base val out
unfolding read_digits
read_one base q d val low out l b e =
    let small : leb base d ≡ false = ground arith in
    rw (hex2bin-digit_char low d (omega arith), small, e) refl

read_step :
    (f : Format) (val : ℕ) (out : List ℕ)
    → val < 2 ^ 64
    → read_digits
        (format_base f)
        (val / format_base f)
        (digit_char (is_low f) (val % format_base f) ∷ out)
      ≡ read_digits (format_base f) val out
read_step octal val out l =
    read_one 8 (val / 8) (val % 8) val false out (omega arith) (omega arith) (omega arith)
read_step decimal val out l =
    read_one 10 (val / 10) (val % 10) val false out (omega arith) (omega arith) (omega arith)
read_step hex val out l =
    read_one 16 (val / 16) (val % 16) val true out (omega arith) (omega arith) (omega arith)
read_step big_hex val out l =
    read_one 16 (val / 16) (val % 16) val false out (omega arith) (omega arith) (omega arith)

less_room : (f : Format) (val n : ℕ) → val < 8 * n → val / format_base f < n
less_room octal val n l = omega arith
less_room decimal val n l = omega arith
less_room hex val n l = omega arith
less_room big_hex val n l = omega arith

less_word : (f : Format) (val : ℕ) → val < 2 ^ 64 → val / format_base f < 2 ^ 64
less_word octal val l = omega arith
less_word decimal val l = omega arith
less_word hex val l = omega arith
less_word big_hex val l = omega arith

read_digits-print_digits :
    (n : ℕ) (f : Format) (val : ℕ) (out : List ℕ)
    → val < room n
    → val < 2 ^ 64
    → read_digits (format_base f) 0 (print_digits n (format_base f) (is_low f) val out)
      ≡ read_digits (format_base f) val out
unfolding print_digits room
read_digits-print_digits zero f val out r l = let z : val ≡ 0 = omega arith in rw z refl
read_digits-print_digits (suc n) f val out r l = elim (Bool-cases (val == 0)) [
  | inl e ↦ let z : val ≡ 0 = ground arith in rw z refl
  | inr e ↦ rw e (
      read_digits-print_digits n f (val / format_base f)
        (digit_char (is_low f) (val % format_base f) ∷ out) (less_room f val (room n) r)
        (less_word f val l)
      ∙ read_step f val out l)
]

-- The first character is a digit other than 0.
abbrev IsNumeral : List ℕ → Type 0
IsNumeral str = (49 ≤ get_or str 0 0) × (get_or str 0 0 ≤ 102)

first_digit :
    (f : Format) (val : ℕ) (out : List ℕ)
    → 0 < val
    → (0 < val / format_base f) ⊎ IsNumeral (digit_char (is_low f) (val % format_base f) ∷ out)
first_digit octal val out l = ground arith
first_digit decimal val out l = ground arith
first_digit hex val out l = ground arith
first_digit big_hex val out l = ground arith

print_digits-IsNumeral :
    (n : ℕ) (f : Format) (val : ℕ) (out : List ℕ)
    → val < room n
    → (0 < val) ⊎ IsNumeral out
    → IsNumeral (print_digits n (format_base f) (is_low f) val out)
unfolding print_digits room
print_digits-IsNumeral zero f val out r s = elim s [ inl p ↦ absurd (omega arith) | inr q ↦ q ]
print_digits-IsNumeral (suc n) f val out r s = elim (Bool-cases (val == 0)) [
  | inl e ↦ rw e (elim s [ inl p ↦ absurd (ground arith) | inr q ↦ q ])
  | inr e ↦ rw e (
      print_digits-IsNumeral n f (val / format_base f)
        (digit_char (is_low f) (val % format_base f) ∷ out) (less_room f val (room n) r)
        (first_digit f val out (ground arith)))
]

IsNumeral-skip_space : (str : List ℕ) → IsNumeral str → skip_space str ≡ str
unfolding skip_space isspace
IsNumeral-skip_space [] n = refl
IsNumeral-skip_space (c ∷ cs) n = ground arith

IsNumeral-strtoull :
    (f : Format) (str : List ℕ)
    → IsNumeral str
    → strtoull str (format_base f) ≡ read_digits (format_base f) 0 str
unfolding strtoull
IsNumeral-strtoull f str n = rw (IsNumeral-skip_space str n) (plain f)
  where
    no_prefix : has_prefix str ≡ false
    no_prefix = ground (arith, n)

    plain :
        (f : Format)
        → read_digits
            (base_of (format_base f) str)
            0
            (if (base_of (format_base f) str == 0x10) && has_prefix str then drop 2 str else str)
          ≡ read_digits (format_base f) 0 str
    plain octal = refl
    plain decimal = refl
    plain hex = rw no_prefix refl
    plain big_hex = rw no_prefix refl

zero_read : (f : Format) → strtoull (48 ∷ []) (format_base f) ≡ (0, [])
unfolding strtoull skip_space isspace read_digits hex2bin
zero_read octal = refl
zero_read decimal = refl
zero_read hex = refl
zero_read big_hex = refl

read_end : (base val : ℕ) → read_digits base val [] ≡ (val, [])
unfolding read_digits
read_end base val = refl

-- Every 64-bit number, printed by one of the formats `o`, `u`, `x` and `X`, is read back by `strtoull` with
-- the base of the format, to the end of the text.
pub strtoull-print_unsigned :
    (f : Format) (val : ℕ)
    → val < 2 ^ 64
    → strtoull (print_unsigned f val) (format_base f) ≡ (val, [])
unfolding print_unsigned room
strtoull-print_unsigned f val l = elim (Bool-cases (val == 0)) [
  | inl e ↦ let z : val ≡ 0 = ground arith in rw (e, z) (zero_read f)
  | inr e ↦
      let r : val < room 0x20 = omega arith in
      rw
        (
          e,
          IsNumeral-strtoull f (print_digits 0x20 (format_base f) (is_low f) val [])
              (print_digits-IsNumeral 0x20 f val [] r (inl (ground arith))),
        )
        (read_digits-print_digits 0x20 f val [] r l ∙ read_end (format_base f) val)
]
