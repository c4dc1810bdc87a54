-- ===== src/User/Numbers.antt =====
-- app/libuos/uoscrt.cpp: numbers in text, as `strtoull` reads them and `imp_printf` prints them. A string
-- is the list of its characters, without the 0 at its end; a character is its code.
pub mod Roundtrip
mod Tests
use cofuos.Prelude.{
  ℕ, zero, suc, ◌+◌, ◌-◌, ◌/◌, ◌*◌, ◌%◌, ◌^◌, ◌==◌, Bool, true, false, ltb, leb, not, ◌&&◌, ◌||◌,
  if◌then◌else◌, List, [], ◌∷◌, get_or, drop,
}

unfoldable pub isspace : ℕ → Bool
isspace ch = (leb 0x9 ch && leb ch 0xD) || (ch == 0x20)

-- `ch & ~0x20`.
abbrev pub upper : ℕ → ℕ
upper ch = if ch / 0x20 % 2 == 1 then ch - 0x20 else ch

pub hex2bin : ℕ → ℕ
hex2bin ch =
    if leb 48 ch && leb ch 57
    then ch - 48
    else (if leb 65 (upper ch) && leb (upper ch) 70 then upper ch - 65 + 0x0A else 0xFF)

pub skip_space : List ℕ → List ℕ
skip_space [] = []
skip_space (c ∷ cs) = let rest = skip_space cs in if isspace c then rest else c ∷ cs

-- A `0x` stands at the beginning.
abbrev pub has_prefix : List ℕ → Bool
has_prefix str = (get_or str 0 0 == 48) && (upper (get_or str 1 0) == 88)

-- The base that `strtoull` works with for the argument `base`.
abbrev pub base_of : ℕ → List ℕ → ℕ
base_of base str =
    if base == 0
    then (if get_or str 0 0 == 48 then (if has_prefix str then 0x10 else 8) else 10)
    else base

-- The loop of `strtoull`: the value, and what is left of the string.
pub read_digits : ℕ → ℕ → List ℕ → ℕ × List ℕ
read_digits base val [] = (val, [])
read_digits base val (c ∷ cs) =
    let rest = read_digits base ((val * base + hex2bin c) % 2 ^ 64) cs in
    if leb base (hex2bin c) then (val, c ∷ cs) else rest

pub strtoull : List ℕ → ℕ → ℕ × List ℕ
strtoull str base =
    let text = skip_space str in
    let b = base_of base text in
    read_digits b 0 (if (b == 0x10) && has_prefix text then drop 2 text else text)

-- `hexchar[d]`, in lower case for the format `x`.
abbrev pub digit_char : Bool → ℕ → ℕ
digit_char low d = if ltb d 10 then 48 + d else (if low then 87 + d else 55 + d)

-- The loops that print `val` before `out`; `buffer` has `room` places.
pub print_digits : ℕ → ℕ → Bool → ℕ → List ℕ → List ℕ
print_digits zero base low val out = out
print_digits (suc room) base low val out =
    let rest = print_digits room base low (val / base) (digit_char low (val % base) ∷ out) in
    if val == 0 then out else rest

-- The formats `o`, `u`, `x` and `X`.
pub data Format : Type 0 where
  octal decimal hex big_hex : Format

abbrev pub format_base : Format → ℕ
format_base octal = 8
format_base decimal = 10
format_base hex = 16
format_base big_hex = 16

abbrev pub is_low : Format → Bool
is_low octal = false
is_low decimal = false
is_low hex = true
is_low big_hex = false

pub print_unsigned : Format → ℕ → List ℕ
print_unsigned f val =
    if val == 0 then 48 ∷ [] else print_digits 0x20 (format_base f) (is_low f) val []
