-- ===== src/User/Numbers/Tests.antt =====
-- Witnesses and tests.
use cofuos.Prelude.{◌≡◌, refl, [], ◌∷◌, arith}
use cofuos.User.Numbers.{
  hex, print_unsigned, print_digits, strtoull, skip_space, isspace, read_digits, hex2bin,
}
use cofuos.User.Numbers.Roundtrip.{strtoull-print_unsigned}

-- 48879 is printed as beef.
print_beef : print_unsigned hex 48879 ≡ 98 ∷ 101 ∷ 101 ∷ 102 ∷ []
unfolding print_unsigned print_digits
print_beef = refl

-- " 0x1Fz" in base 0.
read_prefixed : strtoull (32 ∷ 48 ∷ 120 ∷ 49 ∷ 70 ∷ 122 ∷ []) 0 ≡ (31, 122 ∷ [])
unfolding strtoull skip_space isspace read_digits hex2bin
read_prefixed = refl

strtoull-print_unsigned_example : strtoull (print_unsigned hex 48879) 16 ≡ (48879, [])
strtoull-print_unsigned_example = strtoull-print_unsigned hex 48879 (omega arith)
