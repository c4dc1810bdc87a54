-- ===== src/Exfat/Names.antt =====
-- kernel/filesystem/include/exfat.hpp: `name_hash` and `name_equal`. A name is the list of its bytes.
pub mod Fold
mod Table
mod Tests
use Prim.Native.Nat.{bit_xor}
use cofuos.Prelude.{
  ℕ, ◌+◌, ◌-◌, ◌/◌, ◌%◌, Bool, true, false, leb, ◌==◌, ◌&&◌, ◌||◌, if◌then◌else◌, List, [], ◌∷◌,
  length,
}

-- `x & ~0x20` for a byte.
abbrev pub clear_case : ℕ → ℕ
clear_case x = if x / 32 % 2 == 1 then x - 32 else x

abbrev pub to_upper : ℕ → ℕ
to_upper ch = if leb 97 ch && leb ch 122 then clear_case ch else ch

-- `((sum & 1) ? 0x8000 : 0) | (sum >> 1)` for a word.
abbrev pub rotate : ℕ → ℕ
rotate sum = (if sum % 2 == 1 then 32768 else 0) + sum / 2

abbrev pub hash_byte : ℕ → ℕ → ℕ
hash_byte sum ch = rotate ((rotate sum + to_upper ch) % 65536)

pub hash_loop : ℕ → List ℕ → ℕ
hash_loop sum [] = sum
hash_loop sum (ch ∷ str) = hash_loop (hash_byte sum ch) str

abbrev pub name_hash : List ℕ → ℕ
name_hash str = hash_loop 0 str

abbrev pub char_equal : ℕ → ℕ → Bool
char_equal x y =
    (x == y) || ((bit_xor x y == 32) && (leb 65 (clear_case x) && leb (clear_case x) 90))

-- The bytes compared in turn by `match`, up to the first pair that is not equal.
unfoldable pub match_all : List ℕ → List ℕ → Bool
match_all [] bs = true
match_all (a ∷ cs) [] = false
match_all (a ∷ cs) (b ∷ bs) = let rest = match_all cs bs in if char_equal a b then rest else false

abbrev pub name_equal : List ℕ → List ℕ → Bool
name_equal a b = (length a == length b) && match_all a b
