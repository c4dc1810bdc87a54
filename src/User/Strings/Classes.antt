-- ===== src/User/Strings/Classes.antt =====
-- The classes of characters.
use cofuos.Prelude.{ℕ, ◌≡◌, false, leb, ◌&&◌, ◌||◌, arith}
use cofuos.User.Strings.{isupper, islower, isalpha, isdigit, isalnum, ispunct, isprint}

-- The characters that `isprint` accepts are those from the space to the tilde, and of these each is a
-- space, a mark, a digit, a capital or a small letter, and no two of them.
pub isprint_lem :
    (ch : ℕ)
    → (isprint ch ≡ (leb 32 ch && leb ch 126))
      × (isalpha ch ≡ (isupper ch || islower ch))
      × ((isalnum ch && ispunct ch) ≡ false)
      × ((isalpha ch && isdigit ch) ≡ false)
isprint_lem ch = (ground arith, ground arith, ground arith, ground arith)
