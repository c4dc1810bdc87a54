-- ===== src/Exfat/Reader/Tests.antt =====
-- A directory with one file, and one whose file has a name of two records.
use cofuos.Prelude.{ℕ, zero, suc, ◌≡◌, refl, ◌≢◌, false, List, [], ◌∷◌, arith}
use cofuos.Exfat.Reader.{
  Record, step, checksum, checksum_loop, bytes_of, word_at, get_name, name_loop,
}
use cofuos.Exfat.Reader.Long.{step-long_name}

abbrev zeros : ℕ → List ℕ
zeros zero = []
zeros (suc n) = 0 ∷ zeros n

abbrev primary : ℕ → ℕ → ℕ → Record
primary count low high = 133 ∷ count ∷ low ∷ high ∷ 32 ∷ zeros 27

abbrev stream : Record
stream = 192 ∷ 1 ∷ 0 ∷ 1 ∷ 7 ∷ zeros 27

abbrev name_part : Record
name_part = 193 ∷ 0 ∷ 97 ∷ zeros 29

abbrev short_set : List Record
short_set = primary 2 70 15 ∷ stream ∷ name_part ∷ []

test_checksum : checksum short_set ≡ 3910
unfolding checksum_loop bytes_of
test_checksum = refl

test_found : step 88 7 1 0 [] (name_part ∷ short_set) ≡ (0, short_set, 4)
unfolding step checksum_loop bytes_of
test_found = refl

test_name : get_name false short_set ≡ 97 ∷ []
unfolding get_name name_loop
test_name = refl

two_names : checksum (primary 3 0 0 ∷ stream ∷ name_part ∷ []) ≢ word_at (primary 3 0 0) 2
unfolding checksum_loop bytes_of
two_names e = omega arith

step-long_name_example :
    step 88 7 1 0 [] (primary 3 0 0 ∷ stream ∷ name_part ∷ name_part ∷ []) ≡ step 88 7 1 4 [] []
step-long_name_example =
    step-long_name 88 7 1 0 (primary 3 0 0) stream name_part name_part [] (λ e. omega arith)
      (refl, omega arith, refl) refl (refl, refl) refl refl two_names
