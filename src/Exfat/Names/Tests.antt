-- ===== src/Exfat/Names/Tests.antt =====
-- Names that differ in the case of letters.
use cofuos.Prelude.{◌≡◌, refl, true, false, [], ◌∷◌}
use cofuos.Exfat.Names.{name_equal, name_hash, match_all, hash_loop}

-- "aZ@" and "Az@" are equal, "@" and "`" are not, although they differ in the same digit.
test_equal : name_equal (97 ∷ 90 ∷ 64 ∷ []) (65 ∷ 122 ∷ 64 ∷ []) ≡ true
unfolding match_all
test_equal = refl

test_other : name_equal (64 ∷ []) (96 ∷ []) ≡ false
unfolding match_all
test_other = refl

test_hash : name_hash (97 ∷ []) ≡ name_hash (65 ∷ [])
unfolding hash_loop
test_hash = refl
