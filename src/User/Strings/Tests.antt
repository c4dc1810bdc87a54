-- ===== src/User/Strings/Tests.antt =====
-- Strings of characters from a, which is 97.
use cofuos.Prelude.{◌≡◌, refl, some, [], ◌∷◌}
use cofuos.User.Numbers.{isspace}
use cofuos.User.Strings.{
  negsuc, strcmp, strstr, strstr_loop, parse_commandline, count_words, fill_args,
}

test_strcmp : strcmp (97 ∷ 98 ∷ []) (97 ∷ 100 ∷ []) ≡ negsuc 1
unfolding strcmp
test_strcmp = refl

test_strstr : strstr (97 ∷ 98 ∷ 99 ∷ []) (98 ∷ []) ≡ some (98 ∷ 99 ∷ [])
unfolding strstr_loop
test_strstr = refl

-- "ab c"
test_parse : parse_commandline (97 ∷ 98 ∷ 32 ∷ 99 ∷ []) ≡ some (0 ∷ 3 ∷ [], 97 ∷ 98 ∷ 0 ∷ 99 ∷ [])
unfolding count_words fill_args isspace
test_parse = refl
