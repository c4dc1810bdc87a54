-- ===== src/User/Strings.antt =====
-- app/libuos/uoscrt.cpp: the classes of characters, `strlen`, `strstr`, `strcmp` and `parse_commandline`. A string
-- is the list of its characters, without the 0 at its end.
pub mod Classes
pub mod Order
pub mod Search
pub mod Arguments
mod Tests
use cofuos.Prelude.{
  ℕ, zero, suc, ◌+◌, ◌-◌, ◌==◌, Bool, true, false, ltb, leb, not, ◌&&◌, ◌||◌, if◌then◌else◌, Option,
  none, some, List, [], ◌∷◌, length,
}
use cofuos.User.Numbers.{isspace, upper}

abbrev pub isupper : ℕ → Bool
isupper ch = leb 65 ch && leb ch 90

abbrev pub islower : ℕ → Bool
islower ch = leb 97 ch && leb ch 122

abbrev pub isalpha : ℕ → Bool
isalpha ch = leb 65 (upper ch) && leb (upper ch) 90

abbrev pub isdigit : ℕ → Bool
isdigit ch = leb 48 ch && leb ch 57

abbrev pub isxdigit : ℕ → Bool
isxdigit ch = isdigit ch || (leb 65 (upper ch) && leb (upper ch) 70)

abbrev pub isalnum : ℕ → Bool
isalnum ch = isalpha ch || isdigit ch

-- The cases of the `switch` are these four runs of characters.
abbrev pub ispunct : ℕ → Bool
ispunct ch =
    (leb 33 ch && leb ch 47)
    || (leb 58 ch && leb ch 64)
    || (leb 91 ch && leb ch 96)
    || (leb 123 ch && leb ch 126)

abbrev pub isprint : ℕ → Bool
isprint ch = isalnum ch || ispunct ch || (ch == 32)

abbrev pub strlen : List ℕ → ℕ
strlen str = length str

-- An `int`: `pos n` is n, `negsuc n` is -1 - n.
pub data ℤ : Type 0 where
  pos : ℕ → ℤ
  negsuc : ℕ → ℤ

-- `(byte)a - (byte)b`
abbrev pub byte_difference : ℕ → ℕ → ℤ
byte_difference a b = if leb b a then pos (a - b) else negsuc (b - a - 1)

pub strcmp : List ℕ → List ℕ → ℤ
strcmp [] [] = byte_difference 0 0
strcmp [] (b ∷ bs) = byte_difference 0 b
strcmp (a ∷ cs) [] = byte_difference a 0
strcmp (a ∷ cs) (b ∷ bs) = let rest = strcmp cs bs in if a == b then rest else byte_difference a b

-- The loop of `strstr`: `str` and `cmp` are the rests of the two strings, from `pos` on the text is compared.
pub strstr_loop : List ℕ → List ℕ → List ℕ → List ℕ → Option (List ℕ)
strstr_loop substr place str [] = some place
strstr_loop substr place [] (c ∷ cs) = none
strstr_loop substr place (s ∷ ss) (c ∷ cs) =
    let matched = strstr_loop substr place ss cs in
    let again = strstr_loop substr ss ss substr in if c == s then matched else again

abbrev pub strstr : List ℕ → List ℕ → Option (List ℕ)
strstr str substr = strstr_loop substr str str substr

-- The first pass of `parse_commandline`: how many words begin after a space.
pub count_words : ℕ → List ℕ → ℕ
count_words prev [] = 0
count_words prev (c ∷ cs) =
    let rest = count_words c cs in if not (isspace c) && isspace prev then rest + 1 else rest

-- The second pass: the places that it stores, the text that it leaves, and `pos`.
pub record Filled : Type 0 where
  pub args : List ℕ
  pub text : List ℕ
  pub stored : ℕ

abbrev pub add_char : ℕ → Filled → Filled
add_char c f = record f { text = c ∷ f.text }

abbrev pub add_arg : ℕ → Filled → Filled
add_arg i f = record f { args = i ∷ f.args }

-- `i` is the place of the next character.
pub fill_args : ℕ → ℕ → ℕ → ℕ → List ℕ → Filled
fill_args argc stored prev i [] = record { args = []; text = []; stored = stored }
fill_args argc stored prev i (c ∷ cs) =
    let began = add_arg i (add_char c (fill_args argc (stored + 1) c (i + 1) cs)) in
    let ended = add_char 0 (fill_args argc stored c (i + 1) cs) in
    let other = add_char c (fill_args argc stored c (i + 1) cs) in
    if not (isspace c) && isspace prev
    then (if leb argc stored then record { args = []; text = c ∷ cs; stored = stored } else began)
    else (if isspace c && not (isspace prev) then ended else other)

abbrev pub with_first : ℕ → Filled → Option (List ℕ × List ℕ)
with_first argc f = if f.stored == argc then some (0 ∷ f.args, f.text) else none

abbrev pub argc_of : List ℕ → ℕ
argc_of cmd = count_words 0 cmd + 1

-- The places of the arguments in the text, and the text with a 0 at the end of each argument.
abbrev pub parse_commandline : List ℕ → Option (List ℕ × List ℕ)
parse_commandline cmd = with_first (argc_of cmd) (fill_args (argc_of cmd) 1 0 0 cmd)
