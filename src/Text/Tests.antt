-- ===== src/Text/Tests.antt =====
-- Runs of the string functions.
use model_lib.Base.{
  ℕ, ◌+◌, ◌-◌, ◌^◌, ◌≤◌, ◌≡◌, refl, true, none, some, List, [], ◌∷◌, ◌++◌, arith, length, take,
}
use model_lib.Text.{strcmp, strncpy, strrchr, strtoul}
use model_lib.Text.Format.{int_digits, format_int, num, text, vgprintf, vsnprintf}
use model_lib.Text.Digits.{strtoul-format_int}
use model_lib.Text.Compare.{Says, strcmp-Says}
use model_lib.Text.Print.{vsnprintf-take}

-- "ab", "%d %s", "%04x".
abbrev ab : List ℕ
ab = 97 ∷ 98 ∷ []

abbrev number_and_name : List ℕ
number_and_name = 37 ∷ 100 ∷ 32 ∷ 37 ∷ 115 ∷ []

abbrev padded_hex : List ℕ
padded_hex = 37 ∷ 48 ∷ 52 ∷ 120 ∷ []

vgprintf-names :
    vgprintf number_and_name (num 12 ∷ text (some ab) ∷ []) ≡ 49 ∷ 50 ∷ 32 ∷ 97 ∷ 98 ∷ []
unfolding vgprintf
vgprintf-names = refl

vgprintf-negative :
    vgprintf number_and_name (num (2 ^ 64 - 7) ∷ text none ∷ [])
    ≡ 45 ∷ 55 ∷ 32 ∷ 78 ∷ 85 ∷ 76 ∷ 76 ∷ []
unfolding vgprintf
vgprintf-negative = refl

vgprintf-pads : vgprintf padded_hex (num 171 ∷ []) ≡ 48 ∷ 48 ∷ 97 ∷ 98 ∷ []
unfolding vgprintf
vgprintf-pads = refl

-- A `%` at the end.
vgprintf-lone : vgprintf (97 ∷ 37 ∷ []) [] ≡ 97 ∷ 37 ∷ 63 ∷ []
unfolding vgprintf
vgprintf-lone = refl

strrchr-last : strrchr (97 ∷ 47 ∷ 98 ∷ 47 ∷ []) 47 ≡ some 3
unfolding strrchr
strrchr-last = refl

strtoul-signed : strtoul (some (45 ∷ 49 ∷ 120 ∷ [])) 10 ≡ (2 ^ 64 - 1, some 2)
unfolding strtoul
strtoul-signed = refl

strncpy-pads : strncpy ab 4 ≡ 97 ∷ 98 ∷ 0 ∷ 0 ∷ []
unfolding strncpy
strncpy-pads = refl

few_digits : length (int_digits 64 1205 10 []) ≤ 40
unfolding int_digits
few_digits = omega arith

strtoul-format_int_example :
    let s = format_int 1205 10 true 6 in strtoul (some s) 10 ≡ (1205, some (length s))
strtoul-format_int_example =
    strtoul-format_int 10 (omega arith) (omega arith) 1205 6 (omega arith) few_digits

strcmp-Says_example : Says (strcmp (some ab) (some (97 ∷ []))) ab (97 ∷ [])
strcmp-Says_example = strcmp-Says ab (97 ∷ [])

vsnprintf-take_example :
    let args = num 12 ∷ text (some ab) ∷ [] in
    let out = vgprintf number_and_name args in
    (vsnprintf 4 number_and_name args ≡ (take 3 out ++ (0 ∷ []), length out + 1))
    × (length (vsnprintf 4 number_and_name args).0 ≤ 4)
vsnprintf-take_example = vsnprintf-take 3 number_and_name (num 12 ∷ text (some ab) ∷ [])
