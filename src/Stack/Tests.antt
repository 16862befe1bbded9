-- ===== src/Stack/Tests.antt =====
-- The stack of a program with two arguments.
use model_lib.Base.{ℕ, ◌+◌, ◌-◌, ◌≡◌, refl, Option, none, some, List, [], ◌∷◌}
use model_lib.Stack.{Page, build_stack}
use model_lib.Stack.Layout.{Built, build_stack-Built}

abbrev blank : Page
blank = record { words = λ o. 0; bytes = λ o. 0 }

abbrev args : List (List ℕ)
args = (97 ∷ 98 ∷ []) ∷ (99 ∷ []) ∷ []

abbrev size_of : Option (Page × ℕ) → ℕ
size_of none = 0
size_of (some (s, n)) = n

abbrev word_of : Option (Page × ℕ) → ℕ → ℕ
word_of none o = 0
word_of (some (s, n)) o = s.words o

-- 24 bytes of the vector and 5 of the strings.
build_stack-size : size_of (build_stack args blank) ≡ 32
unfolding build_stack
build_stack-size = refl

build_stack-second : word_of (build_stack args blank) 4072 ≡ 4294967296 - 4096 + 4091
unfolding build_stack
build_stack-second = refl

build_stack-Built_example : Built args (build_stack args blank)
build_stack-Built_example = build_stack-Built args blank
