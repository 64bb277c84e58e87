-- ===== src/Common/Text.antt =====
-- Text as a list of byte values without its NUL, and the character tests of the kernel's C library.
use Prim.Native.Char.{code}
use Prim.Native.String.{String}
use Prim.Native.Nat.{ℕ, ◌+◌}
use mathlib.Core.Bool.{Bool, true, false, ◌&&◌, ◌||◌}
use mathlib.Core.List.{List, [], ◌∷◌}
use kdbs.Common.Tests.{leb, ◌==◌, if◌then◌else◌}

-- The codes of the characters of a literal.
abbrev pub codes : String → List ℕ
codes String.[] = []
codes (String.◌∷◌ c s) = code c ∷ codes s

abbrev pub is_digit : ℕ → Bool
is_digit c = leb b'0' c && leb c b'9'

-- `isspace`, `isalpha` and `tolower` on Latin-1, as the kernel's table has them.
abbrev pub is_space : ℕ → Bool
is_space c = c == 32 || leb 9 c && leb c 13 || c == 160

abbrev pub is_upper : ℕ → Bool
is_upper c =
    leb b'A' c && leb c b'Z' || leb 192 c && leb c 222 && (if c == 215 then false else true)

abbrev pub is_lower : ℕ → Bool
is_lower c =
    leb b'a' c && leb c b'z' || leb 223 c && leb c 255 && (if c == 247 then false else true)

abbrev pub is_alpha : ℕ → Bool
is_alpha c = is_upper c || is_lower c

abbrev pub is_alnum : ℕ → Bool
is_alnum c = is_alpha c || is_digit c

abbrev pub to_lower : ℕ → ℕ
to_lower c = if is_upper c then c + 32 else c

-- `strcmp(a, b) == 0` and `strcasecmp(a, b) == 0`.
abbrev pub same_text : List ℕ → List ℕ → Bool
same_text [] [] = true
same_text [] (b ∷ t) = false
same_text (a ∷ s) [] = false
same_text (a ∷ s) (b ∷ t) = a == b && same_text s t

abbrev pub same_word : List ℕ → List ℕ → Bool
same_word [] [] = true
same_word [] (b ∷ t) = false
same_word (a ∷ s) [] = false
same_word (a ∷ s) (b ∷ t) = to_lower a == to_lower b && same_word s t

-- The longest prefix whose bytes pass a test, and what follows it.
abbrev pub take_while : (ℕ → Bool) → List ℕ → List ℕ
take_while test [] = []
take_while test (c ∷ s) = if test c then c ∷ take_while test s else []

abbrev pub drop_while : (ℕ → Bool) → List ℕ → List ℕ
drop_while test [] = []
drop_while test (c ∷ s) = if test c then drop_while test s else c ∷ s
