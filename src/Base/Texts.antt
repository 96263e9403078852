-- ===== src/Base/Texts.antt =====
-- Texts as their code points, and Python's `str.strip`.
use Prim.Native.Nat.{ℕ, suc, zero, ◌/◌, ◌%◌}
use Prim.Native.Char.{code}
use Prim.Native.String.{String, ◌++◌}
use mathlib.Core.Bool.{Bool, true, false, not, ◌&&◌, ◌||◌}
use mathlib.Core.List.{List, [], ◌∷◌, reverse}
use katydid.Base.Tests.{ltb, leb, eqb}
use katydid.Base.Lists.{length, all}

abbrev pub codes : String → List ℕ
codes String.[] = []
codes (String.◌∷◌ c s) = code c ∷ codes s

-- `str.isspace` of one character.
unfoldable pub is_space : ℕ → Bool
is_space c =
    (leb 9 c && leb c 13)
    || (leb 28 c && leb c 32)
    || eqb c 0x85
    || eqb c 0xa0
    || eqb c 0x1680
    || (leb 0x2000 c && leb c 0x200a)
    || eqb c 0x2028
    || eqb c 0x2029
    || eqb c 0x202f
    || eqb c 0x205f
    || eqb c 0x3000

abbrev starts_blank : List ℕ → Bool
starts_blank [] = false
starts_blank (c ∷ cs) = is_space c

-- `not value.strip()`
unfoldable pub is_blank : String → Bool
unfolding is_space
is_blank s = all is_space (codes s)

-- `value == value.strip()`
unfoldable pub is_stripped : String → Bool
unfolding is_space
is_stripped s = not (starts_blank (codes s)) && not (starts_blank (reverse (codes s)))

-- `^[a-f0-9]{n}$`
unfoldable pub is_hex : ℕ → String → Bool
is_hex n s =
    eqb (length (codes s)) n
    && all (λ c. (leb b'a' c && leb c b'f') || (leb b'0' c && leb c b'9')) (codes s)

-- An f-string, by its parts.
abbrev pub concat : List String → String
concat [] = ""
concat (s ∷ ss) = s ++ concat ss

digit : List String → ℕ → String
digit [] n = ""
digit (d ∷ ds) zero = d
digit (d ∷ ds) (suc n) = digit ds n

digits : List String
digits = "0" ∷ "1" ∷ "2" ∷ "3" ∷ "4" ∷ "5" ∷ "6" ∷ "7" ∷ "8" ∷ "9" ∷ []

decimal_digits : ℕ → ℕ → String
unfolding digit digits
decimal_digits zero n = ""
decimal_digits (suc fuel) n = elim (ltb n 10) [
  | true ↦ digit digits n
  | false ↦ decimal_digits fuel (n / 10) ++ digit digits (n % 10)
]

-- `str` of a natural number, which has at most as many digits as its successor counts.
unfoldable pub decimal : ℕ → String
unfolding decimal_digits
decimal n = decimal_digits (suc n) n
