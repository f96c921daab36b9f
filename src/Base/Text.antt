-- ===== src/Base/Text.antt =====
-- Python's text methods that the source uses: `strip`, `lower`, `upper`, `startswith`, `partition`.
use Prim.Native.Char.{code}
use Prim.Native.String.{String}
use Prim.Native.Nat.{ℕ, ◌+◌}
use mathlib.Core.Bool.{Bool, true, false, ◌&&◌, ◌||◌}
use mathlib.Core.List.{List, [], ◌∷◌, map, reverse}
use snakemake_storage_plugin.Base.Tests.{◌=ℕ◌, ltb, if◌then◌else◌}

-- The characters of a text.
unfoldable pub codes : String → List ℕ
codes String.[] = []
codes (String.◌∷◌ c s) = code c ∷ codes s

abbrev pub between : ℕ → ℕ → ℕ → Bool
between lo hi c = ltb lo (c + 1) && ltb c (hi + 1)

-- `str.isspace` of one character.
unfoldable pub is_space : ℕ → Bool
is_space c =
    between 9 13 c
    || between 28 32 c
    || c =ℕ 0x85
    || c =ℕ 0xa0
    || c =ℕ 0x1680
    || between 0x2000 0x200a c
    || between 0x2028 0x2029 c
    || c =ℕ 0x202f
    || c =ℕ 0x205f
    || c =ℕ 0x3000

unfoldable pub drop_while : (ℕ → Bool) → List ℕ → List ℕ
drop_while p [] = []
drop_while p (c ∷ cs) = let rest = drop_while p cs in if p c then rest else c ∷ cs

-- `s.strip()`
unfoldable pub strip : List ℕ → List ℕ
unfolding drop_while is_space
strip s = reverse (drop_while is_space (reverse (drop_while is_space s)))

-- `s.lower()` and `s.upper()` of the ASCII letters.
unfoldable pub lower : List ℕ → List ℕ
lower = map (λ c. if between b'A' b'Z' c then c + 32 else c)

unfoldable pub same_text : List ℕ → List ℕ → Bool
same_text [] [] = true
same_text (a ∷ s) (b ∷ t) = a =ℕ b && same_text s t
same_text _ _ = false

unfoldable pub among : List ℕ → List String → Bool
unfolding codes same_text
among s [] = false
among s (w ∷ ws) = same_text s (codes w) || among s ws
