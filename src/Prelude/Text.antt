-- ===== src/Prelude/Text.antt =====
-- Text, by its code points.
use Prim.Native.Nat.{ℕ}
use Prim.Native.Char.{code}
use Prim.Native.String.{String}
use mathlib.Core.Bool.{Bool, true, false, not, ◌&&◌, ◌||◌}
use mathlib.Core.Option.{Option, none, some}
use mathlib.Core.List.{List, [], ◌∷◌}
use text.Mathlib.Text.{◌==◌ as str_eq}
use seqret_be.Prelude.Tests.{leb, ◌==◌}

abbrev pub codes : String → List ℕ
codes String.[] = []
codes (String.◌∷◌ c s) = code c ∷ codes s

abbrev pub all : (ℕ → Bool) → List ℕ → Bool
all p [] = true
all p (c ∷ cs) = p c && all p cs

abbrev pub in_range : ℕ → ℕ → ℕ → Bool
in_range lo hi c = leb lo c && leb c hi

-- `a == b` on texts, and where either side may be `None`.
abbrev pub same_text : String → String → Bool
same_text a b = str_eq a b

abbrev pub is_text_eq : Option String → String → Bool
is_text_eq none b = false
is_text_eq (some a) b = str_eq a b

abbrev pub same_option : Option String → Option String → Bool
same_option none none = true
same_option (some a) (some b) = str_eq a b
same_option _ _ = false

abbrev pub same_number : Option ℕ → Option ℕ → Bool
same_number none none = true
same_number (some a) (some b) = a == b
same_number _ _ = false

-- The characters that `str.strip` takes off the ends.
abbrev pub is_space : ℕ → Bool
is_space c =
    in_range 9 13 c
    || in_range 28 32 c
    || c == 133
    || c == 160
    || c == 5760
    || in_range 8192 8202 c
    || in_range 8232 8233 c
    || c == 8239
    || c == 8287
    || c == 12288

-- The last character is no space, or there is none.
abbrev pub ends_clean : List ℕ → Bool
ends_clean [] = true
ends_clean (c ∷ []) = not (is_space c)
ends_clean (c ∷ d ∷ cs) = ends_clean (d ∷ cs)

-- `value == value.strip()`: neither end is a space.
abbrev pub is_stripped : List ℕ → Bool
is_stripped [] = true
is_stripped (c ∷ cs) = not (is_space c) && ends_clean (c ∷ cs)

-- `value and value == value.strip()`, where `value` may be `None`.
unfoldable pub is_clean : Option String → Bool
is_clean none = false
is_clean (some String.[]) = false
is_clean (some (String.◌∷◌ c s)) = is_stripped (code c ∷ codes s)
