-- ===== src/MoveJob/Base64.antt =====
-- `urlsafe_b64encode` and `b64decode(…, altchars=b"-_", validate=True)` of the standard library, on
-- bytes and ASCII codes.
pub mod RoundTrip
use seqret_be.Prelude.{
  ℕ, zero, suc, ◌+◌, ◌-◌, ◌*◌, ◌/◌, ◌%◌, ◌≤◌, ◌<◌, Bool, true, false, not, ◌&&◌, ◌||◌, Option, none,
  some, List, [], ◌∷◌, ◌++◌, ◌≡◌, ◌≢◌, refl, sym, ap, ◌∙◌, inl, inr, arith, leb, ltb, ◌==◌,
  if◌then◌else◌, length, All, Bool-cases,
}
use seqret_be.Prelude.Text.{in_range}

abbrev pub letter : ℕ → ℕ
letter i =
    if ltb i 26
    then i + b'A'
    else if ltb i 52
    then i - 26 + b'a'
    else if ltb i 62
    then i - 52 + b'0'
    else if i == 62
    then b'-'
    else b'_'

-- The value of a character. `+` and `/` stand for themselves besides `-` and `_`.
abbrev pub sextet : ℕ → Option ℕ
sextet c =
    if in_range b'A' b'Z' c
    then some (c - b'A')
    else if in_range b'a' b'z' c
    then some (c - b'a' + 26)
    else if in_range b'0' b'9' c
    then some (c - b'0' + 52)
    else if c == b'-' || c == b'+'
    then some 62
    else if c == b'_' || c == b'/'
    then some 63
    else none

abbrev pub pad : ℕ
pad = b'='

-- Three bytes are four letters; what is missing at the end is padded.
abbrev pub encode64 : List ℕ → List ℕ
encode64 [] = []
encode64 (a ∷ []) = letter (a / 4) ∷ letter (a % 4 * 16) ∷ pad ∷ pad ∷ []
encode64 (a ∷ b ∷ []) =
    letter (a / 4) ∷ letter (a % 4 * 16 + b / 16) ∷ letter (b % 16 * 4) ∷ pad ∷ []
encode64 (a ∷ b ∷ c ∷ bytes) =
    letter (a / 4)
    ∷ letter (a % 4 * 16 + b / 16)
    ∷ letter (b % 16 * 4 + c / 64)
    ∷ letter (c % 64)
    ∷ encode64 bytes

abbrev pub byte_1 : ℕ → ℕ → ℕ
byte_1 s t = s * 4 + t / 16

abbrev pub byte_2 : ℕ → ℕ → ℕ
byte_2 t u = t % 16 * 16 + u / 4

abbrev pub byte_3 : ℕ → ℕ → ℕ
byte_3 u v = u % 4 * 64 + v

abbrev pub group_1 : Option ℕ → Option ℕ → Option (List ℕ)
group_1 (some s) (some t) = some (byte_1 s t ∷ [])
group_1 _ _ = none

abbrev pub group_2 : Option ℕ → Option ℕ → Option ℕ → Option (List ℕ)
group_2 (some s) (some t) (some u) = some (byte_1 s t ∷ byte_2 t u ∷ [])
group_2 _ _ _ = none

abbrev pub group_3 : Option ℕ → Option ℕ → Option ℕ → Option ℕ → Option (List ℕ) → Option (List ℕ)
group_3 (some s) (some t) (some u) (some v) (some bytes) =
    some (byte_1 s t ∷ byte_2 t u ∷ byte_3 u v ∷ bytes)
group_3 _ _ _ _ _ = none

-- Groups of four letters, of which the last may be padded.
abbrev pub decode64 : List ℕ → Option (List ℕ)
decode64 [] = some []
decode64 (a ∷ []) = none
decode64 (a ∷ b ∷ []) = none
decode64 (a ∷ b ∷ c ∷ []) = none
decode64 (a ∷ b ∷ c ∷ d ∷ []) =
    if d == pad
    then (if c == pad
        then group_1 (sextet a) (sextet b)
        else group_2 (sextet a) (sextet b) (sextet c))
    else group_3 (sextet a) (sextet b) (sextet c) (sextet d) (some [])
decode64 (a ∷ b ∷ c ∷ d ∷ e ∷ text) =
    let rest = decode64 (e ∷ text) in group_3 (sextet a) (sextet b) (sextet c) (sextet d) rest

-- `"=" * (-len(text) % 4)`
abbrev pub pads : ℕ → List ℕ
pads zero = []
pads (suc n) = pad ∷ pads n

abbrev pub padded : List ℕ → List ℕ
padded text = text ++ pads ((4 - length text % 4) % 4)

-- `rstrip("=")`
abbrev pub is_empty : List ℕ → Bool
is_empty [] = true
is_empty (x ∷ xs) = false

abbrev pub strip_pads : List ℕ → List ℕ
strip_pads [] = []
strip_pads (c ∷ text) =
    let rest = strip_pads text in if c == pad && is_empty rest then [] else c ∷ rest
