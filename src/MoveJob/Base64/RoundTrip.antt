-- ===== src/MoveJob/Base64/RoundTrip.antt =====
-- What `urlsafe_b64encode` writes, without its padding, is what `b64decode` reads.
use seqret_be.Prelude.{
  ℕ, ◌+◌, ◌-◌, ◌*◌, ◌/◌, ◌%◌, ◌≤◌, ◌<◌, Option, some, List, [], ◌∷◌, ◌++◌, ◌≡◌, ◌≢◌, refl, sym, ap,
  subst, ◌∙◌, arith, ◌==◌, if◌then◌else◌, length, All,
}
use seqret_be.MoveJob.Base64.{
  letter, sextet, pad, encode64, group_1, group_2, group_3, decode64, pads, padded, strip_pads,
  byte_1, byte_2, byte_3,
}

sextet-letter : (i : ℕ) → i < 64 → sextet (letter i) ≡ some i
sextet-letter i h = ground arith

letter_not_pad : (i : ℕ) → i < 64 → letter i ≢ pad
letter_not_pad i h = ground arith

-- The bytes that three letters and a pad, or two letters and two pads, give back.
first_byte : (a b : ℕ) → a < 256 → b < 16 → byte_1 (a / 4) (a % 4 * 16 + b) ≡ a
first_byte a b h k = omega arith

second_byte : (a b c : ℕ) → b < 256 → c < 4 → byte_2 (a % 4 * 16 + b / 16) (b % 16 * 4 + c) ≡ b
second_byte a b c h k = omega arith

third_byte : (b c : ℕ) → c < 256 → byte_3 (b % 16 * 4 + c / 64) (c % 64) ≡ c
third_byte b c h = omega arith

-- A group that is not padded is read before the rest.
decode64_group :
    (a b c d : ℕ) (text : List ℕ)
    → d ≢ pad
    → decode64 (a ∷ b ∷ c ∷ d ∷ text)
      ≡ group_3 (sextet a) (sextet b) (sextet c) (sextet d) (decode64 text)
decode64_group a b c d [] h = ground arith
decode64_group a b c d (e ∷ text) h = refl

not_padded : (c : ℕ) (x y : Option (List ℕ)) → c ≢ pad → (if c == pad then x else y) ≡ y
not_padded c x y h = ground (arith, h)

group_known :
    {o p q r : Option ℕ} {s t u v : ℕ} {xs : List ℕ}
    → o ≡ some s
    → p ≡ some t
    → q ≡ some u
    → r ≡ some v
    → group_3 o p q r (some xs) ≡ some (byte_1 s t ∷ byte_2 t u ∷ byte_3 u v ∷ xs)
group_known a b c d = rw a (rw b (rw c (rw d refl)))

abbrev pub AreBytes : List ℕ → Type 0
AreBytes xs = All (λ b. b < 256) xs

pub decode64-encode64 : (xs : List ℕ) → AreBytes xs → decode64 (encode64 xs) ≡ some xs
decode64-encode64 [] h = refl
decode64-encode64 (a ∷ []) (ha, _) =
    let s = sextet-letter (a / 4) (omega arith) in
    let t = sextet-letter (a % 4 * 16) (omega arith) in
    let back : byte_1 (a / 4) (a % 4 * 16) ≡ a = omega arith in
    ap (λ x. group_1 x (sextet (letter (a % 4 * 16)))) s
    ∙ ap (group_1 (some (a / 4))) t
    ∙ ap (λ z. some (z ∷ [])) back
decode64-encode64 (a ∷ b ∷ []) (ha, (hb, _)) =
    let s = sextet-letter (a / 4) (omega arith) in
    let t = sextet-letter (a % 4 * 16 + b / 16) (omega arith) in
    let u = sextet-letter (b % 16 * 4) (omega arith) in
    let unpadded = letter_not_pad (b % 16 * 4) (omega arith) in
    let back = first_byte a (b / 16) ha (omega arith) in
    let back' : byte_2 (a % 4 * 16 + b / 16) (b % 16 * 4) ≡ b = omega arith in
    let whole : group_2 (sextet (letter (a / 4))) (sextet (letter (a % 4 * 16 + b / 16)))
          (sextet (letter (b % 16 * 4)))
        ≡ some (a ∷ b ∷ []) =
      ap (λ x. group_2 x (sextet (letter (a % 4 * 16 + b / 16))) (sextet (letter (b % 16 * 4)))) s
      ∙ ap (λ x. group_2 (some (a / 4)) x (sextet (letter (b % 16 * 4)))) t
      ∙ ap (group_2 (some (a / 4)) (some (a % 4 * 16 + b / 16))) u
      ∙ ap (λ z. some (z ∷ byte_2 (a % 4 * 16 + b / 16) (b % 16 * 4) ∷ [])) back
      ∙ ap (λ z. some (a ∷ z ∷ [])) back' in
    not_padded (letter (b % 16 * 4))
      (group_1 (sextet (letter (a / 4))) (sextet (letter (a % 4 * 16 + b / 16))))
      (group_2 (sextet (letter (a / 4))) (sextet (letter (a % 4 * 16 + b / 16)))
        (sextet (letter (b % 16 * 4))))
      unpadded
    ∙ whole
decode64-encode64 (a ∷ b ∷ c ∷ xs) (ha, (hb, (hc, hs))) =
    let s = sextet-letter (a / 4) (omega arith) in
    let t = sextet-letter (a % 4 * 16 + b / 16) (omega arith) in
    let u = sextet-letter (b % 16 * 4 + c / 64) (omega arith) in
    let v = sextet-letter (c % 64) (omega arith) in
    decode64_group (letter (a / 4)) (letter (a % 4 * 16 + b / 16)) (letter (b % 16 * 4 + c / 64))
      (letter (c % 64)) (encode64 xs) (letter_not_pad (c % 64) (omega arith))
    ∙ ap
        (λ z.
          group_3 (sextet (letter (a / 4))) (sextet (letter (a % 4 * 16 + b / 16)))
            (sextet (letter (b % 16 * 4 + c / 64))) (sextet (letter (c % 64))) z)
        (decode64-encode64 xs hs)
    ∙ group_known s t u v
    ∙ ap
        (λ z. some (
          z
          ∷ byte_2 (a % 4 * 16 + b / 16) (b % 16 * 4 + c / 64)
          ∷ byte_3 (b % 16 * 4 + c / 64) (c % 64)
          ∷ xs))
        (first_byte a (b / 16) ha (omega arith))
    ∙ ap (λ z. some (a ∷ z ∷ byte_3 (b % 16 * 4 + c / 64) (c % 64) ∷ xs))
        (second_byte a b (c / 64) hb (omega arith))
    ∙ ap (λ z. some (a ∷ b ∷ z ∷ xs)) (third_byte b c hc)

-- The letters without the padding.
abbrev letters : List ℕ → List ℕ
letters [] = []
letters (a ∷ []) = letter (a / 4) ∷ letter (a % 4 * 16) ∷ []
letters (a ∷ b ∷ []) = letter (a / 4) ∷ letter (a % 4 * 16 + b / 16) ∷ letter (b % 16 * 4) ∷ []
letters (a ∷ b ∷ c ∷ bytes) =
    letter (a / 4)
    ∷ letter (a % 4 * 16 + b / 16)
    ∷ letter (b % 16 * 4 + c / 64)
    ∷ letter (c % 64)
    ∷ letters bytes

strip_letter :
    (i : ℕ) (text : List ℕ) → i < 64 → strip_pads (letter i ∷ text) ≡ letter i ∷ strip_pads text
strip_letter i text h = let no = letter_not_pad i h in ground (arith, no)

padded_group :
    (a b c d : ℕ) (text : List ℕ) → padded (a ∷ b ∷ c ∷ d ∷ text) ≡ a ∷ b ∷ c ∷ d ∷ padded text
padded_group a b c d text =
    let same : (4 - (length (a ∷ b ∷ c ∷ d ∷ text)) % 4) % 4 ≡ (4 - length text % 4) % 4 =
      omega arith in
    ap (λ n. a ∷ b ∷ c ∷ d ∷ (text ++ pads n)) same

strip_pads-encode64 : (xs : List ℕ) → AreBytes xs → strip_pads (encode64 xs) ≡ letters xs
strip_pads-encode64 [] h = refl
strip_pads-encode64 (a ∷ []) (ha, _) =
    strip_letter (a / 4) (letter (a % 4 * 16) ∷ pad ∷ pad ∷ []) (omega arith)
    ∙ ap (◌∷◌ (letter (a / 4))) (strip_letter (a % 4 * 16) (pad ∷ pad ∷ []) (omega arith))
strip_pads-encode64 (a ∷ b ∷ []) (ha, (hb, _)) =
    let t = a % 4 * 16 + b / 16 in
    let u = b % 16 * 4 in
    strip_letter (a / 4) (letter t ∷ letter u ∷ pad ∷ []) (omega arith)
    ∙ ap (◌∷◌ (letter (a / 4))) (strip_letter t (letter u ∷ pad ∷ []) (omega arith))
    ∙ ap (λ z. letter (a / 4) ∷ letter t ∷ z) (strip_letter u (pad ∷ []) (omega arith))
strip_pads-encode64 (a ∷ b ∷ c ∷ xs) (ha, (hb, (hc, hs))) =
    let t = a % 4 * 16 + b / 16 in
    let u = b % 16 * 4 + c / 64 in
    let v = c % 64 in
    let rest = encode64 xs in
    strip_letter (a / 4) (letter t ∷ letter u ∷ letter v ∷ rest) (omega arith)
    ∙ ap (◌∷◌ (letter (a / 4))) (strip_letter t (letter u ∷ letter v ∷ rest) (omega arith))
    ∙ ap (λ z. letter (a / 4) ∷ letter t ∷ z) (strip_letter u (letter v ∷ rest) (omega arith))
    ∙ ap (λ z. letter (a / 4) ∷ letter t ∷ letter u ∷ z) (strip_letter v rest (omega arith))
    ∙ ap (λ z. letter (a / 4) ∷ letter t ∷ letter u ∷ letter v ∷ z) (strip_pads-encode64 xs hs)

padded-letters : (xs : List ℕ) → padded (letters xs) ≡ encode64 xs
padded-letters [] = refl
padded-letters (a ∷ []) = refl
padded-letters (a ∷ b ∷ []) = refl
padded-letters (a ∷ b ∷ c ∷ xs) =
    padded_group (letter (a / 4)) (letter (a % 4 * 16 + b / 16)) (letter (b % 16 * 4 + c / 64))
      (letter (c % 64)) (letters xs)
    ∙ ap
        (λ z.
          letter (a / 4)
          ∷ letter (a % 4 * 16 + b / 16)
          ∷ letter (b % 16 * 4 + c / 64)
          ∷ letter (c % 64)
          ∷ z)
        (padded-letters xs)

-- Stripped and padded again, the letters are read back.
pub decode64-padded :
    (xs : List ℕ) → AreBytes xs → decode64 (padded (strip_pads (encode64 xs))) ≡ some xs
decode64-padded xs h =
    ap (λ z. decode64 (padded z)) (strip_pads-encode64 xs h)
    ∙ ap decode64 (padded-letters xs)
    ∙ decode64-encode64 xs h

length-letters : (xs : List ℕ) → 3 * length (letters xs) ≤ 4 * length xs + 2
length-letters [] = omega arith
length-letters (a ∷ []) = omega arith
length-letters (a ∷ b ∷ []) = omega arith
length-letters (a ∷ b ∷ c ∷ xs) = omega (arith, length-letters xs)

pub length-stripped :
    (xs : List ℕ) → AreBytes xs → 3 * length (strip_pads (encode64 xs)) ≤ 4 * length xs + 2
length-stripped xs h =
    subst (λ z. 3 * length z ≤ 4 * length xs + 2) (sym (strip_pads-encode64 xs h))
      (length-letters xs)
