-- ===== src/MoveJob/Decimal.antt =====
-- `str(n)`, `int(text)` and `text.isdecimal()` on ASCII codes.
use seqret_be.Prelude.{
  ℕ, zero, suc, ◌+◌, ◌-◌, ◌*◌, ◌/◌, ◌%◌, ◌≤◌, ◌<◌, Bool, true, false, List, [], ◌∷◌, ◌++◌, ◌≡◌,
  refl, ap, ◌∙◌, inl, inr, arith, ltb, length, length-append, Bool-cases,
}
use seqret_be.Prelude.Text.{all, in_range}

-- The digits of a number, the last one first computed; as many as the fuel allows.
abbrev pub digits : ℕ → ℕ → List ℕ
digits zero n = []
digits (suc fuel) n = elim (ltb n 10) [
  | true ↦ (n + b'0') ∷ []
  | false ↦ digits fuel (n / 10) ++ (n % 10 + b'0') ∷ []
]

abbrev pub decimal : ℕ → List ℕ
decimal n = digits (suc n) n

abbrev pub is_digit : ℕ → Bool
is_digit c = in_range b'0' b'9' c

abbrev pub is_decimal : List ℕ → Bool
is_decimal [] = false
is_decimal (c ∷ cs) = all is_digit (c ∷ cs)

abbrev pub read_from : ℕ → List ℕ → ℕ
read_from n [] = n
read_from n (c ∷ cs) = read_from (n * 10 + (c - b'0')) cs

abbrev pub int_of : List ℕ → ℕ
int_of cs = read_from 0 cs

digits_last : (fuel n : ℕ) → ltb n 10 ≡ true → digits (suc fuel) n ≡ (n + b'0') ∷ []
digits_last fuel n h = rw (h, digits) refl

digits_more :
    (fuel n : ℕ)
    → ltb n 10 ≡ false
    → digits (suc fuel) n ≡ digits fuel (n / 10) ++ (n % 10 + b'0') ∷ []
digits_more fuel n h = rw (h, digits) refl

read_from-append :
    (n c : ℕ) (cs : List ℕ) → read_from n (cs ++ c ∷ []) ≡ read_from n cs * 10 + (c - b'0')
read_from-append n c [] = refl
read_from-append n c (d ∷ cs) = read_from-append (n * 10 + (d - b'0')) c cs

read_from-digits : (fuel n : ℕ) → n < fuel → int_of (digits fuel n) ≡ n
read_from-digits zero n h = absurd (omega arith)
read_from-digits (suc fuel) n h = elim (Bool-cases (ltb n 10)) [
  | inl small ↦ ap int_of (digits_last fuel n small) ∙ omega arith
  | inr large ↦
      let back = read_from-digits fuel (n / 10) (ground arith) in
      let last = read_from-append 0 (n % 10 + b'0') (digits fuel (n / 10)) in
      ap int_of (digits_more fuel n large)
      ∙ last
      ∙ ap (λ z. z * 10 + (n % 10 + b'0' - b'0')) back
      ∙ omega arith
]

-- Reading back what was written.
pub int_of-decimal : (n : ℕ) → int_of (decimal n) ≡ n
int_of-decimal n = read_from-digits (suc n) n (omega arith)

all-append :
    (p : ℕ → Bool) (xs : List ℕ) (c : ℕ)
    → all p xs ≡ true
    → p c ≡ true
    → all p (xs ++ c ∷ []) ≡ true
all-append p [] c h k = ground arith
all-append p (x ∷ xs) c h k = let rest = all-append p xs c (ground arith) k in ground (arith, rest)

pub all-digits : (fuel n : ℕ) → all is_digit (digits fuel n) ≡ true
all-digits zero n = refl
all-digits (suc fuel) n = elim (Bool-cases (ltb n 10)) [
  | inl small ↦ ap (all is_digit) (digits_last fuel n small) ∙ ground arith
  | inr large ↦
      ap (all is_digit) (digits_more fuel n large)
      ∙ (all-append is_digit (digits fuel (n / 10)) (n % 10 + b'0') (all-digits fuel (n / 10))
          (ground arith))
]

some_digit :
    (cs : List ℕ) (c : ℕ) → all is_digit (cs ++ c ∷ []) ≡ true → is_decimal (cs ++ c ∷ []) ≡ true
some_digit [] c h = h
some_digit (d ∷ cs) c h = h

pub is_decimal-decimal : (n : ℕ) → is_decimal (decimal n) ≡ true
is_decimal-decimal n = elim (Bool-cases (ltb n 10)) [
  | inl small ↦ ap is_decimal (digits_last n n small) ∙ ground arith
  | inr large ↦
      let digits_all =
        all-append is_digit (digits n (n / 10)) (n % 10 + b'0') (all-digits n (n / 10))
          (ground arith) in
      ap is_decimal (digits_more n n large)
      ∙ some_digit (digits n (n / 10)) (n % 10 + b'0') digits_all
]

abbrev pub power_of_ten : ℕ → ℕ
power_of_ten zero = 1
power_of_ten (suc k) = 10 * power_of_ten k

pub length-digits : (k fuel n : ℕ) → n < power_of_ten (suc k) → length (digits fuel n) ≤ suc k
length-digits k zero n h = omega arith
length-digits zero (suc fuel) n h =
    let one = ap length (digits_last fuel n (ground arith)) in omega arith
length-digits (suc k) (suc fuel) n h = elim (Bool-cases (ltb n 10)) [
  | inl small ↦ let one = ap length (digits_last fuel n small) in omega arith
  | inr large ↦
      let rest = length-digits k fuel (n / 10) (omega arith) in
      let whole = length-append (digits fuel (n / 10)) ((n % 10 + b'0') ∷ []) in
      let more = ap length (digits_more fuel n large) in omega arith
]
