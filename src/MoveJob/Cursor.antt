-- ===== src/MoveJob/Cursor.antt =====
-- move_job/service.py: the opaque cursor of a list of jobs, as ASCII codes.
use seqret_be.Prelude.{
  ℕ, suc, ◌-◌, ◌^◌, ◌≤◌, Bool, true, false, not, ◌&&◌, ◌||◌, Option, none, some, List, [], ◌∷◌,
  ◌++◌, ◌≡◌, refl, ap, ◌∙◌, arith, ltb, ◌==◌, if◌then◌else◌, length,
}
use seqret_be.Prelude.Text.{all}
use seqret_be.Prelude.Transaction.{Result, ok, err, value_error}
use seqret_be.MoveJob.Base64.{encode64, decode64, padded, strip_pads, is_empty}
use seqret_be.MoveJob.Base64.RoundTrip.{AreBytes, decode64-padded, length-stripped}
use seqret_be.MoveJob.Decimal.{
  decimal, is_digit, is_decimal, int_of, int_of-decimal, is_decimal-decimal, all-digits,
  length-digits,
}

-- `_MAX_LIST_CURSOR_OFFSET`
abbrev pub max_list_cursor_offset : ℕ
max_list_cursor_offset = 2 ^ 63 - 1

abbrev pub v1 : List ℕ
v1 = b'v' ∷ b'1' ∷ []

-- `_encode_list_cursor`
unfoldable pub encode_list_cursor : ℕ → List ℕ
encode_list_cursor offset = strip_pads (encode64 (v1 ++ b':' ∷ decimal offset))

-- `payload.split(":", maxsplit=1)`, if there is a colon
abbrev pub after_first : Option (List ℕ × List ℕ) → ℕ → Option (List ℕ × List ℕ)
after_first none c = none
after_first (some (before, after)) c = some (c ∷ before, after)

abbrev pub split_colon : List ℕ → Option (List ℕ × List ℕ)
split_colon [] = none
split_colon (c ∷ text) =
    let rest = split_colon text in if c == b':' then some ([], text) else after_first rest c

abbrev pub same_codes : List ℕ → List ℕ → Bool
same_codes [] [] = true
same_codes (x ∷ xs) (y ∷ ys) = x == y && same_codes xs ys
same_codes _ _ = false

abbrev pub is_ascii : ℕ → Bool
is_ascii c = ltb c 128

-- `_decode_list_cursor`
unfoldable pub decode_list_cursor : List ℕ → Result ℕ
decode_list_cursor cursor =
    if is_empty cursor || ltb 256 (length cursor)
    then err value_error
    else elim (decode64 (padded cursor)) [
      | none ↦ err value_error
      | some payload ↦
          if not (all is_ascii payload) then err value_error else elim (split_colon payload) [
            | none ↦ err value_error
            | some (version, offset_value) ↦
                if not (same_codes version v1) || not (is_decimal offset_value)
                then err value_error
                else let offset = int_of offset_value in
                  if ltb max_list_cursor_offset offset then err value_error else ok offset
          ]
    ]

abbrev payload_of : ℕ → List ℕ
payload_of offset = v1 ++ b':' ∷ decimal offset

digits_in_range :
    (p : ℕ → Bool) (xs : List ℕ)
    → ((c : ℕ) → is_digit c ≡ true → p c ≡ true)
    → all is_digit xs ≡ true
    → all p xs ≡ true
digits_in_range p [] f h = refl
digits_in_range p (x ∷ xs) f h =
    let here = f x (ground arith) in
    let rest = digits_in_range p xs f (ground arith) in ground (arith, here, rest)

digits_AreBytes : (xs : List ℕ) → all is_digit xs ≡ true → AreBytes xs
digits_AreBytes [] h = tt
digits_AreBytes (x ∷ xs) h = (ground arith, digits_AreBytes xs (ground arith))

payload_bytes : (offset : ℕ) → AreBytes (payload_of offset)
payload_bytes offset = (
  omega arith,
  (omega arith, (omega arith, digits_AreBytes (decimal offset) (all-digits (suc offset) offset))),
)

payload_ascii : (offset : ℕ) → all is_ascii (payload_of offset) ≡ true
payload_ascii offset =
    digits_in_range is_ascii (decimal offset) (λ c h. ground arith) (all-digits (suc offset) offset)

encoded_length :
    (offset : ℕ) → offset ≤ max_list_cursor_offset → length (encode_list_cursor offset) ≤ 30
unfolding encode_list_cursor
encoded_length offset h =
    let few = length-digits 18 (suc offset) offset (omega arith) in
    let short = length-stripped (payload_of offset) (payload_bytes offset) in omega arith

encoded_not_empty : (offset : ℕ) → is_empty (encode_list_cursor offset) ≡ false
unfolding encode_list_cursor
encoded_not_empty offset = refl

payload_read :
    (offset : ℕ) → decode64 (padded (encode_list_cursor offset)) ≡ some (payload_of offset)
unfolding encode_list_cursor
payload_read offset = decode64-padded (payload_of offset) (payload_bytes offset)

-- A text whose parts pass every test.
decodes :
    (cursor payload version text : List ℕ)
    → (is_empty cursor || ltb 256 (length cursor)) ≡ false
    → decode64 (padded cursor) ≡ some payload
    → all is_ascii payload ≡ true
    → split_colon payload ≡ some (version, text)
    → (not (same_codes version v1) || not (is_decimal text)) ≡ false
    → ltb max_list_cursor_offset (int_of text) ≡ false
    → decode_list_cursor cursor ≡ ok (int_of text)
unfolding decode_list_cursor
decodes cursor payload version text fits read ascii split valid bounded =
    rw fits (rw read (rw ascii (rw split (rw valid (rw bounded refl)))))

-- An offset of at most the largest is encoded to a cursor that is accepted and decoded to it.
pub decode_list_cursor-encode_list_cursor :
    (offset : ℕ)
    → offset ≤ max_list_cursor_offset
    → decode_list_cursor (encode_list_cursor offset) ≡ ok offset
decode_list_cursor-encode_list_cursor offset h =
    let few = encoded_length offset h in
    let value = int_of-decimal offset in
    let digits_ = is_decimal-decimal offset in
    let bounded : ltb max_list_cursor_offset (int_of (decimal offset)) ≡ false =
      ap (ltb max_list_cursor_offset) value ∙ ground arith in
    let fits : ltb 256 (length (encode_list_cursor offset)) ≡ false = ground arith in
    decodes (encode_list_cursor offset) (payload_of offset) v1 (decimal offset)
      (ap (λ b. b || ltb 256 (length (encode_list_cursor offset))) (encoded_not_empty offset)
        ∙ fits)
      (payload_read offset) (payload_ascii offset) refl (ap not digits_) bounded
    ∙ ap ok value
