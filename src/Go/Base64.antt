-- ===== src/Go/Base64.antt =====
-- Package `encoding/base64`: `StdEncoding.EncodeToString` and `StdEncoding.DecodeString`.
use jaeger_influxdb.Prelude.{
  ℕ, ◌+◌, ◌-◌, ◌*◌, ◌/◌, ◌%◌, ◌<◌, ◌≡◌, refl, Bool, true, false, ◌&&◌, [], ◌∷◌, Option, none, some,
  arith, Text, All, ltb, leb, nat_eq, if◌then◌else◌, keep, not,
}

-- The letter of a 6-bit number.
letter : ℕ → ℕ
letter n =
    if ltb n 26
    then n + b'A'
    else if ltb n 52
    then n - 26 + b'a'
    else if ltb n 62
    then n - 52 + b'0'
    else if nat_eq n 62
    then b'+'
    else b'/'

-- The 6-bit number of a letter.
value : ℕ → Option ℕ
value c =
    if leb b'A' c && leb c b'Z'
    then some (c - b'A')
    else if leb b'a' c && leb c b'z'
    then some (c - b'a' + 26)
    else if leb b'0' c && leb c b'9'
    then some (c - b'0' + 52)
    else if nat_eq c b'+'
    then some 62
    else if nat_eq c b'/'
    then some 63
    else none

unfoldable pub encode : Text → Text
unfolding letter
encode [] = []
encode (a ∷ []) = letter (a / 4) ∷ letter (a % 4 * 16) ∷ b'=' ∷ b'=' ∷ []
encode (a ∷ b ∷ []) =
    letter (a / 4) ∷ letter (a % 4 * 16 + b / 16) ∷ letter (b % 16 * 4) ∷ b'=' ∷ []
encode (a ∷ b ∷ c ∷ s) =
    letter (a / 4)
    ∷ letter (a % 4 * 16 + b / 16)
    ∷ letter (b % 16 * 4 + c / 64)
    ∷ letter (c % 64)
    ∷ encode s

-- The bytes of four 6-bit numbers.
abbrev first_byte : ℕ → ℕ → ℕ
first_byte p q = p * 4 + q / 16

abbrev second_byte : ℕ → ℕ → ℕ
second_byte q r = q % 16 * 16 + r / 4

abbrev third_byte : ℕ → ℕ → ℕ
third_byte r s = r % 4 * 64 + s

infixl 5 ◌>>=◌
abbrev ◌>>=◌ {ℓ κ} : {A : Type ℓ} {B : Type κ} → Option A → (A → Option B) → Option B
none >>= f = none
some a >>= f = f a

-- A last group of two letters and two pads, or of three letters and one pad.
last_two : ℕ → ℕ → Option Text
unfolding value
last_two a b = do p ← value a; q ← value b; some (first_byte p q ∷ [])

last_three : ℕ → ℕ → ℕ → Option Text
unfolding value
last_three a b c = do
  p ← value a
  q ← value b
  r ← value c
  some (first_byte p q ∷ second_byte q r ∷ [])

whole_group : ℕ → ℕ → ℕ → ℕ → Option Text → Option Text
unfolding value
whole_group a b c d rest = do
  p ← value a
  q ← value b
  r ← value c
  s ← value d
  out ← rest
  some (first_byte p q ∷ second_byte q r ∷ third_byte r s ∷ out)

padded : ℕ → ℕ → ℕ → Option Text
unfolding last_two last_three
padded a b c = if nat_eq c b'=' then last_two a b else last_three a b c

-- Padding is accepted in the last group only.
decode_groups : Text → Option Text
unfolding whole_group padded
decode_groups [] = some []
decode_groups (a ∷ b ∷ c ∷ d ∷ []) =
    if nat_eq d b'=' then padded a b c else whole_group a b c d (some [])
decode_groups (a ∷ b ∷ c ∷ d ∷ s) = whole_group a b c d (decode_groups s)
decode_groups _ = none

-- `DecodeString` skips carriage returns and newlines.
unfoldable pub decode : Text → Option Text
unfolding decode_groups
decode s = decode_groups (keep (λ c. not (nat_eq c b'\r') && not (nat_eq c b'\n')) s)

value-letter : (n : ℕ) → n < 64 → value (letter n) ≡ some n
unfolding value letter
value-letter n h = ground arith

letter_plain :
    (n : ℕ)
    → n < 64
    → (nat_eq (letter n) b'=' ≡ false)
      × (nat_eq (letter n) b'\r' ≡ false)
      × (nat_eq (letter n) b'\n' ≡ false)
unfolding letter
letter_plain n h = ground arith

abbrev pub Byte : ℕ → Type 0
Byte c = c < 256

abbrev plain : ℕ → Bool
plain c = not (nat_eq c b'\r') && not (nat_eq c b'\n')

letter-plain : (n : ℕ) → n < 64 → plain (letter n) ≡ true
letter-plain n h = ground (arith, letter_plain n h)

encode-plain : (s : Text) → All Byte s → All (λ c. plain c ≡ true) (encode s)
unfolding encode
encode-plain [] _ = tt
encode-plain (a ∷ []) (ha, _) = (
  letter-plain (a / 4) (omega arith),
  (letter-plain (a % 4 * 16) (omega arith), (refl, (refl, tt))),
)
encode-plain (a ∷ b ∷ []) (ha, (hb, _)) = (
  letter-plain (a / 4) (omega arith),
  (
    letter-plain (a % 4 * 16 + b / 16) (omega arith),
    (letter-plain (b % 16 * 4) (omega arith), (refl, tt)),
  ),
)
encode-plain (a ∷ b ∷ c ∷ s) (ha, (hb, (hc, hs))) = (
  letter-plain (a / 4) (omega arith),
  (
    letter-plain (a % 4 * 16 + b / 16) (omega arith),
    (
      letter-plain (b % 16 * 4 + c / 64) (omega arith),
      (letter-plain (c % 64) (omega arith), encode-plain s hs),
    ),
  ),
)

keep_all : (s : Text) → All (λ c. plain c ≡ true) s → keep plain s ≡ s
keep_all [] _ = refl
keep_all (c ∷ s) (hc, hs) = ground (arith, keep_all s hs)

last_two-letters :
    (a : ℕ) → Byte a → last_two (letter (a / 4)) (letter (a % 4 * 16)) ≡ some (a ∷ [])
unfolding last_two
last_two-letters a h =
    ground (arith, value-letter (a / 4) (omega arith), value-letter (a % 4 * 16) (omega arith))

last_three-letters :
    (a b : ℕ)
    → Byte a
    → Byte b
    → last_three (letter (a / 4)) (letter (a % 4 * 16 + b / 16)) (letter (b % 16 * 4))
      ≡ some (a ∷ b ∷ [])
unfolding last_three
last_three-letters a b ha hb = ground (
  arith,
  value-letter (a / 4) (omega arith),
  value-letter (a % 4 * 16 + b / 16) (omega arith),
  value-letter (b % 16 * 4) (omega arith),
)

whole_group-letters :
    (a b c : ℕ) (out : Text)
    → Byte a
    → Byte b
    → Byte c
    → whole_group
        (letter (a / 4))
        (letter (a % 4 * 16 + b / 16))
        (letter (b % 16 * 4 + c / 64))
        (letter (c % 64))
        (some out)
      ≡ some (a ∷ b ∷ c ∷ out)
unfolding whole_group
whole_group-letters a b c out ha hb hc =
    rw
      (
        value-letter (a / 4) (omega arith),
        value-letter (a % 4 * 16 + b / 16) (omega arith),
        value-letter (b % 16 * 4 + c / 64) (omega arith),
        value-letter (c % 64) (omega arith),
      )
      (ground arith)

decode_groups-encode : (s : Text) → All Byte s → decode_groups (encode s) ≡ some s
unfolding encode decode_groups
decode_groups-encode [] _ = refl
decode_groups-encode (a ∷ []) (ha, _) = unfold padded in last_two-letters a ha
decode_groups-encode (a ∷ b ∷ []) (ha, (hb, _)) =
    unfold padded in rw (letter_plain (b % 16 * 4) (omega arith)).0 (last_three-letters a b ha hb)
decode_groups-encode (a ∷ b ∷ c ∷ []) (ha, (hb, (hc, _))) =
    rw (letter_plain (c % 64) (omega arith)).0 (whole_group-letters a b c [] ha hb hc)
decode_groups-encode (a ∷ b ∷ c ∷ d ∷ []) (ha, (hb, (hc, hs))) =
    rw (decode_groups-encode (d ∷ []) hs) (whole_group-letters a b c (d ∷ []) ha hb hc)
decode_groups-encode (a ∷ b ∷ c ∷ d ∷ e ∷ []) (ha, (hb, (hc, hs))) =
    rw (decode_groups-encode (d ∷ e ∷ []) hs) (whole_group-letters a b c (d ∷ e ∷ []) ha hb hc)
decode_groups-encode (a ∷ b ∷ c ∷ d ∷ e ∷ f ∷ s) (ha, (hb, (hc, hs))) =
    rw (decode_groups-encode (d ∷ e ∷ f ∷ s) hs)
      (whole_group-letters a b c (d ∷ e ∷ f ∷ s) ha hb hc)

-- Every sequence of bytes is read back from its encoding.
pub decode-encode : (s : Text) → All Byte s → decode (encode s) ≡ some s
unfolding decode
decode-encode s h = rw (keep_all _ (encode-plain s h)) (decode_groups-encode s h)
