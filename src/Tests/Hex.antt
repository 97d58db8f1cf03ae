-- ===== src/Tests/Hex.antt =====
-- IDs in hexadecimal digits, the most significant first: functions for which the laws on the IDs
-- hold.
use jaeger_influxdb.Prelude.{
  ℕ, zero, suc, ◌+◌, ◌*◌, ◌/◌, ◌%◌, ◌<◌, ◌≡◌, refl, ap, [], ◌∷◌, ◌++◌, Option, none, some, Text,
  All, All-append, length, length-append, ◌-◌, ◌&&◌, ◌^◌, if◌then◌else◌, arith, ltb, leb,
}
use jaeger_influxdb.Prelude.Int.{two64}
use jaeger_influxdb.Dbmodel.Model.{TraceId, IsHex, Ids, IdLaws}

abbrev pub digit : ℕ → ℕ
digit n = if ltb n 10 then b'0' + n else n + 87

digit_value : ℕ → Option ℕ
digit_value c =
    if leb b'0' c && leb c b'9'
    then some (c - b'0')
    else if leb b'a' c && leb c b'f'
    then some (c - 87)
    else none

digit_value-digit : (n : ℕ) → n < 16 → digit_value (digit n) ≡ some n
unfolding digit_value
digit_value-digit n h = ground arith

digit-IsHex : (n : ℕ) → n < 16 → IsHex (digit n)
digit-IsHex n h = ground arith

unfoldable pub print_hex : ℕ → ℕ → Text
print_hex zero n = []
print_hex (suc width) n = print_hex width (n / 16) ++ digit (n % 16) ∷ []

place : Option ℕ → Option ℕ → Option ℕ
place none n = none
place (some d) none = none
place (some d) (some n) = some (d + 16 * n)

-- The value of digits, the least significant first.
unfoldable pub value_of : Text → Option ℕ
unfolding place digit_value
value_of [] = some 0
value_of (c ∷ s) = place (digit_value c) (value_of s)

unfoldable pub backwards : Text → Text
backwards [] = []
backwards (c ∷ s) = backwards s ++ c ∷ []

backwards-append : (s : Text) (c : ℕ) → backwards (s ++ c ∷ []) ≡ c ∷ backwards s
unfolding backwards
backwards-append [] c = refl
backwards-append (d ∷ s) c = rw (backwards-append s c) refl

value_of-print_hex :
    (width n : ℕ) (top : ℕ)
    → top ≡ 16 ^ width
    → n < top
    → value_of (backwards (print_hex width n)) ≡ some n
unfolding print_hex value_of
value_of-print_hex zero n top e h = unfold backwards in ap some (omega arith)
value_of-print_hex (suc width) n top e h =
    let ih = value_of-print_hex width (n / 16) (16 ^ width) refl (omega arith) in
    rw
      (
        backwards-append (print_hex width (n / 16)) (digit (n % 16)),
        digit_value-digit (n % 16) (omega arith),
        ih,
      )
      (ap some (omega arith))

length-print_hex : (width n : ℕ) → length (print_hex width n) ≡ width
unfolding print_hex
length-print_hex zero n = refl
length-print_hex (suc width) n = omega (
  arith,
  length-append (print_hex width (n / 16)) (digit (n % 16) ∷ []),
  length-print_hex width (n / 16),
)

print_hex-IsHex : (width n : ℕ) → All IsHex (print_hex width n)
unfolding print_hex
print_hex-IsHex zero n = tt
print_hex-IsHex (suc width) n =
    All-append IsHex (print_hex width (n / 16)) (digit (n % 16) ∷ [])
      (print_hex-IsHex width (n / 16)) (digit-IsHex (n % 16) (omega arith), tt)

unfoldable pub below : ℕ → Option ℕ → Option ℕ
below top none = none
below top (some n) = if ltb n top then some n else none

below_bound : (o : Option ℕ) (n : ℕ) → below two64 o ≡ some n → n < two64
unfolding below
below_bound none n e = cc
below_bound (some m) n e = ground arith

unfoldable pub halves : Option ℕ → Option TraceId
halves none = none
halves (some n) = some (record { high = n / two64; low = n % two64 })

abbrev pub hex_ids : Ids
hex_ids = record {
  span_id_string = λ n. print_hex 16 n;
  span_id_from_string = λ s. below two64 (value_of (backwards s));
  trace_id_string = λ t. print_hex 32 (t.high * two64 + t.low);
  trace_id_from_string = λ s. halves (value_of (backwards s));
}

halves_eq :
    (t : TraceId) → t.high < two64 → t.low < two64 → halves (some (t.high * two64 + t.low)) ≡ some t
unfolding halves
halves_eq t hh hl =
    let h : (t.high * two64 + t.low) / two64 ≡ t.high = omega arith in
    let l : (t.high * two64 + t.low) % two64 ≡ t.low = omega arith in rw (h, l) refl

below_eq : (n : ℕ) → n < two64 → below two64 (some n) ≡ some n
unfolding below
below_eq n h = ground arith

pub hex_ids-IdLaws : IdLaws hex_ids
hex_ids-IdLaws = record {
  span_id = λ n h. rw (value_of-print_hex 16 n two64 refl h) (below_eq n h);
  span_id_bound = λ s {n} e. below_bound (value_of (backwards s)) n e;
  span_id_width = λ n h. length-print_hex 16 n;
  span_id_hex = λ n. print_hex-IsHex 16 n;
  trace_id = λ t hh hl.
      rw (value_of-print_hex 32 (t.high * two64 + t.low) (two64 * two64) refl (omega arith))
        (halves_eq t hh hl);
}
