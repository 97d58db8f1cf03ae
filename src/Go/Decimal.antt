-- ===== src/Go/Decimal.antt =====
-- Package `strconv`: `FormatInt` and `ParseInt` in base 10 for 64 bits.
use jaeger_influxdb.Prelude.{
  ℕ, zero, suc, ◌+◌, ◌-◌, ◌*◌, ◌/◌, ◌%◌, ◌≤◌, ◌<◌, ◌≡◌, refl, Bool, true, false, ◌||◌, [], ◌∷◌,
  Option, none, some, arith, Text, ltb, ltb→lt, nat_eq, if◌then◌else◌, Bool-cases, inl, inr, ◌∙◌,
}
use jaeger_influxdb.Prelude.Int.{ℤ, pos, negsuc, two63, Int64}

-- Each round writes the last digit; there are at most as many rounds as the number is large.
digits : ℕ → ℕ → Text → Text
digits zero n out = out
digits (suc fuel) n out =
    let more = digits fuel (n / 10) ((b'0' + n % 10) ∷ out) in
    if ltb n 10 then (b'0' + n) ∷ out else more

unfoldable pub format_nat : ℕ → Text
unfolding digits
format_nat n = digits (suc n) n []

unfoldable pub format_int : ℤ → Text
unfolding format_nat
format_int (pos n) = format_nat n
format_int (negsuc n) = b'-' ∷ format_nat (suc n)

scan : Text → ℕ → Option ℕ
scan [] n = some n
scan (c ∷ s) n = if ltb c b'0' || ltb b'9' c then none else scan s (n * 10 + (c - b'0'))

unfoldable pub parse_nat : Text → Option ℕ
unfolding scan
parse_nat [] = none
parse_nat (c ∷ s) = scan (c ∷ s) 0

-- The value with its sign, if it fits in an `int64`.
signed : Bool → Option ℕ → Option ℤ
signed sign none = none
signed false (some n) = if ltb n two63 then some (pos n) else none
signed true (some zero) = some (pos 0)
signed true (some (suc n)) = if ltb n two63 then some (negsuc n) else none

unfoldable pub parse_int : Text → Option ℤ
unfolding signed parse_nat
parse_int [] = none
parse_int (c ∷ s) =
    if nat_eq c b'-'
    then signed true (parse_nat s)
    else if nat_eq c b'+'
    then signed false (parse_nat s)
    else signed false (parse_nat (c ∷ s))

scan-digits : (fuel n : ℕ) (out : Text) → n < fuel → scan (digits fuel n out) 0 ≡ scan out n
unfolding scan digits
scan-digits zero n out h = elim h [ ]
scan-digits (suc fuel) n out h = ground (arith, scan-digits fuel (n / 10) ((b'0' + n % 10) ∷ out))

-- A print begins with a digit.
pub record HasDigit (s : Text) : Type 0 where
  pub head : ℕ
  pub rest : Text
  pub splits : s ≡ head ∷ rest
  pub low : b'0' ≤ head
  pub high : head ≤ b'9'

digits-HasDigit : (fuel n : ℕ) (out : Text) → n < fuel → HasDigit (digits fuel n out)
unfolding digits
digits-HasDigit zero n out h = elim h [ ]
digits-HasDigit (suc fuel) n out h = elim (Bool-cases (ltb n 10)) [
  | inl small ↦ record {
    head = b'0' + n;
    rest = out;
    splits = rw small;
    low = omega arith;
    high = omega (arith, ltb→lt n 10 small);
  }
  | inr large ↦
      let ih = digits-HasDigit fuel (n / 10) ((b'0' + n % 10) ∷ out) (ground arith) in
      record {
        head = ih.head;
        rest = ih.rest;
        splits = rw large ih.splits;
        low = ih.low;
        high = ih.high;
      }
]

pub format_nat-HasDigit : (n : ℕ) → HasDigit (format_nat n)
unfolding format_nat
format_nat-HasDigit n = digits-HasDigit (suc n) n [] (omega arith)

parse_nat-scan : (s : Text) → HasDigit s → parse_nat s ≡ scan s 0
unfolding parse_nat
parse_nat-scan [] h = absurd (cc h.splits)
parse_nat-scan (c ∷ s) h = refl

-- Every number is read back from its print.
pub parse_nat-format_nat : (n : ℕ) → parse_nat (format_nat n) ≡ some n
unfolding format_nat
parse_nat-format_nat n =
    parse_nat-scan _ (digits-HasDigit (suc n) n [] (omega arith))
    ∙ scan-digits (suc n) n [] (omega arith)
    ∙ (unfold scan in refl)

parse_int-digit : (s : Text) → HasDigit s → parse_int s ≡ signed false (parse_nat s)
unfolding parse_int
parse_int-digit [] h = absurd (cc h.splits)
parse_int-digit (c ∷ s) h = unfold parse_nat in ground (arith, h.splits, h.low, h.high)

-- Every `int64` is read back from its print.
pub parse_int-format_int : (a : ℤ) → Int64 a → parse_int (format_int a) ≡ some a
unfolding format_int signed
parse_int-format_int (pos n) h =
    parse_int-digit _ (digits-HasDigit (suc n) n [] (omega arith))
    ∙ rw parse_nat-format_nat (ground arith)
parse_int-format_int (negsuc n) h = unfold parse_int in rw parse_nat-format_nat (ground arith)
