-- ===== src/Text/Decimal.antt =====
-- `fmt.Sprintf("%d", i)` and `strconv.Atoi`, at 64 bits.
pub mod RoundTrip
use limiter.Prelude.{
  ℕ, zero, suc, ◌+◌, ◌-◌, ◌*◌, ◌/◌, ◌%◌, ◌^◌, ◌≤◌, ◌<◌, ◌≡◌, refl, Bool, ◌||◌, [], ◌∷◌, ◌++◌,
  Option, none, some, arith, ltb, leb, eqb, if◌then◌else◌, ℤ, pos, negsuc,
}
use limiter.Text.Bytes.{Text, text}

-- With more fuel than the number every digit is written.
digits : ℕ → ℕ → Text
digits zero n = []
digits (suc fuel) n =
    let front = digits fuel (n / 10) in (if ltb n 10 then [] else front) ++ (b'0' + n % 10) ∷ []

unfoldable pub format_nat : ℕ → Text
unfolding digits
format_nat n = digits (suc n) n

unfoldable pub format_int : ℤ → Text
format_int (pos n) = format_nat n
format_int (negsuc n) = b'-' ∷ format_nat (suc n)

pub data NumError : Type 0 where
  syntax out_of_range : NumError

abbrev pub max_u64 : ℕ
max_u64 = 2 ^ 64 - 1

-- The loop of `ParseUint` in base 10.
scan : Text → ℕ → ℕ × Option NumError
scan [] n = (n, none)
scan (c ∷ s) n =
    if ltb c b'0' || ltb b'9' c
    then (0, some syntax)
    else if ltb max_u64 (n * 10 + (c - b'0'))
    then (max_u64, some out_of_range)
    else scan s (n * 10 + (c - b'0'))

parse_uint : Text → ℕ × Option NumError
unfolding scan
parse_uint [] = (0, some syntax)
parse_uint (c ∷ s) = scan (c ∷ s) 0

-- -n, for a magnitude
abbrev pub negate : ℕ → ℤ
negate zero = pos 0
negate (suc n) = negsuc n

-- What `ParseInt` makes of the magnitude: a syntax error gives 0, a value out of range the bound.
signed : Bool → ℕ × Option NumError → ℤ × Option NumError
signed negative (n, some syntax) = (pos 0, some syntax)
signed negative (n, r) =
    if negative
    then (if ltb (2 ^ 63) n then (negate (2 ^ 63), some out_of_range) else (negate n, none))
    else (if leb (2 ^ 63) n then (pos (2 ^ 63 - 1), some out_of_range) else (pos n, none))

unfoldable pub atoi : Text → ℤ × Option NumError
unfolding signed parse_uint
atoi [] = (pos 0, some syntax)
atoi (c ∷ s) =
    if eqb c b'-'
    then signed Bool.true (parse_uint s)
    else if eqb c b'+'
    then signed Bool.false (parse_uint s)
    else signed Bool.false (parse_uint (c ∷ s))

atoi_tests :
    (atoi (text "-42") ≡ (negsuc 41, none))
    × (atoi (text "12x") ≡ (pos 0, some syntax))
    × (atoi (text "9223372036854775808") ≡ (pos (2 ^ 63 - 1), some out_of_range))
    × (format_int (negsuc 41) ≡ text "-42")
unfolding atoi text format_int format_nat
atoi_tests = (refl, refl, refl, refl)
