-- ===== src/Text/Decimal/RoundTrip.antt =====
-- `Atoi` of what `%d` writes.
use limiter.Prelude.{
  ℕ, zero, suc, ◌+◌, ◌*◌, ◌/◌, ◌%◌, ◌^◌, ◌≤◌, ◌<◌, ◌≡◌, Bool, [], ◌∷◌, ◌++◌, none, append_assoc,
  append-nil, ◌∙◌, ap, sym, inl, inr, Bool-cases, arith, ltb, ℤ, pos, negsuc,
}
use limiter.Text.Bytes.{Text}
use limiter.Text.Decimal.{digits, format_nat, format_int, max_u64, scan, parse_uint, signed, atoi}

-- Reading one digit more.
scan-digit :
    (n m : ℕ) (rest : Text)
    → m < 10
    → n * 10 + m ≤ max_u64
    → scan ((b'0' + m) ∷ rest) n ≡ scan rest (n * 10 + m)
unfolding scan
scan-digit n m rest h k = ground arith

scan-digits :
    (fuel m : ℕ) (rest : Text)
    → m < fuel
    → m ≤ max_u64
    → scan (digits fuel m ++ rest) 0 ≡ scan rest m
unfolding digits
scan-digits zero m rest h k = elim h [ ]
scan-digits (suc fuel) m rest h k = elim (Bool-cases (ltb m 10)) [
  | inl small ↦
      rw small
        (scan-digit 0 (m % 10) rest (omega arith) (omega arith) ∙ ap (scan rest) (ground arith))
  | inr large ↦
      rw
        (
          large,
          append_assoc,
          scan-digits fuel (m / 10) ((b'0' + m % 10) ∷ rest) (ground arith) (omega arith),
        )
        (scan-digit (m / 10) (m % 10) rest (omega arith) (omega arith)
          ∙ ap (scan rest) (omega arith))
]

digits-nonempty :
    (fuel m : ℕ) → (c : ℕ) × (s : Text) × (digits (suc fuel) m ≡ c ∷ s) × (b'0' ≤ c) × (c ≤ b'9')
unfolding digits
digits-nonempty zero m = elim (Bool-cases (ltb m 10)) [
  | inl small ↦ (b'0' + m % 10, [], rw small, omega arith, omega arith)
  | inr large ↦ (b'0' + m % 10, [], rw large, omega arith, omega arith)
]
digits-nonempty (suc fuel) m = elim (Bool-cases (ltb m 10)) [
  | inl small ↦ (b'0' + m % 10, [], rw small, omega arith, omega arith)
  | inr large ↦
      (let (c, s, e, lo, hi) = digits-nonempty fuel (m / 10) in
        (c, s ++ (b'0' + m % 10) ∷ [], rw large (rw e), lo, hi))
]

format_nat-digits :
    (n : ℕ) → (c : ℕ) × (s : Text) × (format_nat n ≡ c ∷ s) × (b'0' ≤ c) × (c ≤ b'9')
unfolding format_nat
format_nat-digits n = digits-nonempty n n

scan-format_nat : (n : ℕ) → n ≤ max_u64 → scan (format_nat n) 0 ≡ (n, none)
unfolding format_nat scan
scan-format_nat n h =
    ap (λ t. scan t 0) (sym (append-nil (digits (suc n) n)))
    ∙ scan-digits (suc n) n [] (omega arith) h

parse_uint-format_nat : (n : ℕ) → n ≤ max_u64 → parse_uint (format_nat n) ≡ (n, none)
unfolding parse_uint
parse_uint-format_nat n h =
    let (c, s, e, _, _) = format_nat-digits n in rw e (rw e at (scan-format_nat n h))

-- A digit is no sign.
atoi-digit :
    (c : ℕ) (s : Text) → b'0' ≤ c → c ≤ b'9' → atoi (c ∷ s) ≡ signed Bool.false (parse_uint (c ∷ s))
unfolding atoi
atoi-digit c s lo hi = ground arith

-- The integers of Go's `int`.
abbrev pub FitsInt : ℤ → Type 0
FitsInt (pos n) = n < 2 ^ 63
FitsInt (negsuc n) = n < 2 ^ 63

atoi-format_nat : (n : ℕ) → n < 2 ^ 63 → atoi (format_nat n) ≡ (pos n, none)
unfolding signed
atoi-format_nat n h =
    let (c, s, e, lo, hi) = format_nat-digits n in
    rw e (atoi-digit c s lo hi)
    ∙ ap (signed Bool.false) (ap parse_uint (sym e) ∙ parse_uint-format_nat n (omega arith))
    ∙ ground arith

atoi-negative : (n : ℕ) → n < 2 ^ 63 → atoi (b'-' ∷ format_nat (suc n)) ≡ (negsuc n, none)
unfolding atoi signed
atoi-negative n h = rw (parse_uint-format_nat (suc n) (omega arith)) (ground arith)

pub atoi-format_int : (i : ℤ) → FitsInt i → atoi (format_int i) ≡ (i, none)
unfolding format_int
atoi-format_int (pos n) h = atoi-format_nat n h
atoi-format_int (negsuc n) h = atoi-negative n h
