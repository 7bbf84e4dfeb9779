-- ===== src/Config/Number/Laws.antt =====
-- Printing and reading numbers, and their bounds.
use django_websocket_gateway.Common.{
  ℕ, zero, suc, ◌+◌, ◌-◌, ◌*◌, ◌/◌, ◌%◌, ◌≤◌, ◌<◌, [], ◌∷◌, Bytes, nat_eq, ◌≡◌, ◌∙◌, true, false,
  refl, sym, Bool-cases, inl, inr, ltb, ap, arith,
}
use django_websocket_gateway.Common.Int.{ℤ, pos, negsuc}
use django_websocket_gateway.Common.Decimal.{emit, format_nat, format_int}
use django_websocket_gateway.Config.Number.{
  parsed, scan, parse_uint64, parse_int64, with_sign, is_digit, max_uint64, IsInt64,
}

-- Reading the digits of a number, and then what stands behind them.
scan-emit : (f n : ℕ) (out : Bytes) → n < f → n ≤ max_uint64 → scan 0 (emit f n out) ≡ scan n out
unfolding emit scan
scan-emit zero n out h fits = absurd (omega arith)
scan-emit (suc f) n out h fits =
    let digit : n / 10 * 10 + (b'0' + n % 10 - b'0') ≡ n = omega arith in
    let last : 0 * 10 + (b'0' + n - b'0') ≡ n = omega arith in
    ground (
      arith,
      scan-emit f (n / 10) ((b'0' + n % 10) ∷ out),
      ap (λ k. scan k out) digit,
      ap (λ k. scan k out) last,
    )

-- A printed number begins with a digit.
emit_front :
    (f n : ℕ) (out : Bytes)
    → n < f
    → (c : ℕ) × (s : Bytes) × (emit f n out ≡ c ∷ s) × (is_digit c ≡ true)
unfolding emit
emit_front zero n out h = absurd (omega arith)
emit_front (suc f) n out h = elim (Bool-cases (ltb n 10)) [
  | inl one ↦ (b'0' + n, out, rw one refl, ground arith)
  | inr more ↦
      let (c, s, e, d) = emit_front f (n / 10) ((b'0' + n % 10) ∷ out) (ground arith) in
      (c, s, rw more e, d)
]

format_nat_front : (n : ℕ) → (c : ℕ) × (s : Bytes) × (format_nat n ≡ c ∷ s) × (is_digit c ≡ true)
unfolding format_nat
format_nat_front n = emit_front (suc n) n [] (omega arith)

scan-format_nat : (n : ℕ) → n ≤ max_uint64 → scan 0 (format_nat n) ≡ parsed n
unfolding format_nat scan
scan-format_nat n fits = scan-emit (suc n) n [] (omega arith) fits

parse_uint64-format_nat : (n : ℕ) → n ≤ max_uint64 → parse_uint64 (format_nat n) ≡ parsed n
unfolding parse_uint64
parse_uint64-format_nat n fits =
    let (c, s, e, _) = format_nat_front n in rw e (ap (scan 0) (sym e) ∙ scan-format_nat n fits)

parse_int64-digit :
    (c : ℕ) (s : Bytes)
    → is_digit c ≡ true
    → parse_int64 (c ∷ s) ≡ with_sign false (parse_uint64 (c ∷ s))
unfolding parse_int64
parse_int64-digit c s d = ground arith

parse_int64-format_nat :
    (n : ℕ) → parse_int64 (format_nat n) ≡ with_sign false (parse_uint64 (format_nat n))
parse_int64-format_nat n = let (c, s, e, d) = format_nat_front n in rw e (parse_int64-digit c s d)

parse_int64_minus : (s : Bytes) → parse_int64 (b'-' ∷ s) ≡ with_sign true (parse_uint64 s)
unfolding parse_int64
parse_int64_minus s = refl

-- Every integer of 64 bits is read back from its decimal print.
pub parse_int64-format_int : (z : ℤ) → IsInt64 z → parse_int64 (format_int z) ≡ parsed z
unfolding format_int
parse_int64-format_int (pos n) h =
    ground (arith, parse_int64-format_nat n, parse_uint64-format_nat n)
parse_int64-format_int (negsuc n) h =
    ground (arith, parse_int64_minus (format_nat (suc n)), parse_uint64-format_nat (suc n))
