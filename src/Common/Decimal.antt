-- ===== src/Common/Decimal.antt =====
-- `strconv.FormatInt(id, 10)`, which `formatUserID` of gateway/hub.go calls.
use Prim.Native.Nat.{ℕ, zero, suc, ◌+◌, ◌-◌, ◌*◌, ◌/◌, ◌%◌, ◌<◌}
use mathlib.Core.Path.{◌≡◌, ap, ◌∙◌, sym}
use mathlib.Core.Logic.{◌≢◌}
use mathlib.Core.List.{[], ◌∷◌}
use native.Mathlib.Omega.{arith}
use django_websocket_gateway.Common.Compare.{ltb, if◌then◌else◌}
use django_websocket_gateway.Common.Int.{ℤ, pos, negsuc}
use django_websocket_gateway.Common.Text.{Bytes}

-- The digits of `n` in front of `out`; the first argument is fuel.
unfoldable pub emit : ℕ → ℕ → Bytes → Bytes
emit zero n out = out
emit (suc f) n out =
    let rest = emit f (n / 10) ((b'0' + n % 10) ∷ out) in
    if ltb n 10 then (b'0' + n) ∷ out else rest

-- The fuel is one more than the number, and each round divides it by ten.
unfoldable pub format_nat : ℕ → Bytes
unfolding emit
format_nat n = emit (suc n) n []

unfoldable pub format_int : ℤ → Bytes
unfolding format_nat
format_int (pos n) = format_nat n
format_int (negsuc n) = b'-' ∷ format_nat (suc n)

-- The number that the digits spell behind `n`.
pub value : ℕ → Bytes → ℕ
value n [] = n
value n (c ∷ s) = value (n * 10 + (c - b'0')) s

value-emit : (f n : ℕ) (out : Bytes) → n < f → value 0 (emit f n out) ≡ value n out
unfolding emit value
value-emit zero n out h = absurd (omega arith)
value-emit (suc f) n out h =
    let digit : n / 10 * 10 + (b'0' + n % 10 - b'0') ≡ n = omega arith in
    let last : 0 * 10 + (b'0' + n - b'0') ≡ n = omega arith in
    ground (
      arith,
      value-emit f (n / 10) ((b'0' + n % 10) ∷ out),
      ap (λ k. value k out) digit,
      ap (λ k. value k out) last,
    )

-- The digits that are printed for a number spell that number.
pub value-format_nat : (n : ℕ) → value 0 (format_nat n) ≡ n
unfolding format_nat value
value-format_nat n = value-emit (suc n) n [] (omega arith)

format_nat-injective : (m n : ℕ) → format_nat m ≡ format_nat n → m ≡ n
format_nat-injective m n h = sym (value-format_nat m) ∙ ap (value 0) h ∙ value-format_nat n

-- The first byte is a digit, so no number is printed like a negative one.
emit-ne-minus : (f n : ℕ) (out s : Bytes) → n < f → emit f n out ≢ b'-' ∷ s
unfolding emit
emit-ne-minus zero n out s h = absurd (omega arith)
emit-ne-minus (suc f) n out s h = ground (arith, emit-ne-minus f (n / 10) ((b'0' + n % 10) ∷ out) s)

pub format_int-injective : (a b : ℤ) → format_int a ≡ format_int b → a ≡ b
unfolding format_int
format_int-injective (pos m) (pos n) h = ap pos (format_nat-injective m n h)
format_int-injective (pos m) (negsuc n) h = absurd (emit-ne-minus (suc m) m [] _ (omega arith) h)
format_int-injective (negsuc m) (pos n) h =
    absurd (emit-ne-minus (suc n) n [] _ (omega arith) (sym h))
format_int-injective (negsuc m) (negsuc n) h = ground (arith, format_nat-injective (suc m) (suc n))
