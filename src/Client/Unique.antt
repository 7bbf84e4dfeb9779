-- ===== src/Client/Unique.antt =====
-- The ids of connections (`generateConnectionID` of gateway/client.go).
use django_websocket_gateway.Common.{
  ℕ, zero, suc, append_assoc, ◌+◌, ◌/◌, ◌%◌, ◌^◌, ◌<◌, [], ◌∷◌, ◌++◌, Bytes, nat_eq, Bool, true,
  false, not, ◌&&◌, ◌==◌, ◌≡◌, ◌∙◌, refl, sym, ap, arith,
}
use django_websocket_gateway.Common.Int.{ℤ}
use django_websocket_gateway.Common.Decimal.{emit, format_nat, format_int}
use django_websocket_gateway.Config.Number.{parse_int64, IsInt64}
use django_websocket_gateway.Config.Number.Laws.{parse_int64-format_int}
use django_websocket_gateway.Client.{to_int64, generate_connection_id}

abbrev no_dash : Bytes → Bool
no_dash [] = true
no_dash (b ∷ s) = not (b == b'-') && no_dash s

no_dash-emit : (f n : ℕ) (out : Bytes) → no_dash out ≡ true → no_dash (emit f n out) ≡ true
unfolding emit
no_dash-emit zero n out h = h
no_dash-emit (suc f) n out h = ground (arith, no_dash-emit f (n / 10) ((b'0' + n % 10) ∷ out))

no_dash-format_nat : (n : ℕ) → no_dash (format_nat n) ≡ true
unfolding format_nat
no_dash-format_nat n = no_dash-emit (suc n) n [] refl

no_dash-dash : (s t : Bytes) → no_dash (s ++ b'-' ∷ t) ≡ false
no_dash-dash [] t = refl
no_dash-dash (b ∷ s) t = ground (arith, no_dash-dash s t)

-- What stands in front of the last dash.
front_lem :
    (s t d e : Bytes) → no_dash d ≡ true → no_dash e ≡ true → s ++ b'-' ∷ d ≡ t ++ b'-' ∷ e → s ≡ t
front_lem [] [] d e x y h = refl
front_lem [] (b ∷ t) d e x y h =
    let same : d ≡ t ++ b'-' ∷ e = cc h in absurd (cc (x, ap no_dash same, no_dash-dash t e))
front_lem (b ∷ s) [] d e x y h =
    let same : s ++ b'-' ∷ d ≡ e = cc h in absurd (cc (y, ap no_dash same, no_dash-dash s d))
front_lem (a ∷ s) (b ∷ t) d e x y h =
    let tails : s ++ b'-' ∷ d ≡ t ++ b'-' ∷ e = cc h in
    let heads : a ≡ b = cc h in let rest = front_lem s t d e x y tails in cc (heads, rest)

format_int-injective : (x y : ℤ) → IsInt64 x → IsInt64 y → format_int x ≡ format_int y → x ≡ y
format_int-injective x y fits fits' h =
    let same =
      sym (parse_int64-format_int x fits) ∙ ap parse_int64 h ∙ parse_int64-format_int y fits' in
    cc same

to_int64-IsInt64 : (v : ℕ) → v < 2 ^ 64 → IsInt64 (to_int64 v)
unfolding to_int64
to_int64-IsInt64 v h = ground arith

to_int64-injective : (v w : ℕ) → v < 2 ^ 64 → w < 2 ^ 64 → to_int64 v ≡ to_int64 w → v ≡ w
unfolding to_int64
to_int64-injective v w h k e = ground arith

connection_id_lem :
    (v now : ℕ)
    → generate_connection_id v now ≡ format_int (to_int64 v) ++ b'-' ∷ format_nat (now % 1000000)
unfolding generate_connection_id format_int
connection_id_lem v now =
    append_assoc (format_int (to_int64 v)) (b'-' ∷ []) (format_nat (now % 1000000))

-- Two counter values of 64 bits that give the same connection id, at whatever times, are the same.
pub generate_connection_id-injective :
    (v w now later : ℕ)
    → v < 2 ^ 64
    → w < 2 ^ 64
    → generate_connection_id v now ≡ generate_connection_id w later
    → v ≡ w
generate_connection_id-injective v w now later h k e = to_int64-injective v w h k (
    format_int-injective (to_int64 v) (to_int64 w) (to_int64-IsInt64 v h) (to_int64-IsInt64 w k) (
      front_lem (format_int (to_int64 v)) (format_int (to_int64 w)) (format_nat (now % 1000000))
        (format_nat (later % 1000000)) (no_dash-format_nat (now % 1000000))
        (no_dash-format_nat (later % 1000000))
        (sym (connection_id_lem v now) ∙ e ∙ connection_id_lem w later)))
