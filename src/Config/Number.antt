-- ===== src/Config/Number.antt =====
-- What gateway/config.go takes from the package strconv: `Atoi` and `ParseInt(s, 10, 64)`. They
-- accept the same texts, since `int` has 64 bits on the platforms that the gateway is built for.
pub mod Laws
use django_websocket_gateway.Common.{
  ℕ, ◌+◌, ◌-◌, ◌*◌, ◌^◌, ◌≤◌, ◌<◌, [], ◌∷◌, Bytes, nat_eq, Bool, ◌&&◌, ◌==◌, ltb, leb,
  if◌then◌else◌,
}
use django_websocket_gateway.Common.Int.{ℤ, pos, negsuc}

-- `strconv.ErrSyntax` and `strconv.ErrRange`
pub data NumError : Type 0 where
  syntax range : NumError

pub data Parsed {ℓ} (A : Type ℓ) : Type ℓ where
  parsed : A → Parsed A
  unparsed : NumError → Parsed A

abbrev pub max_uint64 : ℕ
max_uint64 = 2 ^ 64 - 1

abbrev pub is_digit : ℕ → Bool
is_digit c = leb b'0' c && leb c b'9'

-- The loop of `ParseUint`: at a byte that is no digit, or where the number gets too large, it ends.
unfoldable pub scan : ℕ → Bytes → Parsed ℕ
scan n [] = parsed n
scan n (c ∷ s) =
    let m = n * 10 + (c - b'0') in
    let rest = scan m s in
    if is_digit c then (if ltb max_uint64 m then unparsed range else rest) else unparsed syntax

unfoldable pub parse_uint64 : Bytes → Parsed ℕ
unfolding scan
parse_uint64 [] = unparsed syntax
parse_uint64 (c ∷ s) = scan 0 (c ∷ s)

abbrev pub negate : ℕ → ℤ
negate n = if n == 0 then pos 0 else negsuc (n - 1)

abbrev pub with_sign : Bool → Parsed ℕ → Parsed ℤ
with_sign negative (unparsed e) = unparsed e
with_sign Bool.false (parsed n) = if leb (2 ^ 63) n then unparsed range else parsed (pos n)
with_sign Bool.true (parsed n) = if ltb (2 ^ 63) n then unparsed range else parsed (negate n)

unfoldable pub parse_int64 : Bytes → Parsed ℤ
unfolding parse_uint64
parse_int64 [] = unparsed syntax
parse_int64 (c ∷ s) =
    if c == b'+'
    then with_sign Bool.false (parse_uint64 s)
    else if c == b'-'
    then with_sign Bool.true (parse_uint64 s)
    else with_sign Bool.false (parse_uint64 (c ∷ s))

-- The integers of 64 bits.
abbrev pub IsInt64 : ℤ → Type 0
IsInt64 (pos n) = n < 2 ^ 63
IsInt64 (negsuc n) = n < 2 ^ 63
