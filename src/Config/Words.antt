-- ===== src/Config/Words.antt =====
-- What gateway/config.go takes from the package strings: `Split`, `TrimSpace` and `ToLower`, on the
-- bytes of a text in UTF-8.
pub mod Laws
use mathlib.Core.List.{reverse}
use django_websocket_gateway.Common.{
  ℕ, ◌+◌, List, [], ◌∷◌, Bytes, nat_eq, Bool, false, ◌&&◌, ◌||◌, ◌==◌, leb, if◌then◌else◌,
}

-- The first of some parts gets one more byte in front; there is always a first.
abbrev pub widen : ℕ → List Bytes → List Bytes
widen b [] = (b ∷ []) ∷ []
widen b (part ∷ parts) = (b ∷ part) ∷ parts

-- `strings.Split(s, sep)` at a separator of one byte.
unfoldable pub split : ℕ → Bytes → List Bytes
split sep [] = [] ∷ []
split sep (b ∷ s) = let rest = split sep s in if b == sep then [] ∷ rest else widen b rest

-- `unicode.IsSpace`, for the characters of one, two and three bytes.
abbrev pub is_space : ℕ → Bool
is_space a = a == 0x20 || (leb 0x09 a && leb a 0x0d)

abbrev pub is_space_2 : ℕ → ℕ → Bool
is_space_2 a b = a == 0xc2 && (b == 0x85 || b == 0xa0)

abbrev pub is_space_3 : ℕ → ℕ → ℕ → Bool
is_space_3 a b c =
    (a == 0xe1 && b == 0x9a && c == 0x80)
    || (a == 0xe2 && b == 0x80 && (leb 0x80 c && leb c 0x8a || c == 0xa8 || c == 0xa9 || c == 0xaf))
    || (a == 0xe2 && b == 0x81 && c == 0x9f)
    || (a == 0xe3 && b == 0x80 && c == 0x80)

-- The white space in front is dropped, one character after the other.
module _ (space_2 : ℕ → ℕ → Bool) (space_3 : ℕ → ℕ → ℕ → Bool) where
  unfoldable pub trim_front : Bytes → Bytes
  trim_front [] = []
  trim_front (a ∷ []) = if is_space a then [] else a ∷ []
  trim_front (a ∷ b ∷ []) =
      let one = trim_front (b ∷ []) in
      if is_space a then one else if space_2 a b then [] else a ∷ b ∷ []
  trim_front (a ∷ b ∷ c ∷ s) =
      let one = trim_front (b ∷ c ∷ s) in
      let two = trim_front (c ∷ s) in
      let three = trim_front s in
      if is_space a
      then one
      else if space_2 a b
      then two
      else if space_3 a b c
      then three
      else a ∷ b ∷ c ∷ s

abbrev pub trim_left : Bytes → Bytes
trim_left = trim_front is_space_2 is_space_3

-- The same from the end: the bytes of each character are met in the opposite order.
abbrev pub trim_right : Bytes → Bytes
trim_right s = reverse (trim_front (λ a b. is_space_2 b a) (λ a b c. is_space_3 c b a) (reverse s))

-- `strings.TrimSpace`
unfoldable pub trim_space : Bytes → Bytes
unfolding trim_front
trim_space s = trim_right (trim_left s)

abbrev pub lower : ℕ → ℕ
lower a = if leb b'A' a && leb a b'Z' then a + 32 else a

-- `strings.ToLower`, as far as it yields ASCII: the letters A to Z, and the two other characters whose
-- lower case is ASCII, U+0130 (an i) and U+212A (a k). Other characters are left alone; neither they
-- nor their lower cases are ASCII.
unfoldable pub to_lower : Bytes → Bytes
to_lower [] = []
to_lower (a ∷ []) = lower a ∷ []
to_lower (a ∷ b ∷ []) =
    let one = to_lower (b ∷ []) in if a == 0xc4 && b == 0xb0 then b'i' ∷ [] else lower a ∷ one
to_lower (a ∷ b ∷ c ∷ s) =
    let one = to_lower (b ∷ c ∷ s) in
    let two = to_lower (c ∷ s) in
    let three = to_lower s in
    if a == 0xc4 && b == 0xb0
    then b'i' ∷ two
    else if a == 0xe2 && b == 0x84 && c == 0xaa
    then b'k' ∷ three
    else lower a ∷ one
