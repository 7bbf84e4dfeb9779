-- ===== src/Hub/ChannelName.antt =====
-- gateway/hub.go: the regular expression of channel names, by what a regular expression matches.
use django_websocket_gateway.Common.{
  ℕ, suc, ◌≤◌, List, [], ◌∷◌, ◌++◌, map, Bytes, bytes_eq, nat_eq, true, ◌≡◌, ◌⊎◌, ◌↔◌, ◌&&◌, ◌==◌,
  refl, ap, inl, inr, arith, All, length, leb, Bool-cases,
}
use django_websocket_gateway.Hub.Handlers.{
  is_channel_byte, all_channel_bytes, matches_channel_regex,
}

-- A byte in a range, one of two, and at least so many and at most so many in a row.
pub data Regex : Type 0 where
  range : ℕ → ℕ → Regex
  alt : Regex → Regex → Regex
  repeat : ℕ → ℕ → Regex → Regex

abbrev pub concat : List Bytes → Bytes
concat [] = []
concat (s ∷ ss) = s ++ concat ss

-- What is matched from end to end, as `^` and `$` ask for.
abbrev pub Matches : Regex → Bytes → Type 0
Matches (range low high) s = (b : ℕ) × (s ≡ b ∷ []) × (low ≤ b) × (b ≤ high)
Matches (alt r q) s = Matches r s ⊎ Matches q s
Matches (repeat least most r) s =
    (parts : List Bytes) × (s ≡ concat parts)
    × All (Matches r) parts
    × (least ≤ length parts)
    × (length parts ≤ most)

-- `[a-zA-Z0-9_:-]`
abbrev channel_class : Regex
channel_class = alt (range b'a' b'z') (
    alt (range b'A' b'Z')
      (alt (range b'0' b'9') (alt (range b'_' b'_') (alt (range b':' b':') (range b'-' b'-')))))

-- `^[a-zA-Z0-9_:-]{1,128}$`
abbrev pub channel_regex : Regex
channel_regex = repeat 1 128 channel_class

class-byte :
    (s : Bytes) → Matches channel_class s → (b : ℕ) × (s ≡ b ∷ []) × (is_channel_byte b ≡ true)
class-byte s (inl (b, e, low, high)) = (b, e, ground (arith, low, high))
class-byte s (inr (inl (b, e, low, high))) = (b, e, ground (arith, low, high))
class-byte s (inr (inr (inl (b, e, low, high)))) = (b, e, ground (arith, low, high))
class-byte s (inr (inr (inr (inl (b, e, low, high))))) = (b, e, ground (arith, low, high))
class-byte s (inr (inr (inr (inr (inl (b, e, low, high)))))) = (b, e, ground (arith, low, high))
class-byte s (inr (inr (inr (inr (inr (b, e, low, high)))))) = (b, e, ground (arith, low, high))

byte-class : (b : ℕ) → is_channel_byte b ≡ true → Matches channel_class (b ∷ [])
byte-class b h = elim (Bool-cases (leb b'a' b && leb b b'z')) [
  | inl here ↦ inl (b, refl, ground arith, ground arith)
  | inr other0 ↦ elim (Bool-cases (leb b'A' b && leb b b'Z')) [
    | inl here ↦ inr (inl (b, refl, ground arith, ground arith))
    | inr other1 ↦ elim (Bool-cases (leb b'0' b && leb b b'9')) [
      | inl here ↦ inr (inr (inl (b, refl, ground arith, ground arith)))
      | inr other2 ↦ elim (Bool-cases (b == b'_')) [
        | inl here ↦ inr (inr (inr (inl (b, refl, ground arith, ground arith))))
        | inr other3 ↦ elim (Bool-cases (b == b':')) [
          | inl here ↦ inr (inr (inr (inr (inl (b, refl, ground arith, ground arith)))))
          | inr other4 ↦ inr (inr (inr (inr (inr (b, refl, ground arith, ground arith)))))
        ]
      ]
    ]
  ]
]

All-class :
    (parts : List Bytes)
    → All (Matches channel_class) parts
    → (all_channel_bytes (concat parts) ≡ true) × (length (concat parts) ≡ length parts)
unfolding all_channel_bytes
All-class [] h = (refl, refl)
All-class (s ∷ parts) (h, hs) =
    let (b, e, good) = class-byte s h in
    let (rest, same) = All-class parts hs in rw e (ground (arith, good, rest), ap suc same)

singles : (s : Bytes) → s ≡ concat (map (λ b. b ∷ []) s)
singles [] = refl
singles (b ∷ s) = ap (◌∷◌ b) (singles s)

length-singles : (s : Bytes) → length (map (λ b. b ∷ []) s) ≡ length s
length-singles [] = refl
length-singles (b ∷ s) = ap suc (length-singles s)

class-All :
    (s : Bytes) → all_channel_bytes s ≡ true → All (Matches channel_class) (map (λ b. b ∷ []) s)
unfolding all_channel_bytes
class-All [] h = tt
class-All (b ∷ s) h = (byte-class b (ground arith), class-All s (ground arith))

-- The test of channel names accepts exactly what the regular expression `^[a-zA-Z0-9_:-]{1,128}$` matches.
pub matches_channel_regex-Matches :
    (s : Bytes) → (matches_channel_regex s ≡ true) ↔ Matches channel_regex s
unfolding matches_channel_regex
matches_channel_regex-Matches s = (
  λ h. (
    map (λ b. b ∷ []) s,
    singles s,
    class-All s (ground arith),
    ground (arith, length-singles s),
    ground (arith, length-singles s),
  ),
  λ (parts, e, all, least, most).
      let (good, same) = All-class parts all in rw e (ground (arith, good, same, least, most)),
)
