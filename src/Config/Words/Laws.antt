-- ===== src/Config/Words/Laws.antt =====
-- Texts that list parts, separated by commas.
use mathlib.Core.List.{reverse, reverse-cons, reverse-reverse}
use django_websocket_gateway.Common.{
  ℕ, List, [], ◌∷◌, ◌++◌, Bytes, nat_eq, Bool, true, false, not, ◌&&◌, ◌==◌, ◌≡◌, ◌∙◌, refl, ap,
  ltb, arith,
}
use django_websocket_gateway.Config.Words.{
  split, is_space, is_space_2, is_space_3, trim_front, trim_left, trim_right, trim_space,
}

-- A byte of printable ASCII that is neither a space nor a comma.
abbrev pub is_plain : ℕ → Bool
is_plain b = ltb 0x20 b && ltb b 0x7f && not (b == b',')

abbrev pub all_plain : Bytes → Bool
all_plain [] = true
all_plain (b ∷ s) = is_plain b && all_plain s

abbrev pub join : List Bytes → Bytes
join [] = []
join (p ∷ []) = p
join (p ∷ q ∷ ps) = p ++ b',' ∷ join (q ∷ ps)

split-plain : (p : Bytes) → all_plain p ≡ true → split b',' p ≡ p ∷ []
unfolding split
split-plain [] h = refl
split-plain (b ∷ s) h = ground (arith, split-plain s)

split-append : (p s : Bytes) → all_plain p ≡ true → split b',' (p ++ b',' ∷ s) ≡ p ∷ split b',' s
unfolding split
split-append [] s h = refl
split-append (b ∷ p) s h = ground (arith, split-append p s)

abbrev pub AllPlain : List Bytes → Type 0
AllPlain [] = Unit
AllPlain (p ∷ ps) = (all_plain p ≡ true) × AllPlain ps

pub split-join :
    (p : Bytes) (ps : List Bytes) → AllPlain (p ∷ ps) → split b',' (join (p ∷ ps)) ≡ p ∷ ps
split-join p [] (h, _) = split-plain p h
split-join p (q ∷ ps) (h, hs) = split-append p (join (q ∷ ps)) h ∙ ap (◌∷◌ p) (split-join q ps hs)

module _ (space_2 : ℕ → ℕ → Bool) (space_3 : ℕ → ℕ → ℕ → Bool) where
  trim_front-plain :
      (a : ℕ) (s : Bytes)
      → is_space a ≡ false
      → ((b : ℕ) → space_2 a b ≡ false)
      → ((b c : ℕ) → space_3 a b c ≡ false)
      → trim_front space_2 space_3 (a ∷ s) ≡ a ∷ s
  unfolding trim_front
  trim_front-plain a [] one two three = rw one refl
  trim_front-plain a (b ∷ []) one two three = rw (one, two b) refl
  trim_front-plain a (b ∷ c ∷ s) one two three = rw (one, two b, three b c) refl

trim_left-plain : (s : Bytes) → all_plain s ≡ true → trim_left s ≡ s
unfolding trim_front
trim_left-plain [] h = refl
trim_left-plain (a ∷ s) h =
    trim_front-plain is_space_2 is_space_3 a s (ground arith) (λ b. ground arith)
      (λ b c. ground arith)

trim_back-plain :
    (s : Bytes)
    → all_plain s ≡ true
    → trim_front (λ a b. is_space_2 b a) (λ a b c. is_space_3 c b a) s ≡ s
unfolding trim_front
trim_back-plain [] h = refl
trim_back-plain (a ∷ s) h =
    trim_front-plain (λ a b. is_space_2 b a) (λ a b c. is_space_3 c b a) a s (ground arith)
      (λ b. ground arith) (λ b c. ground arith)

all_plain-append :
    (s t : Bytes) → all_plain s ≡ true → all_plain t ≡ true → all_plain (s ++ t) ≡ true
all_plain-append [] t h k = k
all_plain-append (b ∷ s) t h k = ground (arith, all_plain-append s t)

all_plain-reverse : (s : Bytes) → all_plain s ≡ true → all_plain (reverse s) ≡ true
all_plain-reverse [] h = refl
all_plain-reverse (b ∷ s) h =
    rw (reverse-cons b s)
      (all_plain-append (reverse s) (b ∷ []) (all_plain-reverse s (ground arith)) (ground arith))

pub trim_space-plain : (s : Bytes) → all_plain s ≡ true → trim_space s ≡ s
unfolding trim_space
trim_space-plain s h =
    ap trim_right (trim_left-plain s h)
    ∙ ap reverse (trim_back-plain (reverse s) (all_plain-reverse s h))
    ∙ reverse-reverse s
