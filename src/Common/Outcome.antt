-- ===== src/Common/Outcome.antt =====
-- What a Go statement comes to: a value, or a panic. An index out of range and a send on a closed
-- channel panic.
use mathlib.Core.Path.{◌≡◌, refl}

pub data Run {ℓ} (A : Type ℓ) : Type ℓ where
  ok : A → Run A
  panic : Run A

infixl 5 ◌>>=◌
abbrev pub ◌>>=◌ {ℓ κ} : {A : Type ℓ} {B : Type κ} → Run A → (A → Run B) → Run B
ok a >>= f = f a
panic >>= f = panic

-- The run comes to a value, and the value meets `P`.
pub record Returns {ℓ κ} {A : Type ℓ} (r : Run A) (P : A → Type κ) : Type (ℓ ⊔ κ) where
  pub value : A
  pub returned : r ≡ ok value
  pub holds : P value

pub Returns-ok {ℓ κ} : {A : Type ℓ} {P : A → Type κ} (a : A) → P a → Returns (ok a) P
Returns-ok a p = record { value = a; returned = refl; holds = p }

pub Returns-bind {ℓ κ μ ν} :
    {A : Type ℓ} {B : Type κ} {P : A → Type μ} {Q : B → Type ν} {r : Run A} {f : A → Run B}
    → Returns r P
    → ((a : A) → P a → Returns (f a) Q)
    → Returns (r >>= f) Q
Returns-bind {f} h k = rw h.returned (k h.value h.holds)

pub Returns-mono {ℓ κ μ} :
    {A : Type ℓ} {P : A → Type κ} {Q : A → Type μ} {r : Run A}
    → Returns r P
    → ((a : A) → P a → Q a)
    → Returns r Q
Returns-mono h k = record { value = h.value; returned = h.returned; holds = k h.value h.holds }

-- What is known of the value of a run that came to one.
pub Returns-value {ℓ κ} :
    {A : Type ℓ} {P : A → Type κ} {r : Run A} {b : A} → Returns r P → r ≡ ok b → P b
Returns-value {P} {b} h e = let same : h.value ≡ b = cc h.returned in rw same at h.holds

-- Two accounts of one run.
pub Returns-both {ℓ κ μ} :
    {A : Type ℓ} {P : A → Type κ} {Q : A → Type μ} {r : Run A}
    → Returns r P
    → Returns r Q
    → Returns r (λ a. P a × Q a)
Returns-both h k = record {
  value = h.value;
  returned = h.returned;
  holds = (h.holds, Returns-value k h.returned);
}
