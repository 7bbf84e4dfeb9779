-- ===== src/Common/Chan.antt =====
-- Go's buffered channels.
use Prim.Native.Nat.{ℕ}
use mathlib.Core.List.{List, [], ◌∷◌, ◌++◌}
use mathlib.Core.Option.{Option, none, some}
use mathlib.Core.Bool.{Bool, true, false}
use django_websocket_gateway.Common.Compare.{ltb, length, if◌then◌else◌}

-- `buf` holds what was sent and not yet received, oldest first.
pub record Chan {ℓ} (A : Type ℓ) : Type ℓ where
  pub cap : ℕ
  pub buf : List A
  pub closed : Bool

-- What `select { case c <- v: default: }` comes to.
pub data Sent {ℓ} (A : Type ℓ) : Type ℓ where
  sent : Chan A → Sent A
  full : Sent A
  on_closed : Sent A

module _ {ℓ} {A : Type ℓ} where
  -- `make(chan A, n)`
  abbrev pub make : ℕ → Chan A
  make n = record { cap = n; buf = []; closed = false }

  abbrev pub try_send : A → Chan A → Sent A
  try_send v c =
      if c.closed
      then on_closed
      else if ltb (length c.buf) c.cap
      then sent (record c { buf = c.buf ++ v ∷ [] })
      else full

  -- `close(c)`; a second close panics, and the caller of this one recovers from it.
  abbrev pub close : Chan A → Chan A
  close c = record c { closed = true }

  -- `v := <-c`: the oldest value, where there is one.
  abbrev pub recv : Chan A → Option (A × Chan A)
  recv c = elim c.buf [ [] ↦ none | v ∷ rest ↦ some (v, record c { buf = rest }) ]

  -- A send `c <- v` blocks while this does not hold.
  abbrev pub has_room : Chan A → Bool
  has_room c = ltb (length c.buf) c.cap

  abbrev pub push : A → Chan A → Chan A
  push v c = record c { buf = c.buf ++ v ∷ [] }
