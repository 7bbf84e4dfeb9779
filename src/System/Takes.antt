-- ===== src/System/Takes.antt =====
-- A case of the `select` of `Hub.Run`: it takes a value, or nothing changes.
use django_websocket_gateway.Common.{
  Option-cases, Bool-cases, inl, inr, ◌≡◌, ◌⊎◌, refl, some, false, true, ok, Bool, if◌then◌else◌,
  ap, ◌∙◌,
}
use django_websocket_gateway.Common.Chan.{Chan, recv}
use django_websocket_gateway.Manager.{ChannelManager}
use django_websocket_gateway.Json.{Json}
use django_websocket_gateway.Hub.State.{Event}
use django_websocket_gateway.Hub.Handlers.{handle}
use django_websocket_gateway.System.{System, put_hub, take, take_value}

pub if_true {ℓ} : {A : Type ℓ} {b : Bool} → b ≡ true → (x y : A) → (if b then x else y) ≡ x
if_true e x y = rw e refl

pub if_false {ℓ} : {A : Type ℓ} {b : Bool} → b ≡ false → (x y : A) → (if b then x else y) ≡ y
if_false e x y = rw e refl

module _ {M : Type 0} (ops : ChannelManager M) (json : Json) where
  pub take-cases :
      {A : Type 0} (q : Chan A) (put : Chan A → System M) (event : A → Event) (s : System M)
      → (take ops json q put event s ≡ ok s)
        ⊎ ((x : A) × (rest : Chan A) × (s.loop_ended ≡ false)
            × (recv q ≡ some (x, rest))
            × (take ops json q put event s ≡ put_hub (put rest) (handle ops json (event x) s.hub)))
  unfolding take
  take-cases q put event s = elim (Bool-cases s.loop_ended) [
    | inl over ↦ inl (if_true over _ _)
    | inr on ↦
        let begun = if_false on (ok s) (take_value ops json (recv q) put event s) in
        elim (Option-cases (recv q)) [
          | inl e ↦ inl (begun ∙ ap (λ o. take_value ops json o put event s) e)
          | inr ((x, rest), e) ↦
              inr (x, rest, on, e, begun ∙ ap (λ o. take_value ops json o put event s) e)
        ]
  ]
