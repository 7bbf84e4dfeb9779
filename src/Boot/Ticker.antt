-- ===== src/Boot/Ticker.antt =====
-- `PING_INTERVAL`, from the environment to the ticker of `WritePump` (gateway/client.go).
use django_websocket_gateway.Common.{
  List, [], Bytes, bytes_eq, nat_eq, text, Option, some, true, false, ◌≡◌, ◌≢◌, ◌↔◌, ◌==◌, ◌∙◌, ap,
  refl, sym, ok, inl, inr, Bool-cases, list_beq_iff, panic,
}
use django_websocket_gateway.Common.Int.{ℤ, is_positive}
use django_websocket_gateway.Config.{Config}
use django_websocket_gateway.Config.Load.{Env, loaded, load}
use django_websocket_gateway.Config.Loaded.{load-IsLoaded}
use django_websocket_gateway.Pump.{Wake, start_write_pump, write_pump}

start_write_pump-panic :
    (cfg : Config) (ws : List Wake)
    → (start_write_pump cfg ws ≡ panic) ↔ (is_positive cfg.ping_interval ≡ false)
unfolding start_write_pump
start_write_pump-panic cfg ws = elim (Bool-cases (is_positive cfg.ping_interval)) [
  | inl up ↦ rw up (λ h. cc h, λ h. cc h)
  | inr down ↦ rw down (λ h. refl, λ h. refl)
]

start_write_pump-ok :
    (cfg : Config) (ws : List Wake)
    → start_write_pump cfg ws ≢ panic
    → start_write_pump cfg ws ≡ ok (write_pump ws)
unfolding start_write_pump
start_write_pump-ok cfg ws safe = elim (Bool-cases (is_positive cfg.ping_interval)) [
  | inl up ↦ rw up refl
  | inr down ↦ absurd (safe (rw down refl))
]

-- A configuration is loaded whatever the ping interval, and `WritePump` then panics at its start exactly if
-- `PING_INTERVAL` is set to a duration that is not positive.
pub ticker-panic :
    (parse_duration : Bytes → Option ℤ) (env : Env) (cfg : Config) (ws : List Wake)
    → load parse_duration env ≡ loaded cfg
    → (start_write_pump cfg ws ≡ panic) ↔ (
        (z : ℤ) × (env (text "PING_INTERVAL") ≢ [])
        × (parse_duration (env (text "PING_INTERVAL")) ≡ some z)
        × (is_positive z ≡ false))
ticker-panic parse_duration env cfg ws e =
    let (unset, given) = (load-IsLoaded parse_duration env cfg e).ping in
    let (to, from) = start_write_pump-panic cfg ws in
    (
      λ down. elim (Bool-cases (env (text "PING_INTERVAL") == [])) [
        | inl empty ↦
            let default = unset ((list_beq_iff (env (text "PING_INTERVAL")) []).0 empty) in
            let high : is_positive cfg.ping_interval ≡ true = rw default refl in cc (high, to down)
        | inr there ↦
            let some_ : env (text "PING_INTERVAL") ≢ [] =
              λ e. cc (there, (list_beq_iff (env (text "PING_INTERVAL")) []).1 e) in
            (cfg.ping_interval, some_, given some_, to down)
      ],
      λ (z, some_, parsed, low).
          let same : cfg.ping_interval ≡ z = cc (given some_, parsed) in
          from (ap is_positive same ∙ low),
    )

-- Where no ping interval that is read is below one, the loop starts.
pub ticker-starts :
    (parse_duration : Bytes → Option ℤ) (env : Env) (cfg : Config) (ws : List Wake)
    → load parse_duration env ≡ loaded cfg
    → ((z : ℤ) → parse_duration (env (text "PING_INTERVAL")) ≡ some z → is_positive z ≡ true)
    → start_write_pump cfg ws ≡ ok (write_pump ws)
ticker-starts parse_duration env cfg ws e high = start_write_pump-ok cfg ws (λ down.
    let (z, _, read, low) = (ticker-panic parse_duration env cfg ws e).0 down in
    cc (sym (high z read) ∙ low))
