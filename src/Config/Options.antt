-- ===== src/Config/Options.antt =====
-- gateway/config.go: what `parseIntInto`, `parseInt64Into` and `parseDurationInto` leave in an option.
use django_websocket_gateway.Common.{
  [], Bytes, bytes_eq, nat_eq, Option, none, some, ◌==◌, ◌≡◌, ◌≢◌, sym, ap, arith, inl, inr,
  Bool-cases, list_beq_iff,
}
use django_websocket_gateway.Common.Int.{ℤ}
use django_websocket_gateway.Config.Number.{Parsed, parsed, unparsed, parse_int64}
use django_websocket_gateway.Config.Load.{
  loaded, Env, duration_or_error, integer_or_error, parse_int_into, parse_duration_into,
}

pub loaded-injective {ℓ} : {A : Type ℓ} {a b : A} → loaded a ≡ loaded b → a ≡ b
loaded-injective h = cc h

-- An integer option is its default where the variable is not set, and fits into 64 bits.
abbrev pub IsOption : Env → Bytes → ℤ → ℤ → Type 0
IsOption env name fallback v =
    (env name ≡ [] → v ≡ fallback) × (env name ≢ [] → parse_int64 (env name) ≡ parsed v)

integer_or_error-loaded :
    (name raw : Bytes) (r : Parsed ℤ) (v : ℤ)
    → integer_or_error name raw r ≡ loaded v
    → r ≡ parsed v
integer_or_error-loaded name raw (parsed w) v h = ground arith
integer_or_error-loaded name raw (unparsed e) v h = cc h

pub parse_int_into-IsOption :
    (env : Env) (name : Bytes) (fallback v : ℤ)
    → parse_int_into env name fallback ≡ loaded v
    → IsOption env name fallback v
unfolding parse_int_into
parse_int_into-IsOption env name fallback v h = elim (Bool-cases (env name == [])) [
  | inl unset ↦
      let h' = (rw unset at h) in
      (λ _. ground arith, λ other. absurd (other ((list_beq_iff (env name) []).0 unset)))
  | inr set_ ↦ (
    λ e. cc (set_, (list_beq_iff (env name) []).1 e),
    λ _. integer_or_error-loaded name (env name) (parse_int64 (env name)) v (rw set_ at h),
  )
]

-- A duration option is its default where the variable is not set, and what its text stands for elsewhere.
abbrev pub IsDuration : (Bytes → Option ℤ) → Env → Bytes → ℤ → ℤ → Type 0
IsDuration parse_duration env name fallback v =
    (env name ≡ [] → v ≡ fallback) × (env name ≢ [] → parse_duration (env name) ≡ some v)

duration_or_error-loaded :
    (name raw : Bytes) (r : Option ℤ) (v : ℤ) → duration_or_error name raw r ≡ loaded v → r ≡ some v
duration_or_error-loaded name raw (some w) v h = ap some (loaded-injective h)
duration_or_error-loaded name raw none v h = cc h

pub parse_duration_into-IsDuration :
    (parse_duration : Bytes → Option ℤ) (env : Env) (name : Bytes) (fallback v : ℤ)
    → parse_duration_into parse_duration env name fallback ≡ loaded v
    → IsDuration parse_duration env name fallback v
unfolding parse_duration_into
parse_duration_into-IsDuration parse_duration env name fallback v h =
    elim (Bool-cases (env name == [])) [
      | inl unset ↦
          let h' = (rw unset at h) in
          (
            λ _. sym (loaded-injective h'),
            λ other. absurd (other ((list_beq_iff (env name) []).0 unset)),
          )
      | inr set_ ↦ (
        λ e. cc (set_, (list_beq_iff (env name) []).1 e),
        λ _. duration_or_error-loaded name (env name) (parse_duration (env name)) v (rw set_ at h),
      )
    ]
