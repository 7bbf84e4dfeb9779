-- ===== src/System/Credentials.antt =====
-- Who a connection is for, and what it may follow, from its handshake on.
use django_websocket_gateway.Common.{
  if_true_or, if◌then◌else◌, ℕ, ◌<◌, List, [], ◌∷◌, Bytes, bytes_eq, nat_eq, Option, ◌≡◌, ◌∙◌, ◌||◌,
  refl, ap, inl, inr, arith, All, ◌==◌, Bool-cases, ok, Returns-value,
}
use django_websocket_gateway.Common.Int.{ℤ}
use django_websocket_gateway.Common.Set
use django_websocket_gateway.Config.{Config}
use django_websocket_gateway.Client.{Ptr, Client, new_pump_client, allow_channels, next}
use django_websocket_gateway.Manager.{ChannelManager}
use django_websocket_gateway.Json.{Json}
use django_websocket_gateway.Hub.State.{Hub, Event, store}
use django_websocket_gateway.Hub.Queues.{Growth}
use django_websocket_gateway.Hub.Queues.Handlers.{handle-Growth}
use django_websocket_gateway.Hub.Handlers.{handle}
use django_websocket_gateway.System.Keeps.{Keeps}
use django_websocket_gateway.System.Keeps.Steps.{run-kept}
use django_websocket_gateway.System.{
  System, Move, accept, after_round, accept_client, end_loop, run, init,
}
use django_websocket_gateway.System.Invariant.{SystemInv}
use django_websocket_gateway.System.Steps.{step-Inv}
use django_websocket_gateway.System.Safety.{init-Inv}

abbrev pub credentials : Client → ℤ × Bytes × List Bytes
credentials a = (a.user_id, a.session_key, a.allowed_channels)

-- `wsHandler` puts the channels of Django's answer into the set of the client.
allow_channels-contains :
    (ch : Bytes) (allowed : List Bytes) (a : Client)
    → Set.contains ch (allow_channels allowed a).allowed_channels
      ≡ (Set.contains ch a.allowed_channels || Set.contains ch allowed)
unfolding allow_channels Set.contains
allow_channels-contains ch [] a = ground arith
allow_channels-contains ch (x ∷ xs) a = ground (
  arith,
  Set.contains-add x ch a.allowed_channels,
  allow_channels-contains ch xs (record a { allowed_channels = Set.add x a.allowed_channels }),
)

allow_channels-same :
    (allowed : List Bytes) (a : Client)
    → let b = allow_channels allowed a in (b.user_id ≡ a.user_id) × (b.session_key ≡ a.session_key)
unfolding allow_channels
allow_channels-same [] a = (refl, refl)
allow_channels-same (ch ∷ chs) a =
    allow_channels-same chs (record a { allowed_channels = Set.add ch a.allowed_channels })

Growth-credentials :
    {F : Bytes → Type 0} {a b : Client} → Growth F a b → credentials b ≡ credentials a
Growth-credentials g =
    let id = ap (λ i. i.1) g.id in let key = ap (λ i. i.2) g.id in rw (id, key, g.allowed) refl

stored-credentials :
    (c d : Ptr) (new : Client) (heap : Ptr → Client)
    → credentials new ≡ credentials (heap c)
    → credentials (if c == d then new else heap d) ≡ credentials (heap d)
stored-credentials c d new heap e = elim (Bool-cases (c == d)) [
  | inl here ↦ let at_d : c ≡ d = ground arith in rw here (e ∙ ap (λ p. credentials (heap p)) at_d)
  | inr other ↦ rw other refl
]

-- `Known id key allowed` says that a handshake ended with this user, this session and these channels.
module _ (Known : ℤ → Bytes → List Bytes → Type 0) where
  abbrev pub Admitted : Client → Type 0
  Admitted a =
      (allowed : List Bytes) × Known a.user_id a.session_key allowed
      × ((ch : Bytes) → Set.contains ch a.allowed_channels ≡ Set.contains ch allowed)

  Admitted-same : (a b : Client) → credentials b ≡ credentials a → Admitted a → Admitted b
  Admitted-same a b e (allowed, known, same_set) =
      let id : b.user_id ≡ a.user_id = ap (λ x. x.0) e in
      let key : b.session_key ≡ a.session_key = ap (λ x. x.1) e in
      let set_ : b.allowed_channels ≡ a.allowed_channels = ap (λ x. x.2) e in
      (allowed, rw (id, key) known, λ ch. rw set_ (same_set ch))

  abbrev pub Vouched : {M : Type 0} → System M → Type 0
  Vouched s = (c : Ptr) → c < s.fresh → Admitted (s.hub.heap c)

  -- A schedule whose connections all have such a handshake.
  abbrev pub Shown : Move → Type 0
  Shown m =
      (now : ℕ) (id : ℤ) (key : Bytes) (allowed : List Bytes)
      → m ≡ accept now id key allowed
      → Known id key allowed

  module _ {M : Type 0} where
    stored-Vouched :
        (c : Ptr) (new : Client) (s : System M)
        → credentials new ≡ credentials (s.hub.heap c)
        → Vouched s
        → Vouched (record s { hub = store c new s.hub })
    unfolding store
    stored-Vouched c new s e v d lt =
        Admitted-same (s.hub.heap d) (if c == d then new else s.hub.heap d)
          (stored-credentials c d new s.hub.heap e) (v d lt)

    accept_client-Vouched :
        (now : ℕ) (id : ℤ) (key : Bytes) (allowed : List Bytes) (s : System M)
        → Known id key allowed
        → Vouched s
        → Vouched (accept_client now id key allowed s)
    unfolding accept_client store new_pump_client Set.contains
    accept_client-Vouched now id key allowed s known v c lt =
        let blank = new_pump_client s.hub.cfg (next s.counter) now id key in
        let (i, k) = allow_channels-same allowed blank in
        elim (Bool-cases (s.fresh == c)) [
          | inl new ↦
              rw new (allowed, rw (i, k) known, λ ch. allow_channels-contains ch allowed blank)
          | inr old ↦ rw old (v c (ground (arith, lt)))
        ]

  module _ {M : Type 0} (ops : ChannelManager M) (json : Json) where
    handled-Vouched :
        (e : Event) (s u : System M) (h : Hub M)
        → SystemInv s
        → Vouched s
        → u.fresh ≡ s.fresh
        → handle ops json e s.hub ≡ ok h
        → Vouched (record u { hub = h })
    handled-Vouched e s u h i v f there c lt =
        let growth = Returns-value (handle-Growth ops json s.hub i.hub e) there in
        Admitted-same (s.hub.heap c) (h.heap c) (Growth-credentials (growth c)) (v c (rw f at lt))

    keeps-Vouched : Keeps ops json Shown SystemInv Vouched
    unfolding after_round end_loop
    keeps-Vouched = record {
      accepts = λ now id key allowed s shown v.
          accept_client-Vouched now id key allowed s (shown now id key allowed refl) v;
      registers = λ c s v. v;
      subscribes = λ x s v. v;
      unsubscribes = λ x s v. v;
      unregisters = λ c s v. v;
      takes_frame = λ c rest s v. stored-Vouched c (record (s.hub.heap c) { send = rest }) s refl v;
      takes_signal =
          λ c rest s v. stored-Vouched c (record (s.hub.heap c) { disconnect = rest }) s refl v;
      rounds = λ c w s by on v. v;
      spawned = λ c rest s v. v;
      receives = λ x s v. v;
      ends = λ s v. if_true_or Vouched s.ctx_done (λ _. v) v;
      handles =
          λ e s u h on i v (fresh, _, _, _, _, _) there. handled-Vouched e s u h i v fresh there;
    }

    pub init-Vouched :
        (cfg : Config) (manager : Option M) (ms : List Move) {s : System M}
        → All Shown ms
        → run ops json ms (init cfg manager) ≡ ok s
        → Vouched s
    unfolding init
    init-Vouched cfg manager ms {s} shown =
        run-kept ops json Shown SystemInv Vouched keeps-Vouched
          (λ m u t i e. (Returns-value (step-Inv ops json m u i) e).inv) ms (init cfg manager) s
          shown (init-Inv ops json cfg manager) (λ c lt. absurd (omega (arith, lt)))
