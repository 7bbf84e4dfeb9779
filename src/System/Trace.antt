-- ===== src/System/Trace.antt =====
-- Where the frames in a client's queue and on its socket come from, and with which codes the gateway
-- closes connections.
pub mod Rounds
pub mod Steps
pub mod Events
pub mod Result
use django_websocket_gateway.Common.{
  ℕ, ◌+◌, ◌%◌, ◌^◌, ◌<◌, ◌∙◌, ◌≤◌, List, [], ◌∷◌, ◌++◌, Bytes, bytes_eq, nat_eq, text, Option, none,
  some, Bool, true, false, ◌&&◌, ◌≡◌, ◌⊎◌, ◌∙◌, refl, sym, ap, subst, inl, inr, arith, All, ◌==◌,
  Bool-cases, Option-cases, if◌then◌else◌,
}
use django_websocket_gateway.Common.Set
use django_websocket_gateway.Common.Chan.{Chan, recv, push}
use django_websocket_gateway.Client.{Counter, Client, generate_connection_id, Ptr, DisconnectReason}
use django_websocket_gateway.Json.{Json}
use django_websocket_gateway.Pump.{
  Wake, cancelled, lifetime_over, send_closed, signalled, frame, tick, Exit, waiting, stopped,
  closed_with, wake_up, written_by,
}
use django_websocket_gateway.Hub.Queues.{IsReason, IsSignal, IsError}
use django_websocket_gateway.System.{System, absent, has_pump, is_pumping, if_pumping, after_round}
use django_websocket_gateway.System.Invariant.{SystemInv}

-- The close codes of the gateway.
abbrev pub IsClose : ℕ → Bytes → Type 0
IsClose code reason =
    ((code ≡ 1001) × (reason ≡ text "shutdown"))
    ⊎ ((code ≡ 1000) × (reason ≡ text "lifetime"))
    ⊎ ((code ≡ 1000) × (reason ≡ text "hub_closed"))
    ⊎ IsReason code reason

pub All-append {ℓ κ} :
    {A : Type ℓ} (P : A → Type κ) (xs ys : List A) → All P xs → All P ys → All P (xs ++ ys)
All-append P [] ys h k = k
All-append P (x ∷ xs) ys (h, hs) k = (h, All-append P xs ys hs k)

pub All-mono {ℓ κ μ} :
    {A : Type ℓ} (P : A → Type κ) (Q : A → Type μ) (xs : List A)
    → ((x : A) → P x → Q x)
    → All P xs
    → All Q xs
All-mono P Q [] f h = tt
All-mono P Q (x ∷ xs) f (h, hs) = (f x h, All-mono P Q xs f hs)

-- Every client up to `fresh` has the id of its own value of the counter.
pub record Named (counter : Counter) (fresh : Ptr) (heap : Ptr → Client) : Type 0 where
  pub counts : counter ≡ fresh % 2 ^ 64
  pub ids :
      (c : Ptr)
      → c < fresh
      → (now : ℕ) × ((heap c).connection_id ≡ generate_connection_id ((c + 1) % 2 ^ 64) now)

pub Named-heap :
    {counter : Counter} {fresh : Ptr} {heap : Ptr → Client} (later : Ptr → Client)
    → ((c : Ptr) → (later c).connection_id ≡ (heap c).connection_id)
    → Named counter fresh heap
    → Named counter fresh later
Named-heap later same v = record {
  counts = v.counts;
  ids = λ c lt. let (now, e) = v.ids c lt in (now, same c ∙ e);
}

-- `Sent ch payload` says that Redis sent this message.
module _ (json : Json) (Sent : Bytes → Bytes → Type 0) where
  -- A frame for a client that may follow the channels `allowed`: an answer to a request that is
  -- refused, or a message on one of these.
  abbrev pub Explained : List Bytes → Bytes → Type 0
  Explained allowed f =
      IsError json f ⊎ ((ch : Bytes) × Sent ch f × (Set.contains ch allowed ≡ true))

  pub record Traced {M : Type 0} (s : System M) : Type 0 where
    pub delivered : All (λ m. Sent m.0 m.1) s.incoming_chan.buf
    pub frames : (c : Ptr) → All (Explained (s.hub.heap c).allowed_channels) (s.hub.heap c).send.buf
    pub writes : (c : Ptr) → All (Explained (s.hub.heap c).allowed_channels) (s.written c)
    pub signals : (c : Ptr) → All IsSignal (s.hub.heap c).disconnect.buf
    pub closes :
        (c : Ptr) (code : ℕ) (reason : Bytes)
        → s.pumps c ≡ closed_with code reason
        → IsClose code reason
    pub unused : (c : Ptr) → s.fresh ≤ c → s.written c ≡ []
    pub named : Named s.counter s.fresh s.hub.heap

  module _ {M : Type 0} where
    -- A move that the queues, the sockets and the messages from Redis do not see.
    pub Traced-same :
        (s t : System M)
        → t.incoming_chan ≡ s.incoming_chan
        → t.hub.heap ≡ s.hub.heap
        → t.written ≡ s.written
        → t.pumps ≡ s.pumps
        → t.fresh ≡ s.fresh
        → t.counter ≡ s.counter
        → Traced s
        → Traced t
    Traced-same s t i h w p f n v = record {
      named = rw (h, f, n) v.named;
      delivered = rw i v.delivered;
      frames = λ c. rw h (v.frames c);
      writes = λ c. rw (h, w) (v.writes c);
      signals = λ c. rw h (v.signals c);
      closes = λ c code reason e. v.closes c code reason (rw p at e);
      unused = λ c le. rw w (v.unused c (rw f at le));
    }

    pub started :
        (c p : Ptr) (s : System M)
        → SystemInv s
        → is_pumping c s ≡ true
        → s.fresh ≤ p
        → (c == p) ≡ false
    started c p s v on le = elim (Bool-cases (c == p)) [
      | inl same ↦
          let e : c ≡ p = ground arith in
          let (a, _, _) = v.unused c (rw e le) in let stuck = (rw a at on) in cc stuck
      | inr other ↦ other
    ]

    -- A round of a pump that has begun: what it writes and how it ends is explained.
    pub after_round-Traced :
        (c : Ptr) (w : Wake) (s : System M)
        → ((p : Ptr) → s.fresh ≤ p → (c == p) ≡ false)
        → All (Explained (s.hub.heap c).allowed_channels) (written_by w)
        → ((code : ℕ) (reason : Bytes) → wake_up w ≡ closed_with code reason → IsClose code reason)
        → Traced s
        → Traced (after_round c w s)
    unfolding after_round
    after_round-Traced c w s begun good close v = record {
      delivered = v.delivered;
      frames = v.frames;
      named = v.named;
      signals = v.signals;
      writes = λ p. elim (Bool-cases (c == p)) [
        | inl same ↦
            let e : c ≡ p = ground arith in
            rw same (
              All-append _ (s.written p) (written_by w) (v.writes p) (
                subst (λ q. All (Explained (s.hub.heap q).allowed_channels) (written_by w)) e good))
        | inr other ↦ rw other (v.writes p)
      ];
      closes = λ p code reason h. elim (Bool-cases (c == p)) [
        | inl same ↦ close code reason (rw same at h)
        | inr other ↦ v.closes p code reason (rw other at h)
      ];
      unused = λ p le. rw (begun p le) (v.unused p le);
    }
