-- ===== src/System/Drained.antt =====
-- Rounds of one case of `Hub.Run` that take what its Go channel holds.
pub mod Cases
use django_websocket_gateway.Common.{
  List, [], ◌∷◌, ◌++◌, map, Bytes, bytes_eq, nat_eq, Option, some, Bool, true, false, ◌≡◌, ◌∙◌, sym,
  ap, refl, fun_ext, inl, inr, if◌then◌else◌, Run, ok, panic, ◌>>=◌, Returns, Returns-ok,
  Returns-value, append_assoc,
}
use django_websocket_gateway.Common.Chan.{Chan, recv}
use django_websocket_gateway.Client.{Ptr}
use django_websocket_gateway.Config.{Config}
use django_websocket_gateway.Manager.{ChannelManager}
use django_websocket_gateway.Json.{Json}
use django_websocket_gateway.Hub.State.{
  Hub, Event, register, unregister, subscribe, unsubscribe, incoming,
}
use django_websocket_gateway.Hub.Handlers.{handle}
use django_websocket_gateway.System.{
  System, Move, run_register, run_unregister, run_subscribe, run_unsubscribe, run_incoming, put_hub,
  take, take_value, take_register, take_unregister, take_subscribe, take_unsubscribe, take_incoming,
  step, run, init,
}
use django_websocket_gateway.System.Takes.{if_false}
use django_websocket_gateway.System.Flush.{recv-cons}
use django_websocket_gateway.System.Keeps.Steps.{Run-cases}
use django_websocket_gateway.System.Invariant.{SystemInv}
use django_websocket_gateway.System.Safety.{run-Inv, run-init-Inv}

module _ {M : Type 0} (ops : ChannelManager M) (json : Json) where
  -- The events of a list, handled one after the other.
  abbrev pub handle_all : List Event → Hub M → Run (Hub M)
  handle_all [] h = ok h
  handle_all (e ∷ es) h = do k ← handle ops json e h; handle_all es k

  handle_all-append :
      (es fs : List Event) (h : Hub M)
      → handle_all (es ++ fs) h ≡ (handle_all es h >>= handle_all fs)
  handle_all-append [] fs h = refl
  handle_all-append (e ∷ es) fs h = elim (Run-cases (handle ops json e h)) [
    | inl (k, there) ↦ rw there (handle_all-append es fs k)
    | inr bad ↦ rw bad refl
  ]

  run-append :
      (ms ns : List Move) (s : System M)
      → run ops json (ms ++ ns) s ≡ (run ops json ms s >>= run ops json ns)
  unfolding run
  run-append [] ns s = refl
  run-append (m ∷ ms) ns s = elim (Run-cases (step ops json m s)) [
    | inl (t, there) ↦ rw there (run-append ms ns t)
    | inr bad ↦ rw bad refl
  ]

  -- Moves that come to an end, and the events that they handle.
  record Segment (ms : List Move) (es : List Event) (s t : System M) : Type 0 where
    ran : run ops json ms s ≡ ok t
    did : handle_all es s.hub ≡ ok t.hub

  Segment-append :
      {ms ns : List Move} {es fs : List Event} {s t u : System M}
      → Segment ms es s t
      → Segment ns fs t u
      → Segment (ms ++ ns) (es ++ fs) s u
  Segment-append {ms} {ns} {es} {fs} {s} a b = record {
    ran = run-append ms ns s ∙ ap (λ r. r >>= run ops json ns) a.ran ∙ b.ran;
    did = handle_all-append es fs s.hub ∙ ap (λ r. r >>= handle_all fs) a.did ∙ b.did;
  }

  -- A case of the `select`, by its Go channel.
  record Case (A : Type 0) : Type 1 where
    move : Move
    event : A → Event
    get : System M → Chan A
    put : System M → Chan A → Hub M → System M
    takes :
        (s : System M) → step ops json move s ≡ take ops json (get s) (λ q. put s q s.hub) event s
    get-put : (s : System M) (q : Chan A) (h : Hub M) → get (put s q h) ≡ q
    put-put : (s : System M) (q r : Chan A) (h k : Hub M) → put (put s q h) r k ≡ put s r k
    put-get : (s : System M) → put s (get s) s.hub ≡ s
    hub-put : (s : System M) (q : Chan A) (h : Hub M) → (put s q h).hub ≡ h
    put-hub : (s : System M) (q : Chan A) (h k : Hub M) → record (put s q h) { hub = k } ≡ put s q k
    loop-put : (s : System M) (q : Chan A) (h : Hub M) → (put s q h).loop_ended ≡ s.loop_ended

  module _ {A : Type 0} (case : Case A) where
    abbrev emptied : System M → Hub M → System M
    emptied s h = case.put s (record (case.get s) { buf = [] }) h

    handled : System M → Chan A → Run (Hub M) → Run (System M)
    handled s q r = do h ← r; ok (case.put s q h)

    put_hub-handled :
        (s : System M) (q : Chan A) (r : Run (Hub M))
        → put_hub (case.put s q s.hub) r ≡ handled s q r
    unfolding handled
    put_hub-handled s q (ok h) = ap ok (case.put-hub s q s.hub h)
    put_hub-handled s q panic = refl

    drain-step :
        (x : A) (xs : List A) (s : System M)
        → s.loop_ended ≡ false
        → (case.get s).buf ≡ x ∷ xs
        → step ops json case.move s
          ≡ handled s (record (case.get s) { buf = xs }) (handle ops json (case.event x) s.hub)
    unfolding take
    drain-step x xs s on e =
        case.takes s
        ∙ if_false on (ok s)
            (take_value ops json (recv (case.get s)) (λ q. case.put s q s.hub) case.event s)
        ∙ ap (λ o. take_value ops json o (λ q. case.put s q s.hub) case.event s)
            (recv-cons (case.get s) x xs e)
        ∙ put_hub-handled s (record (case.get s) { buf = xs })
            (handle ops json (case.event x) s.hub)

    emptied-nil : (s : System M) → (case.get s).buf ≡ [] → s ≡ emptied s s.hub
    emptied-nil s e =
        let same : record (case.get s) { buf = [] } ≡ case.get s = rw e refl in
        sym (ap (λ q. case.put s q s.hub) same ∙ case.put-get s)

    emptied-put :
        (s : System M) (xs : List A) (h k : Hub M)
        → emptied (case.put s (record (case.get s) { buf = xs }) h) k ≡ emptied s k
    emptied-put s xs h k =
        let q : Chan A = record (case.get s) { buf = xs } in
        ap (λ r. case.put (case.put s q h) (record r { buf = [] }) k) (case.get-put s q h)
        ∙ case.put-put s q (record (case.get s) { buf = [] }) h k

    drain :
        (xs : List A) (s : System M)
        → s.loop_ended ≡ false
        → (case.get s).buf ≡ xs
        → run ops json (map (λ x. case.move) xs) s
          ≡ (handle_all (map case.event xs) s.hub >>= λ h. ok (emptied s h))
    unfolding run handled
    drain [] s on e = ap ok (emptied-nil s e)
    drain (x ∷ xs) s on e =
        let q : Chan A = record (case.get s) { buf = xs } in
        elim (Run-cases (handle ops json (case.event x) s.hub)) [
          | inl (h, there) ↦
              let u : System M = case.put s q h in
              let es : List Event = map case.event xs in
              ap (λ r. r >>= run ops json (map (λ x. case.move) xs))
                (drain-step x xs s on e ∙ ap (handled s q) there)
              ∙ drain xs u (case.loop-put s q h ∙ on) (ap (λ r. r.buf) (case.get-put s q h))
              ∙ ap (λ k. handle_all es k >>= λ k. ok (emptied u k)) (case.hub-put s q h)
              ∙ ap (λ f. handle_all es h >>= f) (fun_ext λ k. ap ok (emptied-put s xs h k))
              ∙ sym (ap (λ r. (r >>= handle_all es) >>= λ k. ok (emptied s k)) there)
          | inr bad ↦
              ap (λ r. r >>= run ops json (map (λ x. case.move) xs))
                (drain-step x xs s on e ∙ ap (handled s q) bad)
              ∙ sym (ap (λ r. (r >>= handle_all (map case.event xs)) >>= λ k. ok (emptied s k)) bad)
        ]

    -- From a state of the invariant the events are handled, and the state after them keeps it.
    stage :
        (s : System M)
        → s.loop_ended ≡ false
        → SystemInv s
        → (h : Hub M) × Segment
            (map (λ x. case.move) (case.get s).buf)
            (map case.event (case.get s).buf)
            s
            (emptied s h)
          × SystemInv (emptied s h)
    stage s on v =
        let ms : List Move = map (λ x. case.move) (case.get s).buf in
        let es : List Event = map case.event (case.get s).buf in
        let equal = drain (case.get s).buf s on refl in
        let ends = run-Inv ops json ms s v in
        elim (Run-cases (handle_all es s.hub)) [
          | inl (h, good) ↦
              let there = equal ∙ ap (λ r. r >>= λ k. ok (emptied s k)) good in
              (
                h,
                record { ran = there; did = good ∙ ap ok (sym (case.hub-put s _ h)) },
                Returns-value ends there,
              )
          | inr bad ↦
              let lost = equal ∙ ap (λ r. r >>= λ k. ok (emptied s k)) bad in
              absurd (cc (sym ends.returned ∙ lost))
        ]
