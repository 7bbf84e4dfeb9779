-- ===== src/System/Pumped.antt =====
-- The loop of `WritePump` (gateway/client.go) over a sequence of rounds and one more, before and after it
-- has returned.
use django_websocket_gateway.Common.{
  ℕ, ◌⊎◌, List, [], ◌∷◌, ◌++◌, Bytes, bytes_eq, nat_eq, true, false, ◌≡◌, ◌∙◌, ap, refl, inl, inr,
  append-nil, append_assoc, sym,
}
use django_websocket_gateway.Client.{Ptr}
use django_websocket_gateway.Pump.{
  Wake, Exit, waiting, stopped, closed_with, wake_up, written_by, write_pump,
}
use django_websocket_gateway.System.{System, is_waiting}

Exit-cases :
    (x : Exit)
    → (x ≡ waiting)
      ⊎ (x ≡ stopped)
      ⊎ ((code : ℕ) × (reason : Bytes) × (x ≡ closed_with code reason))
Exit-cases waiting = inl refl
Exit-cases stopped = inr (inl refl)
Exit-cases (closed_with code reason) = inr (inr (code, reason, refl))

-- The rest of the rounds, after one that left the loop at this place.
abbrev resume : Exit → List Bytes → List Bytes × Exit → List Bytes × Exit
resume waiting out r = (out ++ r.0, r.1)
resume stopped out r = (out, stopped)
resume (closed_with code reason) out r = (out, closed_with code reason)

write_pump-cons :
    (w : Wake) (ws : List Wake)
    → write_pump (w ∷ ws) ≡ resume (wake_up w) (written_by w) (write_pump ws)
unfolding write_pump
write_pump-cons w ws = elim (Exit-cases (wake_up w)) [
  | inl e ↦ rw (e, write_pump) refl
  | inr (inl e) ↦ rw (e, write_pump) refl
  | inr (inr (code, reason, e)) ↦ rw (e, write_pump) refl
]

resume-append :
    (x : Exit) (out : List Bytes) (r s q : List Bytes × Exit)
    → (resume x out r).1 ≡ waiting
    → (r.1 ≡ waiting → s ≡ (r.0 ++ q.0, q.1))
    → resume x out s ≡ ((resume x out r).0 ++ q.0, q.1)
resume-append waiting out r s q e k =
    ap (λ p. (out ++ p.0, p.1)) (k e) ∙ ap (λ xs. (xs, q.1)) (sym (append_assoc out r.0 q.0))
resume-append stopped out r s q e k = cc e
resume-append (closed_with code reason) out r s q e k = cc e

pub write_pump-append :
    (vs ws : List Wake)
    → (write_pump vs).1 ≡ waiting
    → write_pump (vs ++ ws) ≡ ((write_pump vs).0 ++ (write_pump ws).0, (write_pump ws).1)
write_pump-append [] ws e = unfold write_pump in refl
write_pump-append (v ∷ vs) ws e =
    let first = write_pump-cons v vs in
    write_pump-cons v (vs ++ ws)
    ∙ resume-append (wake_up v) (written_by v) (write_pump vs) (write_pump (vs ++ ws))
        (write_pump ws) (ap (λ p. p.1) (sym first) ∙ e) (write_pump-append vs ws)
    ∙ ap (λ p. (p.0 ++ (write_pump ws).0, (write_pump ws).1)) (sym first)

resume-end : (x : Exit) (out : List Bytes) → resume x out ([], waiting) ≡ (out, x)
resume-end waiting out = ap (λ xs. (xs, waiting)) (append-nil out)
resume-end stopped out = refl
resume-end (closed_with code reason) out = refl

pub write_pump-once : (w : Wake) → write_pump (w ∷ []) ≡ (written_by w, wake_up w)
unfolding write_pump
write_pump-once w = write_pump-cons w [] ∙ resume-end (wake_up w) (written_by w)

pub waits : (x : Exit) → is_waiting x ≡ true → x ≡ waiting
waits waiting e = refl
waits stopped e = cc e
waits (closed_with code reason) e = cc e

resume-ended :
    (x : Exit) (out : List Bytes) (r s : List Bytes × Exit)
    → is_waiting (resume x out r).1 ≡ false
    → (is_waiting r.1 ≡ false → s ≡ r)
    → resume x out s ≡ resume x out r
resume-ended waiting out r s over k = ap (λ p. (out ++ p.0, p.1)) (k over)
resume-ended stopped out r s over k = refl
resume-ended (closed_with code reason) out r s over k = refl

-- Once the loop has returned, no round counts.
pub write_pump-ended :
    (vs ws : List Wake)
    → is_waiting (write_pump vs).1 ≡ false
    → write_pump (vs ++ ws) ≡ write_pump vs
write_pump-ended [] ws over = absurd (unfold write_pump in cc over)
write_pump-ended (v ∷ vs) ws over =
    let first = write_pump-cons v vs in
    write_pump-cons v (vs ++ ws)
    ∙ resume-ended (wake_up v) (written_by v) (write_pump vs) (write_pump (vs ++ ws))
        (ap (λ p. is_waiting p.1) (sym first) ∙ over) (write_pump-ended vs ws)
    ∙ sym first

-- What the loop of `WritePump` has come to for `c`.
abbrev pub pumped : {M : Type 0} → Ptr → System M → List Bytes × Exit
pumped c s = (s.written c, s.pumps c)
