-- ===== src/Config/Origins.antt =====
-- The origins that ALLOWED_ORIGINS lists.
use django_websocket_gateway.Common.{
  List, [], ◌∷◌, Bytes, bytes_eq, nat_eq, ◌==◌, ◌≡◌, ◌≢◌, ◌∙◌, refl, ap, All, inl, inr, Bool-cases,
  list_beq_iff,
}
use django_websocket_gateway.Config.Words.Laws.{join, AllPlain, split-join, trim_space-plain}
use django_websocket_gateway.Config.Load.{
  loaded, keep_origins, origins_of, at_least_one, load_origins,
}

keep_origins-plain : (ps : List Bytes) → AllPlain ps → All (λ p. p ≢ []) ps → keep_origins ps ≡ ps
unfolding keep_origins
keep_origins-plain [] h n = refl
keep_origins-plain (p ∷ ps) (h, hs) (n, ns) =
    let same = trim_space-plain p h in
    elim (Bool-cases (p == [])) [
      | inl empty ↦ absurd (n ((list_beq_iff p []).0 empty))
      | inr there ↦ simp (same, there, keep_origins-plain ps hs ns)
    ]

join-ne-nil : (p : Bytes) (ps : List Bytes) → p ≢ [] → join (p ∷ ps) ≢ []
join-ne-nil p [] n = n
join-ne-nil [] (q ∷ ps) n = λ e. n refl
join-ne-nil (b ∷ p) (q ∷ ps) n = λ e. cc e

-- A list of origins that is not empty, none of which is empty and all of whose bytes are printable
-- ASCII but no space and no comma, is loaded from the text that joins it by commas.
pub load_origins-join :
    (p : Bytes) (ps : List Bytes)
    → AllPlain (p ∷ ps)
    → All (λ origin. origin ≢ []) (p ∷ ps)
    → load_origins (join (p ∷ ps)) ≡ loaded (p ∷ ps)
unfolding load_origins origins_of
load_origins-join p ps h n =
    let read : origins_of (join (p ∷ ps)) ≡ p ∷ ps =
      ap keep_origins (split-join p ps h) ∙ keep_origins-plain (p ∷ ps) h n in
    elim (Bool-cases (join (p ∷ ps) == [])) [
      | inl empty ↦ absurd (join-ne-nil p ps n.0 ((list_beq_iff (join (p ∷ ps)) []).0 empty))
      | inr there ↦ rw there (ap at_least_one read)
    ]
