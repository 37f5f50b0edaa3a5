-- ===== src/Core/EventBus/Log.antt =====
-- src/core/event-bus.ts: the log of events, which is cut at 500.
use gstdbot.Common.{
  latest, latest-latest, push_latest_lem, append_assoc, append-nil, ℕ, ◌<◌, ◌≤◌, eqb, String, some,
  List, [], ◌∷◌, ◌++◌, arith, ◌≡◌, refl, sym, ◌∙◌, ap, inl, inr, Bool-cases,
}
use gstdbot.Core.EventBus.{
  EventPayload, given, payload_of, Bus, new_bus, push_log, get_event_log, Event, connects, closes,
  pongs, says, socket, beats, destroys, broadcasts, step, run,
}

-- The events that a node broadcasts in a run.
abbrev pub broadcast_in : String → List (ℕ × Event) → List EventPayload
broadcast_in node [] = []
broadcast_in node ((now, broadcasts topic event d) ∷ es) =
    record { topic = topic; event = event; data_of = given d; timestamp = now; node_id = some node }
    ∷ broadcast_in node es
broadcast_in node ((now, connects id ip agent) ∷ es) = broadcast_in node es
broadcast_in node ((now, closes id) ∷ es) = broadcast_in node es
broadcast_in node ((now, pongs id) ∷ es) = broadcast_in node es
broadcast_in node ((now, says id m) ∷ es) = broadcast_in node es
broadcast_in node ((now, socket id up) ∷ es) = broadcast_in node es
broadcast_in node ((now, beats) ∷ es) = broadcast_in node es
broadcast_in node ((now, destroys) ∷ es) = broadcast_in node es

log_after :
    (es : List (ℕ × Event)) (b : Bus) (l : List EventPayload)
    → b.event_log ≡ latest 500 l
    → (run es b).event_log ≡ latest 500 (l ++ broadcast_in b.node_id es)
unfolding run
log_after [] b l h = h ∙ ap (latest 500) (sym (append-nil l))
log_after ((now, broadcasts topic event d) ∷ es) b l h =
    let p = payload_of now topic event d b in
    log_after es (step now (broadcasts topic event d) b).0 (l ++ p ∷ [])
      (ap (push_log p) h ∙ push_latest_lem 500 p l)
    ∙ ap (latest 500) (append_assoc l (p ∷ []) (broadcast_in b.node_id es))
log_after ((now, connects id ip agent) ∷ es) b l h =
    log_after es (step now (connects id ip agent) b).0 l h
log_after ((now, closes id) ∷ es) b l h = log_after es (step now (closes id) b).0 l h
log_after ((now, pongs id) ∷ es) b l h = log_after es (step now (pongs id) b).0 l h
log_after ((now, says id m) ∷ es) b l h = log_after es (step now (says id m) b).0 l h
log_after ((now, socket id up) ∷ es) b l h = log_after es (step now (socket id up) b).0 l h
log_after ((now, beats) ∷ es) b l h = log_after es (step now beats b).0 l h
log_after ((now, destroys) ∷ es) b l h = log_after es (step now destroys b).0 l h

-- After any run of a new bus, the log asked for with a limit from 1 to 500 is the last events that
-- were broadcast in the run, in their order, as many as the limit (all where they are fewer).
pub get_event_log-run :
    (node : String) (es : List (ℕ × Event)) (limit : ℕ)
    → 0 < limit
    → limit ≤ 500
    → get_event_log limit (run es (new_bus node)) ≡ latest limit (broadcast_in node es)
get_event_log-run node es limit positive bound = elim (Bool-cases (eqb limit 0)) [
  | inl e ↦ absurd (ground arith)
  | inr e ↦ rw e (
      ap (latest limit) (log_after es (new_bus node) [] refl)
      ∙ latest-latest limit 500 (broadcast_in node es) bound)
]
