-- ===== src/Event/Recorded.antt =====
-- What `handle_event` leaves of an event.
use mathlib.Core.List.{append-nil}
use tlrs.Prelude.{
  ℕ, ◌+◌, ◌<◌, ◌≡◌, ◌⊎◌, refl, sym, ap, ◌∙◌, subst, false, ◌||◌, some, Option, take, List, [], ◌∷◌,
  ◌++◌, Result, ok, err, All, arith, inl, inr,
}
use tlrs.Model.Table.{UniqueKeys, save}
use tlrs.Wire.Topic.{ChirpStackTopicInfo}
use tlrs.Geofence.Evaluation.Created.{flushed}
use tlrs.Event.Tables.{
  Payload, EventError, Reason, raised, ChirpStackEvent, ChirpStackHandleResult, EventStore,
  EventContext, Handled,
}
use tlrs.Event.Network.{commands_of}
use tlrs.Event.Service.{
  process_event, new_event, violates_unique, event_key, finish_event, is_duplicate,
  insert_and_process,
}
use tlrs.Event.Evolves.{key, Evolves, Evolves-same}
use tlrs.Event.Frame.{Post}
use tlrs.Event.Handlers.{process_event-Post}

-- The keys of the events are below the next one.
abbrev pub EventsBelow : EventStore → Type 0
EventsBelow db = All (λ e. event_key e < db.next_event_id) db.events

save_last :
    (e' e : ChirpStackEvent) (events : List ChirpStackEvent)
    → event_key e' ≡ event_key e
    → All (λ x. event_key x < event_key e) events
    → save event_key e' (events ++ (e ∷ [])) ≡ events ++ (e' ∷ [])
save_last e' e [] same h = ground arith
save_last e' e (x ∷ events) same h = ground (arith, save_last e' e events same h.1)

-- The event has the reason of the result, but of an exception's text at most 500 characters.
abbrev pub Tells : Option Reason → Option Reason → Type 0
Tells reason message =
    (reason ≡ message)
    ⊎ ((text : List ℕ) × (reason ≡ some (raised text)) × (message ≡ some (raised (take 500 text))))

-- The event that a payload leaves, in a store, with a result.
pub record Recorded (payload : Payload) (db : EventStore) (v : ChirpStackHandleResult × EventStore)
    : Type 0 where
  pub event : ChirpStackEvent
  pub appended : v.1.events ≡ db.events ++ (event ∷ [])
  pub same_dedup : event.deduplication_id ≡ payload.deduplication_id
  pub numbered : event.id ≡ db.next_event_id
  pub advanced : v.1.next_event_id ≡ db.next_event_id + 1
  pub success : v.0.success ≡ event.processed
  pub reason : Tells v.0.failure_reason event.error_message
  pub commands : Evolves (flushed db.geofence) (flushed v.1.geofence)

module _ (info : ChirpStackTopicInfo) (topic_text : List ℕ) (payload : Payload) (db : EventStore)
    (below : EventsBelow db) where
  abbrev inserted : ChirpStackEvent
  inserted = new_event db.next_event_id info topic_text payload

  abbrev pub db_inserted : EventStore
  db_inserted = record db {
    events = db.events ++ (inserted ∷ []);
    next_event_id = db.next_event_id + 1;
  }

  finish-Recorded :
      (describe : EventError → List ℕ) (m : Result EventError Handled)
      → Post inserted db_inserted m
      → Recorded payload db (finish_event describe m inserted db_inserted)
  unfolding finish_event
  finish-Recorded describe (err e) post = record {
    event = record inserted { error_message = some (raised (take 500 (describe e))) };
    appended = save_last _ inserted db.events refl below;
    same_dedup = refl;
    numbered = refl;
    advanced = refl;
    success = refl;
    reason = inr (describe e, refl, refl);
    commands = Evolves-same (flushed db.geofence) (flushed db.geofence) refl;
  }
  finish-Recorded describe (ok h) (same_id, same_dedup, success, reason, events, next, evolves) =
      record {
        event = h.event;
        appended =
            ap (save event_key h.event) events ∙ save_last h.event inserted db.events same_id below;
        same_dedup = same_dedup;
        numbered = same_id;
        advanced = next;
        success = success;
        reason = inl reason;
        commands =
            subst (Evolves (flushed db.geofence)) (sym (append-nil (flushed h.store.geofence)))
              evolves;
      }

-- Either the event is a duplicate or it is recorded.
abbrev pub Outcome : Payload → EventStore → ChirpStackHandleResult × EventStore → Type 0
Outcome payload db v = (v ≡ (is_duplicate, db)) ⊎ Recorded payload db v

pub insert-Recorded :
    (ctx : EventContext) (info : ChirpStackTopicInfo) (topic_text : List ℕ) (payload : Payload)
    (db : EventStore)
    → UniqueKeys key (commands_of db)
    → EventsBelow db
    → (violates_unique payload.deduplication_id db.events || ctx.inserted_meanwhile) ≡ false
    → Recorded payload db (insert_and_process ctx info topic_text payload db)
unfolding insert_and_process
insert-Recorded ctx info topic_text payload db u below e =
    let new = inserted info topic_text payload db below in
    let stored = db_inserted info topic_text payload db below in
    rw e (
      finish-Recorded info topic_text payload db below ctx.describe
        (process_event ctx info payload new stored)
        (process_event-Post ctx info payload new stored refl u))
