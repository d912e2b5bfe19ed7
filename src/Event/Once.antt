-- ===== src/Event/Once.antt =====
-- An event is handled once.
use text.Mathlib.Text.{◌==◌ as str_eq}
use text.Mathlib.TextPositions.{eq_refl}
use tlrs.Prelude.{
  ℕ, ◌≤◌, ◌≡◌, refl, sym, ap, ◌∙◌, subst, Bool, true, false, ◌||◌, Option, none, some, List, [],
  ◌∷◌, select, length, String, ok, if◌then◌else◌, >>=-eq-ok, ok-injective, Bool-cases, arith, inl,
  inr, is_some, first,
}
use tlrs.Model.Query.{scalar_one_or_none}
use tlrs.Model.Keys.{to_list, scalar_one_or_none-to_list, select-insert}
use tlrs.Model.Table.{UniqueKeys}
use tlrs.Command.Create.{wrap}
use tlrs.Command.Create.Keeps.{wrap-eq-ok}
use tlrs.Wire.Topic.{ChirpStackTopicInfo, parse_chirpstack_event_topic}
use tlrs.Event.Tables.{
  Payload, EventError, ChirpStackEvent, ChirpStackHandleResult, EventStore, EventContext,
}
use tlrs.Event.Network.{commands_of}
use tlrs.Event.Service.{
  by_deduplication_id, same_id, event_exists, violates_unique, event_key, invalid_topic, query,
  is_duplicate, insert_and_process, handle_event,
}
use tlrs.Event.Evolves.{key}
use tlrs.Event.Recorded.{EventsBelow, Recorded, insert-Recorded}

-- The events with an id.
abbrev with_id : String → List ChirpStackEvent → List ChirpStackEvent
with_id id events = select (by_deduplication_id id) events

-- One event has the id.
abbrev pub IsHandled : String → List ChirpStackEvent → Type 0
IsHandled id events = (e : ChirpStackEvent) × (with_id id events ≡ e ∷ [])

one_of :
    (xs : List ChirpStackEvent)
    → length xs ≤ 1
    → is_some (first xs) ≡ true
    → (e : ChirpStackEvent) × (xs ≡ e ∷ [])
one_of [] le h = cc
one_of (x ∷ []) le h = (x, refl)
one_of (x ∷ y ∷ xs) le h = absurd (let none : ⊥ = omega (arith, le) in none)

none_of : (xs : List ChirpStackEvent) → is_some (first xs) ≡ false → xs ≡ []
none_of [] h = refl
none_of (x ∷ xs) h = cc

-- A second event with the id is found, or refused by the constraint.
IsHandled-exists :
    (id : String) (events : List ChirpStackEvent) {found : Bool}
    → event_exists (some id) events ≡ ok found
    → found ≡ true
    → IsHandled id events
unfolding event_exists
IsHandled-exists id events {found} h it = elim (Bool-cases (str_eq id "")) [
  | inl b ↦ cc (rw b at h)
  | inr b ↦
      let many = EventError.multiple_results in
      let (o, e, h₁) =
        >>=-eq-ok (scalar_one_or_none many (with_id id events)) (λ o. ok (is_some o)) (rw b at h) in
      of_option o (scalar_one_or_none-to_list many (with_id id events) e) (ok-injective h₁ ∙ it)
]
  where
    of_option :
        (o : Option ChirpStackEvent)
        → with_id id events ≡ to_list o
        → is_some o ≡ true
        → IsHandled id events
    of_option none e h = cc
    of_option (some x) e h = (x, e)

has_id :
    (id : String) (e : ChirpStackEvent)
    → e.deduplication_id ≡ some id
    → by_deduplication_id id e ≡ true
has_id id e h = ap (λ o. same_id o id) h ∙ eq_refl id

IsHandled-Recorded :
    (id : String) (payload : Payload) (db : EventStore) (v : ChirpStackHandleResult × EventStore)
    → payload.deduplication_id ≡ some id
    → with_id id db.events ≡ []
    → Recorded payload db v
    → IsHandled id v.1.events
IsHandled-Recorded id payload db v has new r =
    let p = by_deduplication_id id in
    (
      r.event,
      ap (select p) r.appended
          ∙ select-insert event_key p db.events (r.event ∷ [])
          ∙ rw (new, has_id id r.event (r.same_dedup ∙ has)) refl,
    )

violates_with :
    (id : String) (events : List ChirpStackEvent) (o : Option String)
    → o ≡ some id
    → violates_unique o events ≡ is_some (first (with_id id events))
violates_with id events o h =
    ap (λ p. violates_unique p events) h ∙ (unfold violates_unique in refl)

insert_refused :
    (ctx : EventContext) (info : ChirpStackTopicInfo) (topic_text : List ℕ) (payload : Payload)
    (db : EventStore)
    → violates_unique payload.deduplication_id db.events ≡ true
    → insert_and_process ctx info topic_text payload db ≡ (is_duplicate, db)
unfolding insert_and_process
insert_refused ctx info topic_text payload db e = rw e refl

-- The insertion leaves one event with the id.
insert-IsHandled :
    (ctx : EventContext) (info : ChirpStackTopicInfo) (topic_text : List ℕ) (payload : Payload)
    (db : EventStore) (id : String)
    → payload.deduplication_id ≡ some id
    → ctx.inserted_meanwhile ≡ false
    → length (with_id id db.events) ≤ 1
    → UniqueKeys key (commands_of db)
    → EventsBelow db
    → IsHandled id (insert_and_process ctx info topic_text payload db).1.events
insert-IsHandled ctx info topic_text payload db id has alone one u below =
    let test = sym (violates_with id db.events payload.deduplication_id has) in
    elim (Bool-cases (violates_unique payload.deduplication_id db.events)) [
      | inl e ↦
          subst (λ (v : ChirpStackHandleResult × EventStore). IsHandled id v.1.events)
            (sym (insert_refused ctx info topic_text payload db e))
            (one_of (with_id id db.events) one (test ∙ e))
      | inr e ↦
          let free : (violates_unique payload.deduplication_id db.events || ctx.inserted_meanwhile)
              ≡ false =
            rw e alone in
          IsHandled-Recorded id payload db (insert_and_process ctx info topic_text payload db) has
            (none_of (with_id id db.events) (test ∙ e))
            (insert-Recorded ctx info topic_text payload db u below free)
    ]

exists_with :
    (id : String) (events : List ChirpStackEvent) (o : Option String)
    → o ≡ some id
    → IsHandled id events
    → str_eq id "" ≡ false
    → event_exists o events ≡ ok true
exists_with id events o h (e, one) b =
    ap (λ p. event_exists p events) h
    ∙ (unfold event_exists in (unfold scalar_one_or_none in (rw (b, one) refl)))

empty_with :
    (id : String) (events : List ChirpStackEvent) (o : Option String)
    → o ≡ some id
    → str_eq id "" ≡ true
    → event_exists o events ≡ ok false
empty_with id events o h b =
    ap (λ p. event_exists p events) h ∙ (unfold event_exists in (rw b refl))

-- A repeated event with an id that one event has.
repeated :
    (ctx : EventContext) (topic_text : List ℕ) (payload : Payload) (db : EventStore) (id : String)
    {info : ChirpStackTopicInfo}
    → payload.deduplication_id ≡ some id
    → parse_chirpstack_event_topic topic_text ≡ ok info
    → IsHandled id db.events
    → handle_event ctx topic_text payload db ≡ ok (is_duplicate, db)
unfolding handle_event
repeated ctx topic_text payload db id {info} has parsed (e, one) =
    elim (Bool-cases (str_eq id "")) [
      | inl b ↦
          rw
            (
              parsed,
              empty_with id db.events payload.deduplication_id has b,
              insert_refused ctx info topic_text payload db
                  (violates_with id db.events payload.deduplication_id has ∙ rw one refl),
            )
            refl
      | inr b ↦ rw (parsed, exists_with id db.events payload.deduplication_id has (e, one) b) refl
    ]

-- The table behind an event with an id.
handle_event-IsHandled :
    (ctx : EventContext) (topic_text : List ℕ) (payload : Payload) (db : EventStore) (id : String)
    {v : ChirpStackHandleResult × EventStore}
    → payload.deduplication_id ≡ some id
    → ctx.inserted_meanwhile ≡ false
    → length (with_id id db.events) ≤ 1
    → UniqueKeys key (commands_of db)
    → EventsBelow db
    → handle_event ctx topic_text payload db ≡ ok v
    → IsHandled id v.1.events
unfolding handle_event
handle_event-IsHandled ctx topic_text payload db id {v} has alone one u below h =
    let (info, _, h₁) =
      >>=-eq-ok (wrap invalid_topic (parse_chirpstack_event_topic topic_text)) _ h in
    let (exists, e, h₂) =
      >>=-eq-ok (wrap query (event_exists payload.deduplication_id db.events))
        (λ exists. ok (
          if exists then (is_duplicate, db) else insert_and_process ctx info topic_text payload db))
        h₁ in
    let found = wrap-eq-ok query (event_exists payload.deduplication_id db.events) e in
    let asked : event_exists (some id) db.events ≡ ok exists =
      subst (λ o. event_exists o db.events ≡ ok exists) has found in
    subst (λ (w : ChirpStackHandleResult × EventStore). IsHandled id w.1.events) (ok-injective h₂)
      (either exists info (IsHandled-exists id db.events asked))
  where
    either :
        (exists : Bool) (info : ChirpStackTopicInfo)
        → (exists ≡ true → IsHandled id db.events)
        → IsHandled id
            (if exists
              then (is_duplicate, db)
              else insert_and_process ctx info topic_text payload db).1.events
    either true info there = there refl
    either false info there =
        insert-IsHandled ctx info topic_text payload db id has alone one u below

-- On commands with distinct keys, events below the next key and at most one event with the id, where
-- no other transaction inserts the event meanwhile: once an event with a deduplication id has
-- been handled, with or without an error, exactly one event has the id, and any event with that
-- id on a valid topic is a duplicate, which changes nothing.
pub handle_event_once :
    (ctx ctx' : EventContext) (topic_text topic_text' : List ℕ) (payload payload' : Payload)
    (db : EventStore) (id : String) {v : ChirpStackHandleResult × EventStore}
    {info : ChirpStackTopicInfo}
    → payload.deduplication_id ≡ some id
    → payload'.deduplication_id ≡ some id
    → ctx.inserted_meanwhile ≡ false
    → length (with_id id db.events) ≤ 1
    → UniqueKeys key (commands_of db)
    → EventsBelow db
    → handle_event ctx topic_text payload db ≡ ok v
    → parse_chirpstack_event_topic topic_text' ≡ ok info
    → IsHandled id v.1.events
      × (handle_event ctx' topic_text' payload' v.1 ≡ ok (is_duplicate, v.1))
handle_event_once ctx ctx' topic_text topic_text' payload payload' db id {v} has has' alone one u
      below h parsed =
    let it = handle_event-IsHandled ctx topic_text payload db id has alone one u below h in
    (it, repeated ctx' topic_text' payload' v.1 id has' parsed it)
