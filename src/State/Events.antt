-- ===== src/State/Events.antt =====
-- internal/state/local_store.go, job_views.go: the event log of the snapshot.
use windforce_lite.Prelude.{suc, [], ◌∷◌, ◌++◌, if◌then◌else◌, is_nil}
use windforce_lite.Str.{Str, str}
use windforce_lite.Json.{Fields, json, object, text, no_fields, field, set_field}
use windforce_lite.State.Types.{Snapshot, Time}

unfoldable pub append_event : Str → Str → Fields → Time → Snapshot → Snapshot
append_event run_id event_type payload now s = record s {
  sequence = suc s.sequence;
  events =
      s.events
      ++ record {
        id = suc s.sequence;
        run_id = run_id;
        event_type = event_type;
        payload = json (object payload);
        created_at = now;
      }
        ∷ [];
}

-- eventPayload: the correlation id is added if there is one.
unfoldable pub event_payload : Str → Fields → Fields
event_payload correlation_id values =
    if is_nil correlation_id
    then values
    else set_field (str "correlationId") (text correlation_id) values

-- A map literal of one or two strings.
abbrev pub one_text : Str → Str → Fields
one_text k v = field k (text v) no_fields

abbrev pub two_texts : Str → Str → Str → Str → Fields
two_texts k v j w = field k (text v) (field j (text w) no_fields)
