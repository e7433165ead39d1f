-- ===== src/Event/Reading.antt =====
-- internal/event/event.go: the data of an event, read with unknown fields refused, and the checks of
-- an event.
use windforce_lite.Prelude.{Bool, Option, none, some, [], if◌then◌else◌, is_nil}
use windforce_lite.Str.{Str, str, str_eq, trim_space}
use windforce_lite.Json.{Json, Raw, json, Fields, no_fields, field, object, text, null}
use windforce_lite.Crypto.{◌>>=◌}
use windforce_lite.State.Types.{invalid_event}
use windforce_lite.State.Result
use windforce_lite.State.Result.{Result, ok, err, guard, ◌>>◌}
use windforce_lite.Event.{
  Envelope, ReleasePublishedData, ReleaseRolledBackData, WebhookTestData, release_published_type,
  release_rolled_back_type, webhook_test_type,
}

-- A member of type string: a text, or null, which leaves what is there.
abbrev pub member_text : Str → Json → Option Str
member_text old (text s) = some s
member_text old null = some old
member_text old _ = none

-- A member of type *string, where null is nil.
abbrev pub member_pointer : Json → Option (Option Str)
member_pointer (text s) = some (some s)
member_pointer null = some none
member_pointer _ = none

-- One member of the object; the last case is DisallowUnknownFields.
unfoldable pub published_member : Str → Json → ReleasePublishedData → Option ReleasePublishedData
published_member key value d =
    if str_eq key (str "workspace")
    then (do s ← member_text d.workspace value; some (record d { workspace = s }))
    else if str_eq key (str "app_key")
    then (do s ← member_text d.app_key value; some (record d { app_key = s }))
    else if str_eq key (str "release_id")
    then (do s ← member_text d.release_id value; some (record d { release_id = s }))
    else if str_eq key (str "commit")
    then (do s ← member_text d.commit value; some (record d { commit = s }))
    else if str_eq key (str "previous_release_id")
    then (do s ← member_pointer value; some (record d { previous_release_id = s }))
    else if str_eq key (str "previous_commit")
    then (do s ← member_pointer value; some (record d { previous_commit = s }))
    else if str_eq key (str "actor")
    then (do s ← member_text d.actor value; some (record d { actor = s }))
    else if str_eq key (str "note")
    then (do s ← member_pointer value; some (record d { note = s }))
    else none

unfoldable pub rolled_back_member :
    Str → Json → ReleaseRolledBackData → Option ReleaseRolledBackData
rolled_back_member key value d =
    if str_eq key (str "workspace")
    then (do s ← member_text d.workspace value; some (record d { workspace = s }))
    else if str_eq key (str "app_key")
    then (do s ← member_text d.app_key value; some (record d { app_key = s }))
    else if str_eq key (str "release_id")
    then (do s ← member_text d.release_id value; some (record d { release_id = s }))
    else if str_eq key (str "commit")
    then (do s ← member_text d.commit value; some (record d { commit = s }))
    else if str_eq key (str "previous_release_id")
    then (do
      s ← member_text d.previous_release_id value
      some (record d { previous_release_id = s }))
    else if str_eq key (str "previous_commit")
    then (do s ← member_text d.previous_commit value; some (record d { previous_commit = s }))
    else if str_eq key (str "actor")
    then (do s ← member_text d.actor value; some (record d { actor = s }))
    else if str_eq key (str "reason")
    then (do s ← member_text d.reason value; some (record d { reason = s }))
    else none

unfoldable pub test_member : Str → Json → WebhookTestData → Option WebhookTestData
test_member key value d =
    if str_eq key (str "workspace")
    then (do s ← member_text d.workspace value; some (record d { workspace = s }))
    else if str_eq key (str "subscription_id")
    then (do s ← member_text d.subscription_id value; some (record d { subscription_id = s }))
    else if str_eq key (str "actor")
    then (do s ← member_text d.actor value; some (record d { actor = s }))
    else none

-- decoder.Decode of an object into a struct
unfoldable pub decode_members {ℓ} :
    {A : Type ℓ} → (Str → Json → A → Option A) → Fields → A → Option A
decode_members member no_fields d = some d
decode_members member (field key value rest) d = member key value d >>= decode_members member rest

-- Data that is no single JSON object is refused, but for null, which reads as the zero value.
abbrev pub decode_data {ℓ} : {A : Type ℓ} → (Str → Json → A → Option A) → A → Raw → Result A
decode_data member zero_value (json (object fs)) =
    Result.or_fail (decode_members member fs zero_value) invalid_event
decode_data member zero_value (json null) = ok zero_value
decode_data member zero_value _ = err invalid_event

abbrev pub no_published : ReleasePublishedData
no_published = record {
  workspace = [];
  app_key = [];
  release_id = [];
  commit = [];
  previous_release_id = none;
  previous_commit = none;
  actor = [];
  note = none;
}

abbrev pub no_rolled_back : ReleaseRolledBackData
no_rolled_back = record {
  workspace = [];
  app_key = [];
  release_id = [];
  commit = [];
  previous_release_id = [];
  previous_commit = [];
  actor = [];
  reason = [];
}

abbrev pub no_test : WebhookTestData
no_test = record { workspace = []; subscription_id = []; actor = [] }

unfoldable pub release_published : Envelope → Result ReleasePublishedData
unfolding published_member decode_members
release_published e =
    guard (str_eq e.event_type release_published_type) invalid_event
    >> decode_data published_member no_published e.content

unfoldable pub release_rolled_back : Envelope → Result ReleaseRolledBackData
unfolding rolled_back_member decode_members
release_rolled_back e =
    guard (str_eq e.event_type release_rolled_back_type) invalid_event
    >> decode_data rolled_back_member no_rolled_back e.content

unfoldable pub webhook_test : Envelope → Result WebhookTestData
unfolding test_member decode_members
webhook_test e =
    guard (str_eq e.event_type webhook_test_type) invalid_event
    >> decode_data test_member no_test e.content

abbrev pub is_blank : Str → Bool
is_blank s = is_nil (trim_space s)
