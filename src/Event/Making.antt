-- ===== src/Event/Making.antt =====
-- internal/event/event.go: Validate and the constructors of events, which validate what they make.
use windforce_lite.Prelude.{ltb, ◌==◌, not, Bool, ◌&&◌, if◌then◌else◌, length}
use windforce_lite.Str.{Str, str, str_eq, trim_space, has_prefix}
use windforce_lite.Json.{Raw, valid}
use windforce_lite.Contract.{normalize_workspace}
use windforce_lite.State.Types.{Time, invalid_event}
use windforce_lite.State.Result.{Result, ok, err, ◌>>=◌, ◌>>◌, guard}
use windforce_lite.Event.{
  Envelope, ReleasePublishedData, ReleaseRolledBackData, WebhookTestData, cloud_events_spec_version,
  json_content_type, release_published_type, release_rolled_back_type, webhook_test_type,
  control_plane_source, release_subject, test_subject, published_json, rolled_back_json,
  webhook_test_json, or_system, trimmed_note,
}
use windforce_lite.Event.Reading.{release_published, release_rolled_back, webhook_test, is_blank}

unfoldable pub validate_release_published : Envelope → Result (Unit {0})
unfolding release_published
validate_release_published e = do
  d ← release_published e
  guard (not (is_blank d.app_key)) invalid_event
  guard (not (is_blank d.release_id)) invalid_event
  guard (not (is_blank d.commit)) invalid_event
  guard (not (is_blank d.actor)) invalid_event
  guard (str_eq e.source (control_plane_source (normalize_workspace d.workspace))) invalid_event
  guard (str_eq e.subject (release_subject d.app_key d.release_id)) invalid_event

unfoldable pub validate_release_rolled_back : Envelope → Result (Unit {0})
unfolding release_rolled_back
validate_release_rolled_back e = do
  d ← release_rolled_back e
  guard (not (is_blank d.app_key)) invalid_event
  guard (not (is_blank d.release_id)) invalid_event
  guard (not (is_blank d.commit)) invalid_event
  guard (not (is_blank d.previous_release_id)) invalid_event
  guard (not (is_blank d.previous_commit)) invalid_event
  guard (not (is_blank d.actor)) invalid_event
  guard (not (is_blank d.reason)) invalid_event
  guard (str_eq e.source (control_plane_source (normalize_workspace d.workspace))) invalid_event
  guard (str_eq e.subject (release_subject d.app_key d.release_id)) invalid_event

unfoldable pub validate_webhook_test : Envelope → Result (Unit {0})
unfolding webhook_test
validate_webhook_test e = do
  d ← webhook_test e
  guard (not (is_blank d.subscription_id)) invalid_event
  guard (not (is_blank d.actor)) invalid_event
  guard (str_eq e.source (control_plane_source (normalize_workspace d.workspace))) invalid_event
  guard (str_eq e.subject (test_subject d.subscription_id)) invalid_event

-- strings.HasPrefix(value.ID, "evt_") && len(value.ID) > len("evt_")
unfoldable pub is_event_id : Str → Bool
unfolding has_prefix
is_event_id id = has_prefix id (str "evt_") && ltb 4 (length id)

-- switch value.Type
unfoldable pub validate_data : Envelope → Result (Unit {0})
unfolding validate_release_published validate_release_rolled_back validate_webhook_test
validate_data e =
    if str_eq e.event_type release_published_type
    then validate_release_published e
    else if str_eq e.event_type release_rolled_back_type
    then validate_release_rolled_back e
    else if str_eq e.event_type webhook_test_type
    then validate_webhook_test e
    else err invalid_event

unfoldable pub validate : Envelope → Result (Unit {0})
unfolding validate_data is_event_id
validate e = do
  guard (str_eq e.spec_version cloud_events_spec_version) invalid_event
  guard (is_event_id e.id) invalid_event
  guard (not (e.time == 0)) invalid_event
  guard (str_eq e.data_content_type json_content_type) invalid_event
  guard (valid e.content) invalid_event
  validate_data e

abbrev pub envelope_of : Str → Str → Str → Str → Time → Raw → Envelope
envelope_of id event_type source subject occurred_at content = record {
  spec_version = cloud_events_spec_version;
  id = trim_space id;
  event_type = event_type;
  source = source;
  subject = subject;
  time = occurred_at;
  data_content_type = json_content_type;
  content = content;
}

-- The data as NewReleasePublished prepares it.
unfoldable pub prepared_published : ReleasePublishedData → ReleasePublishedData
prepared_published d = record d {
  workspace = normalize_workspace d.workspace;
  actor = or_system (trim_space d.actor);
  note = trimmed_note d.note;
}

unfoldable pub published_envelope : Str → Time → ReleasePublishedData → Envelope
unfolding published_json
published_envelope id occurred_at d =
    envelope_of id release_published_type (control_plane_source d.workspace)
      (release_subject d.app_key d.release_id) occurred_at (published_json d)

unfoldable pub new_release_published : Str → Time → ReleasePublishedData → Result Envelope
unfolding prepared_published published_envelope validate
new_release_published id occurred_at d = do
  validate (published_envelope id occurred_at (prepared_published d))
  ok (published_envelope id occurred_at (prepared_published d))

unfoldable pub prepared_rolled_back : ReleaseRolledBackData → ReleaseRolledBackData
prepared_rolled_back d = record d {
  workspace = normalize_workspace d.workspace;
  actor = trim_space d.actor;
  reason = trim_space d.reason;
}

unfoldable pub rolled_back_envelope : Str → Time → ReleaseRolledBackData → Envelope
unfolding rolled_back_json
rolled_back_envelope id occurred_at d =
    envelope_of id release_rolled_back_type (control_plane_source d.workspace)
      (release_subject d.app_key d.release_id) occurred_at (rolled_back_json d)

unfoldable pub new_release_rolled_back : Str → Time → ReleaseRolledBackData → Result Envelope
unfolding prepared_rolled_back rolled_back_envelope validate
new_release_rolled_back id occurred_at d = do
  validate (rolled_back_envelope id occurred_at (prepared_rolled_back d))
  ok (rolled_back_envelope id occurred_at (prepared_rolled_back d))

unfoldable pub prepared_test : WebhookTestData → WebhookTestData
prepared_test d = record {
  workspace = normalize_workspace d.workspace;
  subscription_id = trim_space d.subscription_id;
  actor = or_system (trim_space d.actor);
}

unfoldable pub test_envelope : Str → Time → WebhookTestData → Envelope
unfolding webhook_test_json
test_envelope id occurred_at d =
    envelope_of id webhook_test_type (control_plane_source d.workspace)
      (test_subject d.subscription_id) occurred_at (webhook_test_json d)

unfoldable pub new_webhook_test : Str → Time → WebhookTestData → Result Envelope
unfolding prepared_test test_envelope validate
new_webhook_test id occurred_at d = do
  validate (test_envelope id occurred_at (prepared_test d))
  ok (test_envelope id occurred_at (prepared_test d))
