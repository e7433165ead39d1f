-- ===== src/Event.antt =====
-- internal/event/event.go: the events of the control plane, their making, checking and reading.
pub mod Reading
pub mod Making
pub mod Made
pub mod Checks
pub mod Checked
mod Examples
use windforce_lite.Prelude.{
  ℕ, ltb, ◌==◌, not, Bool, true, false, ◌&&◌, ◌||◌, Option, none, some, List, [], ◌∷◌, ◌++◌,
  if◌then◌else◌, is_nil, length,
}
use windforce_lite.Str.{Str, str, str_eq, trim_space}
use windforce_lite.Json.{
  Json, Raw, json, absent, malformed, Fields, no_fields, field, object, text, null, valid,
}
use windforce_lite.Contract.{normalize_workspace}
use windforce_lite.State.Types.{Time, Err, invalid_event}
use windforce_lite.State.Result.{Result, ok, err, ◌>>=◌, ◌>>◌, guard, or_fail}

pub record Envelope : Type 0 where
  pub spec_version : Str
  pub id : Str
  pub event_type : Str
  pub source : Str
  pub subject : Str
  pub time : Time
  pub data_content_type : Str
  pub content : Raw

pub record ReleasePublishedData : Type 0 where
  pub workspace : Str
  pub app_key : Str
  pub release_id : Str
  pub commit : Str
  pub previous_release_id : Option Str
  pub previous_commit : Option Str
  pub actor : Str
  pub note : Option Str

pub record ReleaseRolledBackData : Type 0 where
  pub workspace : Str
  pub app_key : Str
  pub release_id : Str
  pub commit : Str
  pub previous_release_id : Str
  pub previous_commit : Str
  pub actor : Str
  pub reason : Str

pub record WebhookTestData : Type 0 where
  pub workspace : Str
  pub subscription_id : Str
  pub actor : Str

abbrev pub cloud_events_spec_version : Str
cloud_events_spec_version = str "1.0"

abbrev pub json_content_type : Str
json_content_type = str "application/json"

abbrev pub release_published_type : Str
release_published_type = str "windforce.release.published"

abbrev pub release_rolled_back_type : Str
release_rolled_back_type = str "windforce.release.rolled_back"

abbrev pub webhook_test_type : Str
webhook_test_type = str "windforce.webhook.test"

-- An optional member is left out where it is nil.
abbrev pub omit_empty : Str → Option Str → Fields → Fields
omit_empty key none rest = rest
omit_empty key (some value) rest = field key (text value) rest

unfoldable pub published_json : ReleasePublishedData → Raw
published_json d = json (
    object (
      field (str "workspace") (text d.workspace) (
        field (str "app_key") (text d.app_key) (
          field (str "release_id") (text d.release_id) (
            field (str "commit") (text d.commit) (
              omit_empty (str "previous_release_id") d.previous_release_id (
                omit_empty (str "previous_commit") d.previous_commit (
                  field (str "actor") (text d.actor)
                    (omit_empty (str "note") d.note no_fields)))))))))

unfoldable pub rolled_back_json : ReleaseRolledBackData → Raw
rolled_back_json d = json (
    object (
      field (str "workspace") (text d.workspace) (
        field (str "app_key") (text d.app_key) (
          field (str "release_id") (text d.release_id) (
            field (str "commit") (text d.commit) (
              field (str "previous_release_id") (text d.previous_release_id) (
                field (str "previous_commit") (text d.previous_commit) (
                  field (str "actor") (text d.actor)
                    (field (str "reason") (text d.reason) no_fields)))))))))

unfoldable pub webhook_test_json : WebhookTestData → Raw
webhook_test_json d = json (
    object (
      field (str "workspace") (text d.workspace) (
        field (str "subscription_id") (text d.subscription_id)
          (field (str "actor") (text d.actor) no_fields))))

abbrev pub control_plane_source : Str → Str
control_plane_source workspace = str "/workspaces/" ++ workspace ++ str "/control-plane"

abbrev pub release_subject : Str → Str → Str
release_subject app_key release_id = str "apps/" ++ app_key ++ str "/releases/" ++ release_id

abbrev pub test_subject : Str → Str
test_subject subscription_id = str "webhooks/" ++ subscription_id ++ str "/test"

-- if actor == "" { actor = "system" }
abbrev pub or_system : Str → Str
or_system actor = if is_nil actor then str "system" else actor

abbrev pub trimmed_note : Option Str → Option Str
trimmed_note none = none
trimmed_note (some note) = if is_nil (trim_space note) then none else some (trim_space note)
