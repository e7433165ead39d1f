-- ===== src/Event/Made.antt =====
-- The data of an event reads back as it was written.
use windforce_lite.Prelude.{◌≡◌, refl, Option, none, some, ℕ_discrete}
use windforce_lite.Str.{Str, str_dec}
use windforce_lite.State.Types.{Time}
use windforce_lite.State.Result.{ok}
use windforce_lite.Event.{ReleasePublishedData, ReleaseRolledBackData, WebhookTestData}
use windforce_lite.Event.Reading.{release_published, release_rolled_back, webhook_test}
use windforce_lite.Event.Making.{published_envelope, rolled_back_envelope, test_envelope}

read_published :
    (w a r c actor : Str) (previous commit note : Option Str) (id : Str) (now : Time)
    → release_published (
        published_envelope id now (record {
          workspace = w;
          app_key = a;
          release_id = r;
          commit = c;
          previous_release_id = previous;
          previous_commit = commit;
          actor = actor;
          note = note;
        }))
      ≡ ok (record {
        workspace = w;
        app_key = a;
        release_id = r;
        commit = c;
        previous_release_id = previous;
        previous_commit = commit;
        actor = actor;
        note = note;
      })
unfolding release_published published_envelope str_dec ℕ_discrete
read_published w a r c actor none none none id now = refl
read_published w a r c actor none none (some n) id now = refl
read_published w a r c actor none (some m) none id now = refl
read_published w a r c actor none (some m) (some n) id now = refl
read_published w a r c actor (some p) none none id now = refl
read_published w a r c actor (some p) none (some n) id now = refl
read_published w a r c actor (some p) (some m) none id now = refl
read_published w a r c actor (some p) (some m) (some n) id now = refl

pub release_published-published_envelope :
    (id : Str) (now : Time) (d : ReleasePublishedData)
    → release_published (published_envelope id now d) ≡ ok d
release_published-published_envelope id now d =
    read_published d.workspace d.app_key d.release_id d.commit d.actor d.previous_release_id
      d.previous_commit d.note id now

pub release_rolled_back-rolled_back_envelope :
    (id : Str) (now : Time) (d : ReleaseRolledBackData)
    → release_rolled_back (rolled_back_envelope id now d) ≡ ok d
unfolding release_rolled_back rolled_back_envelope str_dec ℕ_discrete
release_rolled_back-rolled_back_envelope id now d = refl

pub webhook_test-test_envelope :
    (id : Str) (now : Time) (d : WebhookTestData) → webhook_test (test_envelope id now d) ≡ ok d
unfolding webhook_test test_envelope str_dec ℕ_discrete
webhook_test-test_envelope id now d = refl

-- What a constructor writes into an event is what the reader of its type gives back: for all three
-- types of events, the data that is encoded is decoded unchanged, its optional members included.
pub event_data_roundtrip :
    (id : Str) (now : Time) (p : ReleasePublishedData) (r : ReleaseRolledBackData)
    (w : WebhookTestData)
    → (release_published (published_envelope id now p) ≡ ok p)
      × (release_rolled_back (rolled_back_envelope id now r) ≡ ok r)
      × (webhook_test (test_envelope id now w) ≡ ok w)
event_data_roundtrip id now p r w = (
  release_published-published_envelope id now p,
  release_rolled_back-rolled_back_envelope id now r,
  webhook_test-test_envelope id now w,
)
