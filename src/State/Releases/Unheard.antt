-- ===== src/State/Releases/Unheard.antt =====
-- A rollback that the catalog accepts and the store refuses.
use windforce_lite.Prelude.{◌≡◌, true, arith}
use windforce_lite.Str.{Str}
use windforce_lite.State.Types.{Time, invalid_event}
use windforce_lite.State.Result.{ok, err}
use windforce_lite.Event.{ReleaseRolledBackData}
use windforce_lite.Event.Reading.{is_blank}
use windforce_lite.Event.Making.{new_release_rolled_back}
use windforce_lite.Event.Checks.{new_release_rolled_back_lem}
use windforce_lite.Catalog.{CatalogSnapshot}
use windforce_lite.Catalog.Rollback.{
  ReleaseRollbackRequest, ReleaseRollbackResult, apply_release_rollback,
}
use windforce_lite.State.Releases.{
  Releases, Drawn, prepare_release_rollback_event, rollback_release,
}

-- The event of a rollback needs the release that was active before.
refused_event :
    (id : Str) (now : Time) (d : ReleaseRolledBackData)
    → is_blank d.previous_release_id ≡ true
    → new_release_rolled_back id now d ≡ err invalid_event
refused_event id now d e = rw (new_release_rolled_back_lem id now d) (ground (arith, e))

prepare_release_rollback_event-blank :
    (drawn : Str) (result : ReleaseRollbackResult)
    → is_blank result.previous_release_id ≡ true
    → prepare_release_rollback_event drawn result ≡ err invalid_event
unfolding prepare_release_rollback_event
prepare_release_rollback_event-blank drawn result e = refused_event _ _ _ e

-- A rollback of an app without an active release always fails in the store, although the catalog
-- accepts it: where ApplyReleaseRollback succeeds and the release before it is blank, RollbackRelease
-- gives ErrInvalidEvent.
pub rollback_release-unheard :
    (drawn : Drawn) (request : ReleaseRollbackRequest) (s : Releases) (now : Time)
    (catalog : CatalogSnapshot) (result : ReleaseRollbackResult)
    → apply_release_rollback drawn.version s.catalog request now ≡ ok (catalog, result)
    → is_blank result.previous_release_id ≡ true
    → rollback_release drawn request s now ≡ err invalid_event
unfolding rollback_release
rollback_release-unheard drawn request s now catalog result h e =
    rw (h, prepare_release_rollback_event-blank drawn.event result e)
