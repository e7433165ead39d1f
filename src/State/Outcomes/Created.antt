-- ===== src/State/Outcomes/Created.antt =====
-- A run is read back with the input that it was created with, through the encryption of the store.
use windforce_lite.Prelude.{◌≡◌, refl, sym, ◌∙◌, subst, false, Option, none, some, [], length}
use windforce_lite.Str.{Str}
use windforce_lite.Table.{get}
use windforce_lite.Table.Laws.{get-put_self}
use windforce_lite.Json.{Json, Raw, json, absent, object, no_fields}
use windforce_lite.Contract.{source_workspace}
use windforce_lite.Contract.Tags.{normalize_workspace-IsName, normalize_workspace-name}
use windforce_lite.Crypto.{Primitives, nonce_size, is_enc}
use windforce_lite.Crypto.Roundtrip.{Laws, ReadsBack}
use windforce_lite.State.Types.{Run, Snapshot, Time, non_zero_time}
use windforce_lite.State.Payload.{new_action_job, normalized_job_workspace}
use windforce_lite.State.Result.{ok, or_fail, Ensures, Ensures-bind, Ensures-guard}
use windforce_lite.State.Events.{append_event}
use windforce_lite.State.Crypto.{
  Config, canonical, local_at_rest, encrypt_json_at_rest, decrypt_json_at_rest,
}
use windforce_lite.State.Crypto.Roundtrip.{decrypt-encrypt_at_rest}
use windforce_lite.State.Ops.Enqueue.{create_run_and_enqueue, stamped_job, is_none}
use windforce_lite.State.Ops.Read.{
  decrypt_present, decrypt_optional_result, get_run, decrypt_run_result,
}

-- The job is encrypted in the workspace in which the run is read.
stamped_job-workspace :
    (id : Str) (at now : Time) (run : Run) (input : Raw)
    → normalized_job_workspace [] (stamped_job run (new_action_job id at run input) now)
      ≡ source_workspace run.deployment
unfolding normalized_job_workspace stamped_job new_action_job source_workspace
stamped_job-workspace id at now run input =
    let name = normalize_workspace-IsName run.deployment.workspace in
    rw name.1 (normalize_workspace-name _ name)

ok_inj : (a b : Raw) → ok a ≡ ok b → a ≡ b
ok_inj a b p = cc

-- The run as it is read after its creation.
abbrev pub as_created : Run → Json → Time → Run
as_created run j now = record run {
  created_at = non_zero_time run.created_at now;
  updated_at = now;
  input = json j;
}

module _ (p : Primitives) (laws : Laws p) (config : Config) (nonce : Str)
    (random : Option Str) where
  read_run :
      (run : Run) (j : Json) (stored : Raw) (s : Snapshot) (now : Time)
      → run.output ≡ absent
      → run.result ≡ none
      → decrypt_json_at_rest p none config
          (source_workspace run.deployment)
          stored
          (object no_fields)
        ≡ ok (json j)
      → get run.id s.runs ≡ some (record (as_created run j now) { input = stored })
      → get_run (local_at_rest p config random) run.id s ≡ ok (as_created run j now)
  unfolding get_run decrypt_run_result local_at_rest
  read_run run j stored s now out res d e =
      rw (e, or_fail) (rw d (rw (out, decrypt_present) (rw (res, decrypt_optional_result) refl)))

  -- A run without output and result is read with the input that it was created with, where its
  -- job is made by NewActionJob: if CreateRunAndEnqueue succeeds, GetRun gives the run with that
  -- input and the times of the creation, for every JSON value that is no envelope itself and
  -- that encoding/json reads back, and every nonce of the size of AES-GCM. A missing input reads
  -- as `{}`.
  pub get_run-create_run_and_enqueue :
      (id : Str) (at now : Time) (run : Run) (input : Raw) (j : Json) (s : Snapshot)
      → ReadsBack p j
      → canonical run.input (object no_fields) ≡ json j
      → length nonce ≡ nonce_size
      → is_enc (json j) ≡ false
      → run.output ≡ absent
      → run.result ≡ none
      → Ensures
          (λ t. get_run (local_at_rest p config random) run.id t ≡ ok (as_created run j now))
          (create_run_and_enqueue
            (local_at_rest p config (some nonce))
            run
            (new_action_job id at run input)
            s
            now)
  unfolding create_run_and_enqueue append_event
  get_run-create_run_and_enqueue id at now run input j s b same n x out res =
      let rest = local_at_rest p config (some nonce) in
      let job = stamped_job run (new_action_job id at run input) now in
      let Reads : Snapshot → Type 0 =
        λ t. get_run (local_at_rest p config random) run.id t ≡ ok (as_created run j now) in
      Ensures-guard Reads (is_none (get run.id s.runs)) _ _ λ _.
        Ensures-guard Reads (is_none (get (new_action_job id at run input).id s.jobs)) _ _ λ _.
          Ensures-bind Reads (rest.encrypt_input (normalized_job_workspace [] job) run.input) _
            λ run_input e.
              Ensures-bind Reads
                (rest.encrypt_input (normalized_job_workspace [] job) job.payload.input) _
                λ job_input _.
                  let (stored, encrypted, decrypted) =
                    decrypt-encrypt_at_rest p laws config nonce (source_workspace run.deployment)
                      run.input (object no_fields) j b same n x in
                  let q : stored ≡ run_input =
                    ok_inj stored run_input
                      (sym encrypted ∙ encrypted_in id at now run input run_input e) in
                  read_run run j run_input _ now out res
                    (subst
                      (λ r.
                        decrypt_json_at_rest p none config (source_workspace run.deployment) r
                          (object no_fields)
                        ≡ ok (json j))
                      q decrypted)
                    (get-put_self run.id (record (as_created run j now) { input = run_input })
                      s.runs)
    where
      encrypted_in :
          (id : Str) (at now : Time) (run : Run) (input run_input : Raw)
          → (local_at_rest p config (some nonce)).encrypt_input
              (normalized_job_workspace [] (stamped_job run (new_action_job id at run input) now))
              run.input
            ≡ ok run_input
          → encrypt_json_at_rest p none config
              (some nonce)
              (source_workspace run.deployment)
              run.input
              (object no_fields)
            ≡ ok run_input
      encrypted_in id at now run input run_input e =
          unfold local_at_rest in
          subst
            (λ w.
              encrypt_json_at_rest p none config (some nonce) w run.input (object no_fields)
              ≡ ok run_input)
            (stamped_job-workspace id at now run input) e
