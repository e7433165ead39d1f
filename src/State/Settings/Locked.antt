-- ===== src/State/Settings/Locked.antt =====
-- A key that the stored settings lock cannot be set by a request.
use mathlib.Core.List.{Memᴰ}
use mathlib.Core.List.Memᴰ.{head, tail}
use windforce_lite.Prelude.{
  ◌≡◌, refl, sym, true, ◌&&◌, Option, some, List, [], ◌∷◌, ◌⊎◌, inl, inr, Bool-cases, arith, is_nil,
  not,
}
use windforce_lite.Str.{Str, str_eq, trim_space}
use windforce_lite.Table.{get, put}
use windforce_lite.Table.Laws.{get-put_self}
use windforce_lite.Sort.{sort}
use windforce_lite.Json.{Json, Raw, no_fields, object}
use windforce_lite.Contract.{contains, normalize_workspace}
use windforce_lite.Contract.Tags.{normalize_workspace-normalize_workspace}
use windforce_lite.State.Types.{Err, Time, first_non_empty, default_actor_subject}
use windforce_lite.State.Result.{
  Result, Result-cases, ok, err, ◌>>=◌, Ensures, Ensures-or_fail, Ensures-bind, Ensures-ok,
}
use windforce_lite.State.AtRest.{AtRest}
use windforce_lite.State.Crypto.{canonical}
use windforce_lite.State.Settings.{InputConfig, Settings}
use windforce_lite.State.Settings.Changes.{find_input_config, append_local_input_config_audit}
use windforce_lite.State.Settings.Overlay.{
  Object, unmarshal_object, marshal_object, normalized_locked_keys, layers_of,
  resolve_input_configs, rank_before,
}
use windforce_lite.State.Settings.Merged.{locks}
use windforce_lite.State.Settings.Listed.{Lists, list_input_configs_for_app-Lists}
use windforce_lite.State.Settings.Locks.{layers_of-locks, normalized_locked_keys_has}
use windforce_lite.State.Settings.Precedence.{sort-Memᴰ}
use windforce_lite.State.Settings.Resolved.{resolve_input_configs_lem}
use windforce_lite.State.Settings.Stored.{
  configs_of, list_input_configs_for_app, has_client, write_config, input_config_key, applies,
  applicable, resolve_input, set_input_config,
}

-- The answer is an error.
abbrev pub Fails {ℓ} : {A : Type ℓ} → Result A → Type ℓ
Fails r = (e : Err) × (r ≡ err e)

Fails-bind {ℓ κ} :
    {A : Type ℓ} {B : Type κ} (r : Result A) (f : A → Result B)
    → ((a : A) → r ≡ ok a → Fails (f a))
    → Fails (r >>= f)
Fails-bind (ok a) f k = k a refl
Fails-bind (err e) f k = (e, refl)

fits :
    (own part called : Str)
    → own ≡ part
    → (is_nil part ≡ true) ⊎ (part ≡ called)
    → not (not (is_nil own) && not (str_eq own called)) ≡ true
fits own part called e (inl n) = rw (e, n) refl
fits own part called e (inr p) = ground (arith, str_eq)

applicable-Memᴰ :
    (action client : Str) (c : InputConfig) (configs : List InputConfig)
    → applies action client c ≡ true
    → Memᴰ c configs
    → Memᴰ c (applicable action client configs)
unfolding applicable
applicable-Memᴰ action client c [] h m = elim m [ ]
applicable-Memᴰ action client c (x ∷ xs) h (head p) =
    let h' : applies action client x ≡ true = rw (sym p) h in rw h' (head p)
applicable-Memᴰ action client c (x ∷ xs) h (tail m) =
    let found = applicable-Memᴰ action client c xs h m in
    elim (Bool-cases (applies action client x)) [ inl e ↦ rw e (tail found) | inr e ↦ rw e found ]

resolve_refuses :
    (request : Raw) (values : Object) (key : Str) (value : Json) (c : InputConfig)
    (configs : List InputConfig)
    → unmarshal_object (canonical request (object no_fields)) ≡ some values
    → get key values ≡ some value
    → contains key c.locked_keys ≡ true
    → Memᴰ c configs
    → Fails (resolve_input_configs request configs)
unfolding resolve_input_configs
resolve_refuses request values key value c [] e g h m = elim m [ ]
resolve_refuses request values key value c (x ∷ xs) e g h m =
    let order : List InputConfig = sort rank_before (x ∷ xs) in
    elim (Result-cases (layers_of order)) [
      | inr (fault, f) ↦ (fault, rw (e, f))
      | inl (layers, f) ↦ elim (resolve_input_configs_lem request x xs values layers e f) [
        | inl (keys, r, some_key, others) ↦ (Err.locked_keys keys, r)
        | inr (input, merged, r, back, at_key) ↦
            let locked : locks key layers ≡ true =
              Ensures-ok (λ layers. locks key layers ≡ true) (layers_of order)
                (layers_of-locks key c order h (sort-Memᴰ rank_before c (x ∷ xs) m)) f in
            absurd (ground (arith, (at_key key).0))
      ]
    ]

module _ (at_rest : AtRest) (stored_text text_of : Json → Str) (drawn : Str) (config : InputConfig)
    (by : Str) where
  -- What a setting has stored: an entry for the app, the action and the client, which locks the keys.
  abbrev Stores : Settings × InputConfig → Type 0
  Stores (s, saved) =
      (key : Str) × (entry : InputConfig) × (get key
          (configs_of (normalize_workspace config.workspace_id) s)
        ≡ some entry)
      × (entry.app_key ≡ trim_space config.app_key)
      × (entry.action_key ≡ trim_space config.action_key)
      × (entry.client_id ≡ trim_space config.client_id)
      × ((raw : Str)
          → Memᴰ raw config.locked_keys
          → contains (trim_space raw) entry.locked_keys ≡ true)

  written-Stores :
      (s : Settings) (saved : InputConfig) (plain : Raw) (previous : Option InputConfig)
      → saved.workspace_id ≡ normalize_workspace config.workspace_id
      → saved.app_key ≡ trim_space config.app_key
      → saved.action_key ≡ trim_space config.action_key
      → saved.client_id ≡ trim_space config.client_id
      → ((raw : Str)
          → Memᴰ raw config.locked_keys
          → contains (trim_space raw) saved.locked_keys ≡ true)
      → Stores (write_config stored_text text_of drawn saved plain previous s)
  unfolding append_local_input_config_audit
  written-Stores s saved plain previous w a b c locks_all =
      let key : Str = input_config_key saved.app_key saved.action_key saved.client_id in
      (
        key,
        saved,
        rw
            (
              ← w,
              get-put_self saved.workspace_id (put key saved (configs_of saved.workspace_id s))
                  s.input_configs,
            )
            (get-put_self key saved (configs_of saved.workspace_id s)),
        a,
        b,
        c,
        locks_all,
      )

  set_input_config-Stores :
      (seen s : Settings) (now : Time)
      → Ensures Stores (set_input_config at_rest stored_text text_of drawn config by seen s now)
  unfolding set_input_config
  set_input_config-Stores seen s now =
      Ensures-bind Stores
        (list_input_configs_for_app at_rest (normalize_workspace config.workspace_id)
          (trim_space config.app_key) seen)
        _
        λ existing e.
          Ensures-or_fail Stores (unmarshal_object (canonical config.config (object no_fields)))
            Err.invalid_input_config _
            λ values e'.
              Ensures-bind Stores (normalized_locked_keys values config.locked_keys) _ λ locked f.
                Ensures-bind Stores
                  (at_rest.encrypt_input (normalize_workspace config.workspace_id)
                    (marshal_object values))
                  _
                  λ encrypted f'.
                    Ensures-bind Stores
                      (has_client s (normalize_workspace config.workspace_id)
                        (trim_space config.client_id))
                      _
                      λ known k.
                        written-Stores s
                          (record {
                            workspace_id = normalize_workspace config.workspace_id;
                            app_key = trim_space config.app_key;
                            action_key = trim_space config.action_key;
                            client_id = trim_space config.client_id;
                            config = encrypted;
                            locked_keys = locked;
                            updated_by =
                                first_non_empty (trim_space by ∷ default_actor_subject ∷ []);
                            updated_at = now;
                          })
                          (marshal_object values)
                          (find_input_config existing (trim_space config.action_key)
                            (trim_space config.client_id))
                          refl refl refl refl
                          λ raw m.
                            Ensures-ok (λ out. contains (trim_space raw) out ≡ true)
                              (normalized_locked_keys values config.locked_keys)
                              (normalized_locked_keys_has raw values config.locked_keys m) f

  -- A locked key is refused to the requests that the setting is for. When SetInputConfig has
  -- succeeded, ResolveInput for the same workspace and app, whatever else is stored, fails for every
  -- request that is an object with a value at a locked key, if the setting is for every action or for
  -- the action that is called, and for every client or for the client that calls.
  pub set_key_stays_locked :
      (seen s s' : Settings) (now : Time) (saved : InputConfig) (raw : Str) (action client : Str)
      (request : Raw) (values : Object) (value : Json)
      → set_input_config at_rest stored_text text_of drawn config by seen s now ≡ ok (s', saved)
      → Memᴰ raw config.locked_keys
      → (is_nil (trim_space config.action_key) ≡ true) ⊎ (trim_space config.action_key ≡ action)
      → (is_nil (trim_space config.client_id) ≡ true) ⊎ (trim_space config.client_id ≡ client)
      → unmarshal_object (canonical request (object no_fields)) ≡ some values
      → get (trim_space raw) values ≡ some value
      → Fails (
          resolve_input at_rest config.workspace_id
            (trim_space config.app_key)
            action
            client
            request
            s')
  unfolding resolve_input
  set_key_stays_locked seen s s' now saved raw action client request values value e m a c u g =
      let (key, entry, at_key, of_app, of_action, of_client, locks_all) =
        Ensures-ok Stores (set_input_config at_rest stored_text text_of drawn config by seen s now)
          (set_input_config-Stores seen s now) e in
      let w : Str = normalize_workspace config.workspace_id in
      let app : Str = trim_space config.app_key in
      let here : get key (configs_of (normalize_workspace w) s') ≡ some entry =
        rw (normalize_workspace-normalize_workspace config.workspace_id) at_key in
      Fails-bind _ _ λ known k.
        Fails-bind (list_input_configs_for_app at_rest w app s') _ λ configs l.
          let (plain, there) =
            Ensures-ok (Lists entry) (list_input_configs_for_app at_rest w app s')
              (list_input_configs_for_app-Lists at_rest w app key entry s' here of_app) l in
          let for_call : applies action client entry ≡ true =
            rw
              (
                fits entry.action_key (trim_space config.action_key) action of_action a,
                fits entry.client_id (trim_space config.client_id) client of_client c,
              )
              refl in
          resolve_refuses request values (trim_space raw) value (record entry { config = plain })
            (applicable action client configs) u g (locks_all raw m)
            (applicable-Memᴰ action client (record entry { config = plain }) configs for_call there)
