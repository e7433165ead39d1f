-- ===== src/State/Settings/Examples/Locking.antt =====
-- Settings that are stored and then applied to a request.
use mathlib.Core.List.Memᴰ.{head}
use windforce_lite.Prelude.{ℕ_discrete, ◌≡◌, refl, true, false, some, [], ◌∷◌, ◌++◌, inl, inr}
use windforce_lite.Prelude.Int.{pos}
use windforce_lite.Str.{Str, str, str_dec, trim_space}
use windforce_lite.Table.{get, put, delete}
use windforce_lite.Sort.{sort}
use windforce_lite.Json.{Json, number, text, object, field, no_fields}
use windforce_lite.Contract.{normalize_workspace, contains}
use windforce_lite.State.Types.{Err, first_non_empty}
use windforce_lite.State.Result.{ok, err}
use windforce_lite.State.Examples.{plain}
use windforce_lite.State.Settings.{InputConfig, Settings}
use windforce_lite.State.Settings.Stored.{set_input_config, resolve_input, delete_input_config}
use windforce_lite.State.Settings.Overlay.{Object}
use windforce_lite.State.Settings.Changes.{changed_input_keys}
use windforce_lite.State.Settings.Audited.{changed_input_keys_lem}
use windforce_lite.State.Settings.Locked.{set_key_stays_locked}
use windforce_lite.State.Settings.Examples.{no_settings, settings_for, greedy, read_greedy}

abbrev shown : Json → Str
shown (text s) = s
shown _ = str "{}"

-- The same, when the state file is written with spaces.
abbrev indented : Json → Str
indented (text s) = s
indented _ = str "{ }"

abbrev asked : InputConfig
asked = settings_for (str " send") [] (number (pos 5)) (str " limit" ∷ [])

abbrev saved : InputConfig
saved = record asked {
  action_key = str "send";
  locked_keys = str "limit" ∷ [];
  updated_by = str "ann";
  updated_at = 7;
}

abbrev stored : Settings
stored = record no_settings {
  input_configs = (str "team", (str "mail" ++ 0 ∷ str "send" ++ 0 ∷ [], saved) ∷ []) ∷ [];
  input_config_audits =
      (
        str "team",
        record {
          id = str "audit_1";
          workspace_id = str "team";
          app_key = str "mail";
          action_key = str "send";
          client_id = [];
          kind = str "set";
          detail = str "{}";
          actor = str "ann";
          created_at = 7;
        }
            ∷ [],
      )
      ∷ [];
}

set_once :
    set_input_config plain indented shown (str "1") asked (str "ann") no_settings no_settings 7
    ≡ ok (stored, saved)
unfolding set_input_config get put normalize_workspace trim_space contains first_non_empty sort
    str_dec ℕ_discrete
set_once = refl

deleted_once :
    (s : Settings) × (delete_input_config plain indented shown
        (str "2")
        (str "team")
        (str "mail")
        (str "send")
        []
        (str "ann")
        stored
        stored
        8
      ≡ ok s)
    × (s.input_configs ≡ (str "team", []) ∷ [])
unfolding delete_input_config get put delete normalize_workspace trim_space first_non_empty sort
    str_dec ℕ_discrete
deleted_once = (_, refl, refl)

limit_asked :
    get (trim_space (str " limit")) ((str "limit", number (pos 99)) ∷ []) ≡ some (number (pos 99))
unfolding get trim_space str_dec ℕ_discrete
limit_asked = refl

set_key_stays_locked_example :
    (e : Err) × (resolve_input plain (str "team") (str "mail") (str "send") [] greedy stored
      ≡ err e)
unfolding trim_space
set_key_stays_locked_example =
    set_key_stays_locked plain indented shown (str "1") asked (str "ann") no_settings no_settings
      stored 7 saved (str " limit") (str "send") [] greedy ((str "limit", number (pos 99)) ∷ [])
      (number (pos 99)) set_once (head refl) (inr refl) (inl refl) read_greedy limit_asked

-- The limit is raised, a sender is added and the recipient is dropped.
abbrev old_values : Object
old_values = (str "limit", text (str "5")) ∷ (str "to", text (str "bob")) ∷ []

abbrev new_values : Object
new_values = (str "limit", text (str "6")) ∷ (str "from", text (str "ann")) ∷ []

changed_input_keys_lem_example :
    (contains (str "limit") (changed_input_keys indented shown old_values new_values (str "added"))
      ≡ false)
    × (contains
          (str "limit")
          (changed_input_keys indented shown old_values new_values (str "removed"))
        ≡ false)
    × (contains
          (str "limit")
          (changed_input_keys indented shown old_values new_values (str "updated"))
        ≡ true)
unfolding get str_dec ℕ_discrete
changed_input_keys_lem_example =
    changed_input_keys_lem indented shown old_values new_values (str "limit") (refl, (refl, tt))

-- A nested value that stays the same is told as updated, when the file was written with spaces.
abbrev nested : Object
nested = (str "limits", object (field (str "a") (number (pos 1)) no_fields)) ∷ []

unchanged_told : changed_input_keys indented shown nested nested (str "updated") ≡ str "limits" ∷ []
unfolding changed_input_keys get sort str_dec ℕ_discrete
unchanged_told = refl
