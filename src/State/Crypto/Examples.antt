-- ===== src/State/Crypto/Examples.antt =====
-- A toy cipher that keeps its promises: a sealed text is the key, then the text.
use windforce_lite.Prelude.{
  ℕ_discrete, ite, ◌≡◌, refl, false, Option, none, some, [], ◌∷◌, ◌++◌, length, arith,
}
use windforce_lite.Str.{Str, str, trim_space, str_dec}
use windforce_lite.Json.{Raw, absent, json, object, no_fields, find_field}
use windforce_lite.Contract.{normalize_workspace}
use windforce_lite.Crypto.{
  Primitives, encrypt, decrypt, derive_workspace_key, wrap_enc, unwrap_enc, is_enc, envelope_text,
  take, drop,
}
use windforce_lite.Crypto.Roundtrip.{Laws, ReadsBack}
use windforce_lite.State.Result.{ok, Ensures}
use windforce_lite.State.Crypto.{local_at_rest}
use windforce_lite.State.Payload.{new_action_job}
use windforce_lite.State.Step.{new_snapshot}
use windforce_lite.State.Examples.{run_1}
use windforce_lite.State.Ops.Enqueue.{create_run_and_enqueue}
use windforce_lite.State.Ops.Read.{get_run}
use windforce_lite.State.Outcomes.Created.{get_run-create_run_and_enqueue, as_created}
use windforce_lite.State.Crypto.{
  Config, encrypt_json_at_rest, decrypt_json_at_rest, derived_dek, resolve_input_dek,
}
use windforce_lite.State.Crypto.Roundtrip.{
  decrypt-encrypt_at_rest, decrypt-rotated, encrypt-encrypt_at_rest,
}

-- The text behind a prefix.
strip : Str → Str → Option Str
strip [] t = some t
strip (c ∷ s) [] = none
strip (c ∷ s) (d ∷ t) = ite (ℕ_discrete c d) (strip s t) none

strip-append : (s t : Str) → strip s (s ++ t) ≡ some t
unfolding strip
strip-append [] t = refl
strip-append (c ∷ s) t = ground (arith, strip-append s t)

abbrev toy : Primitives
toy = record {
  encode = λ s. s;
  decode = λ s. some s;
  seal = λ key nonce s. (length key ∷ key) ++ s;
  open_sealed = λ key nonce s. strip (length key ∷ key) s;
  digest = λ s. s;
  marshal = λ j. str "{}";
  unmarshal = λ s. some (object no_fields);
}

toy-Laws : Laws toy
toy-Laws = record {
  decode_encode = λ s. refl;
  open_seal = λ key nonce s. strip-append (length key ∷ key) s;
}

toy-ReadsBack : ReadsBack toy (object no_fields)
toy-ReadsBack = record { unmarshal_marshal = refl; marshal_some = refl }

abbrev nonce : Str
nonce = str "twelve bytes"

abbrev wrapped_dek : Str
wrapped_dek = nonce ++ (1 ∷ str "k") ++ str "dek"

wraps : encrypt toy (some nonce) (str "k") (str "dek") ≡ some wrapped_dek
unfolding encrypt
wraps = refl

newer_fails : decrypt toy (str "n") wrapped_dek ≡ none
unfolding decrypt strip ℕ_discrete take drop
newer_fails = refl

abbrev old_config : Config
old_config = record { secret_key = str "k"; secret_key_previous = [] }

abbrev new_config : Config
new_config = record { secret_key = str "n"; secret_key_previous = str "k" }

no_envelope : is_enc (json (object no_fields)) ≡ false
unfolding is_enc find_field
no_envelope = refl

decrypt-encrypt_at_rest_example :
    (stored : Raw) × (encrypt_json_at_rest toy none old_config
        (some nonce)
        []
        absent
        (object no_fields)
      ≡ ok stored)
    × (decrypt_json_at_rest toy none old_config [] stored (object no_fields)
        ≡ ok (json (object no_fields)))
decrypt-encrypt_at_rest_example =
    decrypt-encrypt_at_rest toy toy-Laws old_config nonce [] absent (object no_fields)
      (object no_fields) toy-ReadsBack refl refl no_envelope

abbrev or_absent : Option Raw → Raw
or_absent none = absent
or_absent (some r) = r

abbrev at_rest : Raw
at_rest =
    or_absent (wrap_enc toy (some nonce) (derived_dek toy old_config []) (json (object no_fields)))

stores :
    encrypt_json_at_rest toy none old_config (some nonce) [] absent (object no_fields) ≡ ok at_rest
unfolding encrypt_json_at_rest resolve_input_dek trim_space is_enc find_field wrap_enc encrypt
stores = refl

closed : unwrap_enc toy (derived_dek toy new_config []) at_rest ≡ none
unfolding unwrap_enc wrap_enc encrypt decrypt derived_dek derive_workspace_key is_enc envelope_text
    find_field str_dec ℕ_discrete strip take drop trim_space normalize_workspace
closed = refl

decrypt-rotated_example :
    decrypt_json_at_rest toy none new_config [] at_rest (object no_fields)
    ≡ ok (json (object no_fields))
decrypt-rotated_example =
    decrypt-rotated toy toy-Laws old_config new_config nonce [] absent (object no_fields)
      (object no_fields) at_rest toy-ReadsBack refl refl no_envelope (unfold trim_space in refl)
      (unfold trim_space in refl) refl stores closed

encrypt-encrypt_at_rest_example :
    encrypt_json_at_rest toy none old_config none [] at_rest (object no_fields) ≡ ok at_rest
encrypt-encrypt_at_rest_example =
    encrypt-encrypt_at_rest toy none none old_config (some nonce) none [] absent (object no_fields)
      at_rest stores

get_run-create_run_and_enqueue_example :
    Ensures
      (λ t.
        get_run (local_at_rest toy old_config none) (str "r") t
        ≡ ok (as_created run_1 (object no_fields) 2))
      (create_run_and_enqueue
        (local_at_rest toy old_config (some nonce))
        run_1
        (new_action_job (str "j") 1 run_1 absent)
        new_snapshot
        2)
get_run-create_run_and_enqueue_example =
    get_run-create_run_and_enqueue toy toy-Laws old_config nonce none (str "j") 1 2 run_1 absent
      (object no_fields) new_snapshot toy-ReadsBack refl refl no_envelope refl refl
