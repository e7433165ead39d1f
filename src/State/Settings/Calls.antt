-- ===== src/State/Settings/Calls.antt =====
-- The calls on the clients of a store, and the abstract registry of tokens that they are calls on.
use mathlib.Core.Path.{fun_ext}
use windforce_lite.Prelude.{
  ◌≡◌, ◌≢◌, refl, ◌∙◌, ap, sym, ite, if_pos, if_neg, not, true, false, ◌&&◌, Option, some, List, [],
  ◌∷◌, arith, if◌then◌else◌, is_nil, subst,
}
use windforce_lite.Str.{Str, str, str_dec, str_eq}
use windforce_lite.Table.{Table, get, put, delete}
use windforce_lite.Table.Laws.{get-put, drop_if}
use windforce_lite.Contract.{normalize_workspace}
use windforce_lite.State.Types.{Time}
use windforce_lite.State.Result.{Result, ok, ◌>>=◌}
use windforce_lite.State.Settings.{Client, Settings}
use windforce_lite.State.Settings.Clients.{
  entries_at, new_id, create_client, update_client, rotate_client_token, revoke_client_token,
  delete_client,
}
use windforce_lite.State.Settings.Registry.{
  IsRegistry, holder, IsFree, put-IsRegistry, holder-put, delete-IsRegistry, holder-delete,
  reassigned_same,
}

-- A call on the clients, with the actor and what NewID draws.
pub data ClientCall : Type 0 where
  create : Str → Str → Str → Str → Str → Str → ClientCall
  update : Str → Str → Str → Str → Str → ClientCall
  rotate : Str → Str → Str → Str → Str → ClientCall
  revoke : Str → Str → Str → Str → ClientCall
  delete_one : Str → Str → Str → Str → ClientCall

abbrev written : Result (Settings × Client) → Result Settings
written r = do done ← r; ok done.0

unfoldable pub apply_call : ClientCall → Settings → Time → Result Settings
unfolding create_client update_client rotate_client_token revoke_client_token delete_client
apply_call (create drawn workspace drawn_id name hash actor) s now =
    written (create_client drawn workspace drawn_id name hash actor s now)
apply_call (update drawn workspace id name actor) s now =
    written (update_client drawn workspace id name actor s now)
apply_call (rotate drawn workspace id hash actor) s now =
    written (rotate_client_token drawn workspace id hash actor s now)
apply_call (revoke drawn workspace id actor) s now =
    written (revoke_client_token drawn workspace id actor s now)
apply_call (delete_one drawn workspace id actor) s now =
    delete_client drawn workspace id actor s now

-- The calls of a history that succeed, each at its time.
unfoldable pub run_calls : List (ClientCall × Time) → Settings → Result Settings
unfolding apply_call
run_calls [] s = ok s
run_calls ((call, now) ∷ calls) s = do s' ← apply_call call s now; run_calls calls s'

-- The abstract registry: for a workspace and the hash of a token, the client that holds it.
abbrev pub Registry : Type 0
Registry = Str → Str → Option Str

-- The client holds this token and no other; the empty hash stands for none.
abbrev pub assign : Str → Str → Str → Registry → Registry
assign workspace_id id token_hash r w hash =
    ite (str_dec workspace_id w)
      (if not (is_nil hash) && str_eq token_hash hash
        then some id
        else drop_if (λ held_by. str_eq held_by id) (r workspace_id hash))
      (r w hash)

abbrev pub promised : ClientCall → Registry → Registry
promised (create drawn workspace drawn_id name hash actor) r =
    assign (normalize_workspace workspace) (new_id (str "client") drawn_id) hash r
promised (update drawn workspace id name actor) r = r
promised (rotate drawn workspace id hash actor) r = assign (normalize_workspace workspace) id hash r
promised (revoke drawn workspace id actor) r = assign (normalize_workspace workspace) id [] r
promised (delete_one drawn workspace id actor) r = r

unfoldable pub replay : List (ClientCall × Time) → Registry → Registry
replay [] r = r
replay ((call, now) ∷ calls) r = replay calls (promised call r)

-- What the store looks a token up as.
abbrev pub registry_in : Table (Table Client) → Registry
registry_in clients workspace_id hash = holder hash (entries_at (get workspace_id clients))

abbrev pub registry_of : Settings → Registry
registry_of s = registry_in s.clients

-- The clients of every workspace are a registry.
abbrev pub AreRegistries : Table (Table Client) → Type 0
AreRegistries clients = (workspace_id : Str) → IsRegistry (entries_at (get workspace_id clients))

abbrev pub IsValid : Settings → Type 0
IsValid s = AreRegistries s.clients

module _ (clients : Table (Table Client)) (v : AreRegistries clients) (workspace_id : Str) where
  abbrev own : Table Client
  own = entries_at (get workspace_id clients)

  module _ (m : Table Client) where
    clients_here :
        (w : Str) → workspace_id ≡ w → entries_at (get w (put workspace_id m clients)) ≡ m
    clients_here w p = ground (arith, get-put w workspace_id m clients)

    clients_there :
        (w : Str)
        → workspace_id ≢ w
        → entries_at (get w (put workspace_id m clients)) ≡ entries_at (get w clients)
    clients_there w q = ground (arith, get-put w workspace_id m clients)

    stays_valid : IsRegistry m → AreRegistries (put workspace_id m clients)
    stays_valid i w = elim (str_dec workspace_id w) [
      | yes p ↦ subst IsRegistry (sym (clients_here w p)) i
      | no q ↦ subst IsRegistry (sym (clients_there w q)) (v w)
    ]

    -- What the registry answers, where the clients of one workspace are replaced.
    answers :
        (r : Registry)
        → ((hash : Str) → holder hash m ≡ r workspace_id hash)
        → ((w hash : Str) → workspace_id ≢ w → registry_in clients w hash ≡ r w hash)
        → registry_in (put workspace_id m clients) ≡ r
    answers r h others = fun_ext λ w. fun_ext λ hash. elim (str_dec workspace_id w) [
      | yes p ↦ ap (holder hash) (clients_here w p) ∙ h hash ∙ ap (λ (x : Str). r x hash) p
      | no q ↦ ap (holder hash) (clients_there w q) ∙ others w hash q
    ]

  -- A client is written, whose token is its own.
  pub put_client_refines :
      (k : Str) (c : Client)
      → c.id ≡ k
      → is_nil k ≡ false
      → IsFree c.token_hash k own
      → AreRegistries (put workspace_id (put k c own) clients)
        × (registry_in (put workspace_id (put k c own) clients)
            ≡ assign workspace_id k c.token_hash (registry_in clients))
  put_client_refines k c is_id is_name free = (
    stays_valid (put k c own) (put-IsRegistry k c own (v workspace_id) is_id is_name free),
    answers (put k c own) (assign workspace_id k c.token_hash (registry_in clients))
        (λ hash.
          holder-put k c own (v workspace_id) is_id is_name free hash
          ∙ sym (if_pos (str_dec workspace_id workspace_id) refl _ _))
        (λ w hash q. sym (if_neg (str_dec workspace_id w) q _ _)),
  )

  -- A client is written that keeps its token.
  pub put_client_same :
      (k : Str) (c old : Client)
      → c.id ≡ k
      → is_nil k ≡ false
      → IsFree c.token_hash k own
      → get k own ≡ some old
      → old.token_hash ≡ c.token_hash
      → AreRegistries (put workspace_id (put k c own) clients)
        × (registry_in (put workspace_id (put k c own) clients) ≡ registry_in clients)
  put_client_same k c old is_id is_name free found same = (
    stays_valid (put k c own) (put-IsRegistry k c own (v workspace_id) is_id is_name free),
    answers (put k c own) (registry_in clients)
        (λ hash.
          holder-put k c own (v workspace_id) is_id is_name free hash
          ∙ reassigned_same k c old own hash (v workspace_id) found same)
        (λ w hash q. refl),
  )

  -- A client without a token is removed.
  pub delete_client_refines :
      (k : Str) (c : Client)
      → get k own ≡ some c
      → is_nil c.token_hash ≡ true
      → AreRegistries (put workspace_id (delete k own) clients)
        × (registry_in (put workspace_id (delete k own) clients) ≡ registry_in clients)
  delete_client_refines k c found bare = (
    stays_valid (delete k own) (delete-IsRegistry k own (v workspace_id)),
    answers (delete k own) (registry_in clients)
        (λ hash. holder-delete k own (v workspace_id) c hash found bare) (λ w hash q. refl),
  )
