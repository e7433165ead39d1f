-- ===== src/State/Settings/Tokens.antt =====
-- The calls on the clients of a store, against a registry of tokens that knows nothing else.
use windforce_lite.Prelude.{
  ◌≡◌, refl, ap, sym, false, Option-cases, some, List, [], ◌∷◌, inl, inr, Bool-cases, arith, is_nil,
  subst,
}
use windforce_lite.Str.{Str, str}
use windforce_lite.Table.{Table, get}
use windforce_lite.Contract.{normalize_workspace}
use windforce_lite.State.Types.{Time}
use windforce_lite.State.Result.{ok, Ensures, Ensures-bind, Ensures-ok}
use windforce_lite.State.Settings.{Client, Settings}
use windforce_lite.State.Settings.Clients.{
  clients_of, new_id, client_token_hash_exists, append_local_client_audit,
}
use windforce_lite.State.Settings.Calls.{
  ClientCall, create, update, rotate, revoke, delete_one, apply_call, run_calls, Registry, promised,
  replay, registry_of, IsValid, put_client_refines, put_client_same, delete_client_refines,
}
use windforce_lite.State.Settings.Registry.{IsFree, other_holds_lem}

-- The call keeps the registry, and does to it what the abstract call does.
abbrev Refines : ClientCall → Settings → Settings → Type 0
Refines call s t = IsValid t × (registry_of t ≡ promised call (registry_of s))

module _ (s : Settings) (now : Time) (v : IsValid s) (drawn workspace : Str) where
  abbrev here : Table Client
  here = clients_of (normalize_workspace workspace) s

  unnamed_holds :
      (hash : Str) → client_token_hash_exists here hash [] ≡ false → (k : Str) → IsFree hash k here
  unnamed_holds hash h k j d g n e =
      let unnamed : j ≡ [] = other_holds_lem hash [] j here d h g n e in
      absurd (ground (arith, (v (normalize_workspace workspace)).named j d g, ap is_nil unnamed))

  create-Refines :
      (drawn_id name hash actor : Str)
      → Ensures
          (Refines (create drawn workspace drawn_id name hash actor) s)
          (apply_call (create drawn workspace drawn_id name hash actor) s now)
  unfolding apply_call append_local_client_audit
  create-Refines drawn_id name hash actor =
      elim (Bool-cases (client_token_hash_exists here hash [])) [
        | inl q ↦ rw q tt
        | inr q ↦ rw q (
            put_client_refines s.clients v (normalize_workspace workspace)
              (new_id (str "client") drawn_id) _ refl refl
              (unnamed_holds hash q (new_id (str "client") drawn_id)))
      ]

  -- A client that is there keeps its id under every write.
  module _ (id : Str) (old : Client) (found : get id here ≡ some old) where
    is_id : old.id ≡ id
    is_id = ((v (normalize_workspace workspace)).named id old found).0

    is_name : is_nil id ≡ false
    is_name = ((v (normalize_workspace workspace)).named id old found).1

    own_token : IsFree old.token_hash id here
    own_token j d g n e =
        sym ((v (normalize_workspace workspace)).unique id j old d found g n (sym e))

  no_token : (id : Str) → IsFree [] id here
  no_token id j d g n e = cc

  rotate-Refines :
      (id hash actor : Str)
      → Ensures
          (Refines (rotate drawn workspace id hash actor) s)
          (apply_call (rotate drawn workspace id hash actor) s now)
  unfolding apply_call append_local_client_audit
  rotate-Refines id hash actor = elim (Bool-cases (is_nil hash)) [
    | inl q ↦ rw q tt
    | inr q ↦ elim (Option-cases (get id here)) [
      | inl e ↦ rw (q, e) tt
      | inr (old, e) ↦ elim (Bool-cases (client_token_hash_exists here hash id)) [
        | inl held ↦ rw (q, e, held) tt
        | inr free ↦
            rw (q, e, free)
              (put_client_refines s.clients v (normalize_workspace workspace) id _ (is_id id old e)
                (is_name id old e) (λ j d g n same. other_holds_lem hash id j here d free g n same))
      ]
    ]
  ]

  revoke-Refines :
      (id actor : Str)
      → Ensures
          (Refines (revoke drawn workspace id actor) s)
          (apply_call (revoke drawn workspace id actor) s now)
  unfolding apply_call append_local_client_audit
  revoke-Refines id actor = elim (Option-cases (get id here)) [
    | inl e ↦ rw e tt
    | inr (old, e) ↦ elim (Bool-cases (is_nil old.token_hash)) [
      | inl q ↦ rw (e, q) tt
      | inr q ↦
          rw (e, q)
            (put_client_refines s.clients v (normalize_workspace workspace) id _ (is_id id old e)
              (is_name id old e) (no_token id))
    ]
  ]

  update-Refines :
      (id name actor : Str)
      → Ensures
          (Refines (update drawn workspace id name actor) s)
          (apply_call (update drawn workspace id name actor) s now)
  unfolding apply_call append_local_client_audit
  update-Refines id name actor = elim (Option-cases (get id here)) [
    | inl e ↦ rw e tt
    | inr (old, e) ↦ rw e (
        put_client_same s.clients v (normalize_workspace workspace) id _ old (is_id id old e)
          (is_name id old e) (own_token id old e) e refl)
  ]

  delete-Refines :
      (id actor : Str)
      → Ensures
          (Refines (delete_one drawn workspace id actor) s)
          (apply_call (delete_one drawn workspace id actor) s now)
  unfolding apply_call append_local_client_audit
  delete-Refines id actor = elim (Option-cases (get id here)) [
    | inl e ↦ rw e tt
    | inr (old, e) ↦ elim (Bool-cases (is_nil old.token_hash)) [
      | inl q ↦
          rw (e, q) (delete_client_refines s.clients v (normalize_workspace workspace) id old e q)
      | inr q ↦ rw (e, q) tt
    ]
  ]

apply_call-Refines :
    (call : ClientCall) (s : Settings) (now : Time)
    → IsValid s
    → Ensures (Refines call s) (apply_call call s now)
apply_call-Refines (create drawn workspace drawn_id name hash actor) s now v =
    create-Refines s now v drawn workspace drawn_id name hash actor
apply_call-Refines (update drawn workspace id name actor) s now v =
    update-Refines s now v drawn workspace id name actor
apply_call-Refines (rotate drawn workspace id hash actor) s now v =
    rotate-Refines s now v drawn workspace id hash actor
apply_call-Refines (revoke drawn workspace id actor) s now v =
    revoke-Refines s now v drawn workspace id actor
apply_call-Refines (delete_one drawn workspace id actor) s now v =
    delete-Refines s now v drawn workspace id actor

-- The outcome of a history of calls.
abbrev Replayed : List (ClientCall × Time) → Registry → Settings → Type 0
Replayed calls r t = IsValid t × (registry_of t ≡ replay calls r)

calls_refine :
    (calls : List (ClientCall × Time)) (s : Settings)
    → IsValid s
    → Ensures (Replayed calls (registry_of s)) (run_calls calls s)
unfolding run_calls replay
calls_refine [] s v = (v, refl)
calls_refine ((call, now) ∷ calls) s v =
    Ensures-bind (Replayed ((call, now) ∷ calls) (registry_of s)) (apply_call call s now)
      (run_calls calls)
      λ s' e.
        let (v', r') =
          Ensures-ok (Refines call s) (apply_call call s now) (apply_call-Refines call s now v) e in
        subst (λ r. Ensures (Replayed calls r) (run_calls calls s')) r' (calls_refine calls s' v')

-- The clients of a store implement a registry of tokens: after any sequence of successful calls that
-- create, rename, delete a client or rotate and revoke its token, from a store where each client stands
-- under its id and no two clients of a workspace hold one token, this is so again, and a token is
-- looked up as the client that the abstract registry gives, in which a creation or a rotation
-- assigns the one token that a client holds, a revocation takes it away, and no other call counts.
pub run_calls_refines :
    (calls : List (ClientCall × Time)) (s t : Settings)
    → IsValid s
    → run_calls calls s ≡ ok t
    → IsValid t × (registry_of t ≡ replay calls (registry_of s))
run_calls_refines calls s t v e =
    Ensures-ok (Replayed calls (registry_of s)) (run_calls calls s) (calls_refine calls s v) e
