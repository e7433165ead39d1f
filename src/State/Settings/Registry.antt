-- ===== src/State/Settings/Registry.antt =====
-- The clients of a workspace as a registry of tokens: which client holds which token.
use windforce_lite.Prelude.{
  ◌≡◌, ◌≢◌, refl, ◌∙◌, ap, sym, not, true, false, ◌&&◌, Option, Option-cases, none, some, [], ◌∷◌,
  inl, inr, Bool-cases, arith, if◌then◌else◌, is_nil,
}
use windforce_lite.Str.{Str, str_dec, str_eq}
use windforce_lite.Table.{Table, get, put, delete, Distinct}
use windforce_lite.Table.Laws.{
  get-put_self, get-put_ne, get-delete, get-put_inv, put-Distinct, delete-Distinct, drop_if,
}
use windforce_lite.State.Settings.{Client}
use windforce_lite.State.Settings.Clients.{find_token, other_holds, client_token_hash_exists}

-- A client stands under its id, which is not empty, and no two clients hold one token.
pub record IsRegistry (m : Table Client) : Type 0 where
  pub distinct : Distinct m
  pub named : (k : Str) (c : Client) → get k m ≡ some c → (c.id ≡ k) × (is_nil k ≡ false)
  pub unique :
      (j k : Str) (c d : Client)
      → get j m ≡ some c
      → get k m ≡ some d
      → is_nil c.token_hash ≡ false
      → c.token_hash ≡ d.token_hash
      → j ≡ k

abbrev id_of : Option Client → Option Str
id_of none = none
id_of (some client) = some client.id

-- The client that a token is looked up as.
abbrev pub holder : Str → Table Client → Option Str
holder hash m = id_of (find_token hash m)

find_token-found :
    (hash : Str) (m : Table Client) (c : Client)
    → Distinct m
    → find_token hash m ≡ some c
    → (k : Str) × (get k m ≡ some c) × (c.token_hash ≡ hash) × (is_nil hash ≡ false)
unfolding find_token get
find_token-found hash [] c d e = cc
find_token-found hash ((k, w) ∷ m) c d e =
    elim (Bool-cases (not (is_nil hash) && str_eq w.token_hash hash)) [
      | inl q ↦ (k, ground arith, ground (arith, str_eq), ground arith)
      | inr q ↦
          let (j, g, r, n) = find_token-found hash m c d.1 (rw q at e) in
          (j, ground (arith, ap (λ (i : Str). get i m)), r, n)
    ]

find_token_complete :
    (hash k : Str) (m : Table Client) (c : Client)
    → get k m ≡ some c
    → c.token_hash ≡ hash
    → is_nil hash ≡ false
    → (d : Client) × (find_token hash m ≡ some d)
unfolding find_token get
find_token_complete hash k [] c g e n = cc
find_token_complete hash k ((j, w) ∷ m) c g e n =
    elim (Bool-cases (not (is_nil hash) && str_eq w.token_hash hash)) [
      | inl q ↦ (w, rw q)
      | inr q ↦ rw q (find_token_complete hash k m c (ground (arith, str_eq)) e n)
    ]

-- A registry answers a token with a client exactly if that client holds it.
abbrev pub Holds : Str → Str → Table Client → Type 0
Holds hash k m = (c : Client) × (get k m ≡ some c) × (c.token_hash ≡ hash) × (is_nil hash ≡ false)

pub holder-Holds :
    (hash k : Str) (m : Table Client) → IsRegistry m → holder hash m ≡ some k → Holds hash k m
holder-Holds hash k m v e = elim (Option-cases (find_token hash m)) [
  | inl q ↦ cc (ap id_of q)
  | inr (c, q) ↦
      let (j, g, r, n) = find_token-found hash m c v.distinct q in
      let same : j ≡ k = ground (arith, v.named j c g) in
      (c, ap (λ (i : Str). get i m) (sym same) ∙ g, r, n)
]

pub Holds-holder :
    (hash k : Str) (m : Table Client) → IsRegistry m → Holds hash k m → holder hash m ≡ some k
Holds-holder hash k m v (c, g, e, n) =
    let (d, q) = find_token_complete hash k m c g e n in
    let (j, g', e', n') = find_token-found hash m d v.distinct q in
    ap id_of q ∙ ap some ((v.named j d g').0 ∙ v.unique j k d c g' g (rw e' n) (e' ∙ sym e))

some_inj {ℓ} : {A : Type ℓ} {a b : A} → some a ≡ some b → a ≡ b
some_inj e = cc

option_ext {ℓ} :
    {A : Type ℓ} (x y : Option A)
    → ((a : A) → x ≡ some a → y ≡ some a)
    → ((a : A) → y ≡ some a → x ≡ some a)
    → x ≡ y
option_ext none none h k = refl
option_ext (some a) y h k = sym (h a refl)
option_ext none (some b) h k = k b refl

pub other_holds_lem :
    (hash except j : Str) (m : Table Client) (d : Client)
    → client_token_hash_exists m hash except ≡ false
    → get j m ≡ some d
    → is_nil hash ≡ false
    → d.token_hash ≡ hash
    → j ≡ except
unfolding client_token_hash_exists other_holds get
other_holds_lem hash except j [] d h g n e = cc
other_holds_lem hash except j ((i, w) ∷ m) d h g n e =
    ground (arith, str_eq, other_holds_lem hash except j m d)

-- The token of a new entry is not that of another client.
abbrev pub IsFree : Str → Str → Table Client → Type 0
IsFree hash k m =
    (j : Str) (d : Client) → get j m ≡ some d → is_nil hash ≡ false → d.token_hash ≡ hash → j ≡ k

module _ (k : Str) (c : Client) (m : Table Client) (v : IsRegistry m) (is_id : c.id ≡ k)
    (is_name : is_nil k ≡ false) (free : IsFree c.token_hash k m) where
  pub put-IsRegistry : IsRegistry (put k c m)
  put-IsRegistry = record {
    distinct = put-Distinct k c m v.distinct;
    named = λ j d g. elim (get-put_inv j k c d m g) [
      | inl (p, q) ↦ (ground (arith), ground (arith, ap is_nil p))
      | inr (p, q) ↦ v.named j d q
    ];
    unique = λ i j d e g g' n same. elim (get-put_inv i k c d m g) [
      | inl (p, q) ↦ elim (get-put_inv j k c e m g') [
        | inl (p', q') ↦ sym p ∙ p'
        | inr (p', q') ↦
            sym p
            ∙ sym (
                free j e q' (ground (arith, ap (λ (x : Client). is_nil x.token_hash) q))
                  (ground arith))
      ]
      | inr (p, q) ↦ elim (get-put_inv j k c e m g') [
        | inl (p', q') ↦
            free i d q (ground (arith, ap is_nil same, ap (λ (x : Client). is_nil x.token_hash) q'))
              (ground arith)
            ∙ p'
        | inr (p', q') ↦ v.unique i j d e q q' n same
      ]
    ];
  }

  abbrev reassigned : Str → Option Str
  reassigned hash =
      if not (is_nil hash) && str_eq c.token_hash hash
      then some k
      else drop_if (λ id. str_eq id k) (holder hash m)

  reassigned_old :
      (hash j : Str) (d : Client)
      → k ≢ j
      → get j m ≡ some d
      → d.token_hash ≡ hash
      → is_nil hash ≡ false
      → reassigned hash ≡ some j
  reassigned_old hash j d p g e n = elim (str_dec c.token_hash hash) [
    | yes q ↦ absurd (p (sym (free j d g (rw q n) (e ∙ sym q))))
    | no q ↦
        let old : holder hash m ≡ some j = Holds-holder hash j m v (d, g, e, n) in
        ground (arith, str_eq, ap (drop_if (λ id. str_eq id k)) old)
  ]

  kept :
      (hash j : Str) (o : Option Str)
      → drop_if (λ id. str_eq id k) o ≡ some j
      → (o ≡ some j) × (k ≢ j)
  kept hash j none e = cc
  kept hash j (some id) e = elim (str_dec id k) [
    | yes p ↦ ground (arith, str_eq)
    | no q ↦ (ground (arith, str_eq), λ p. q (ground (arith, str_eq)))
  ]

  put-Holds : (hash j : Str) → reassigned hash ≡ some j → Holds hash j (put k c m)
  put-Holds hash j e = elim (Bool-cases (not (is_nil hash) && str_eq c.token_hash hash)) [
    | inl q ↦
        let here : k ≡ j = some_inj (rw q at e) in
        (
          c,
          ap (λ (i : Str). get i (put k c m)) (sym here) ∙ get-put_self k c m,
          ground (arith, str_eq),
          ground arith,
        )
    | inr q ↦
        let (old, other) = kept hash j (holder hash m) (rw q at e) in
        let (d, g, same, n) = holder-Holds hash j m v old in
        (d, get-put_ne j k c m other ∙ g, same, n)
  ]

  pub holder-put : (hash : Str) → holder hash (put k c m) ≡ reassigned hash
  holder-put hash =
      option_ext (holder hash (put k c m)) (reassigned hash)
        (λ j e.
          let (d, g, same, n) = holder-Holds hash j (put k c m) put-IsRegistry e in
          elim (get-put_inv j k c d m g) [
            | inl (p, q) ↦ ground (arith, str_eq, ap (λ (x : Client). x.token_hash) q)
            | inr (p, q) ↦ reassigned_old hash j d p q same n
          ])
        (λ j e. Holds-holder hash j (put k c m) put-IsRegistry (put-Holds hash j e))

-- A client that keeps its token.
pub reassigned_same :
    (k : Str) (c old : Client) (m : Table Client) (hash : Str)
    → IsRegistry m
    → get k m ≡ some old
    → old.token_hash ≡ c.token_hash
    → (if not (is_nil hash) && str_eq c.token_hash hash
        then some k
        else drop_if (λ id. str_eq id k) (holder hash m))
      ≡ holder hash m
reassigned_same k c old m hash v g same =
    elim (Bool-cases (not (is_nil hash) && str_eq c.token_hash hash)) [
      | inl q ↦ rw (q, Holds-holder hash k m v (old, g, ground (arith, str_eq), ground arith))
      | inr q ↦ rw q (elim (Option-cases (holder hash m)) [
        | inl e ↦ rw e
        | inr (j, e) ↦
            let (d, g', e', n) = holder-Holds hash j m v e in
            rw e (elim (str_dec j k) [
              | yes p ↦
                  let one : d ≡ old = some_inj (sym g' ∙ ap (λ (i : Str). get i m) p ∙ g) in
                  absurd (ground (arith, str_eq, ap (λ (x : Client). x.token_hash) one))
              | no p ↦ ground arith
            ])
      ])
    ]

module _ (k : Str) (m : Table Client) (v : IsRegistry m) where
  deleted_inv : (j : Str) (d : Client) → get j (delete k m) ≡ some d → (k ≢ j) × (get j m ≡ some d)
  deleted_inv j d g = elim (str_dec k j) [
    | yes p ↦ ground (arith, get-delete j k m)
    | no q ↦ (q, ground (arith, get-delete j k m))
  ]

  pub delete-IsRegistry : IsRegistry (delete k m)
  delete-IsRegistry = record {
    distinct = delete-Distinct k m v.distinct;
    named = λ j d g. v.named j d (deleted_inv j d g).1;
    unique =
        λ i j d e g g' n same. v.unique i j d e (deleted_inv i d g).1 (deleted_inv j e g').1 n same;
  }

  -- To delete a client that holds no token changes nothing that a token is looked up as.
  pub holder-delete :
      (c : Client) (hash : Str)
      → get k m ≡ some c
      → is_nil c.token_hash ≡ true
      → holder hash (delete k m) ≡ holder hash m
  holder-delete c hash here none_held =
      option_ext (holder hash (delete k m)) (holder hash m)
        (λ j e.
          let (d, g, same, n) = holder-Holds hash j (delete k m) delete-IsRegistry e in
          Holds-holder hash j m v (d, (deleted_inv j d g).1, same, n))
        (λ j e.
          let (d, g, same, n) = holder-Holds hash j m v e in
          let other : k ≢ j = λ p.
            let one : c ≡ d = some_inj (sym here ∙ ap (λ (i : Str). get i m) p ∙ g) in
            absurd (ground (arith, ap (λ (x : Client). is_nil x.token_hash) one, ap is_nil same)) in
          Holds-holder hash j (delete k m) delete-IsRegistry
            (d, get-delete j k m ∙ ground arith, same, n))
