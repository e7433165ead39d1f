-- ===== src/State/History.antt =====
-- How a job may change from one snapshot to a later one: its attempts only grow, it stays with its
-- run, and once it has settled its state is final.
pub mod Ops
pub mod Leases
pub mod Others
pub mod Steps
pub mod Claimed
pub mod Fencing
use windforce_lite.Prelude.{
  ℕ, suc, ◌≤◌, ◌≡◌, refl, sym, ap, subst, ◌∙◌, ◌≢◌, inl, inr, Bool, true, false, Option, none, some,
  arith, Option-cases, Bool-cases,
}
use mathlib.Core.Option.{some-injective}
use windforce_lite.Str.{Str, str_dec}
use windforce_lite.Table.{Table, get, put, map_values}
use windforce_lite.Table.Laws.{get-put_self, get-put_ne, get-map_values, map_option}
use windforce_lite.State.Types.{Job, is_settled}

pub record Follows (a b : Job) : Type 0 where
  pub attempts_grow : a.attempt ≤ b.attempt
  pub same_run : b.run_id ≡ a.run_id
  pub final : is_settled a.state ≡ true → (b.state ≡ a.state) × (b.attempt ≡ a.attempt)

pub Follows-refl : (a : Job) → Follows a a
Follows-refl a = record { attempts_grow = omega arith; same_run = refl; final = λ h. (refl, refl) }

pub Follows-trans : {a b c : Job} → Follows a b → Follows b c → Follows a c
Follows-trans {a} {b} {c} f g = record {
  attempts_grow = omega arith;
  same_run = g.same_run ∙ f.same_run;
  final = λ h. let (p, q) = f.final h in let (p', q') = g.final (rw p h) in (p' ∙ p, q' ∙ q);
}

-- Every job is still there, and has moved on.
pub record Extends (jobs jobs' : Table Job) : Type 0 where
  pub later :
      (id : Str) (a : Job)
      → get id jobs ≡ some a
      → (b : Job) × (get id jobs' ≡ some b) × Follows a b

pub Extends-refl : (jobs : Table Job) → Extends jobs jobs
Extends-refl jobs = record { later = λ id a e. (a, e, Follows-refl a) }

pub Extends-trans : {l m n : Table Job} → Extends l m → Extends m n → Extends l n
Extends-trans x y = record {
  later = λ id a e.
      let (b, eb, f) = x.later id a e in
      let (c, ec, g) = y.later id b eb in (c, ec, Follows-trans f g);
}

pub Extends-put :
    (k : Str) (v : Job) (jobs : Table Job)
    → ((a : Job) → get k jobs ≡ some a → Follows a v)
    → Extends jobs (put k v jobs)
Extends-put k v jobs h = record {
  later = λ id a e. elim (str_dec k id) [
    | yes p ↦
        (v, subst (λ i. get i (put k v jobs) ≡ some v) p (get-put_self k v jobs), h a (rw p e))
    | no q ↦ (a, rw (get-put_ne id k v jobs q) e, Follows-refl a)
  ];
}

-- A write at the id of the job that it replaces.
pub Extends-put_found :
    (k : Str) (v a : Job) (jobs : Table Job)
    → get k jobs ≡ some a
    → Follows a v
    → Extends jobs (put k v jobs)
Extends-put_found k v a jobs e f =
    Extends-put k v jobs λ b e'. subst (λ x. Follows x v) (some-injective a b (sym e ∙ e')) f

pub Extends-map :
    (f : Job → Job) (jobs : Table Job)
    → ((a : Job) → Follows a (f a))
    → Extends jobs (map_values f jobs)
Extends-map f jobs h = record {
  later = λ id a e. (f a, get-map_values id f jobs ∙ ap (map_option f) e, h a);
}
