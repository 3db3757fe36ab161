-- ===== src/Dispatch/Lifecycle.antt =====
-- dispatch/service.py: how the rows of a dispatch refer to one another, and that a step keeps each.
use seqret_be.Prelude.{
  ℕ, ◌&&◌, none, some, List, ◌∷◌, ◌==◌, ◌≡◌, ◌⊎◌, ap, ◌∙◌, subst, arith, inl, inr, Bool-cases,
  eq_of_==,
}
use seqret_be.Prelude.Clock.{Uuid}
use seqret_be.Prelude.Table.{find, IsKeyed}
use seqret_be.Prelude.Pointwise.{first_where}
use seqret_be.Prelude.{All}
use seqret_be.Dispatch.Checks.{vehicle_id}
use seqret_be.Dispatch.Model.{DispatchSetup, DispatchPlan, FieldCheckIn, Db}
use seqret_be.Dispatch.Lookups.{setup_job, plan_job, setup_of, plan_of, check_in_of}
use seqret_be.Dispatch.Changes.{Change, unchanged, setup_added, plan_added, check_in_added}

-- The unique constraints on the job, distinct ids of a setup's vehicles, and the rows that a row
-- refers to.
pub record IsConsistent (db : Db) : Type 0 where
  pub setups_keyed : IsKeyed setup_job db.setups
  pub vehicles_keyed : All (λ s. IsKeyed vehicle_id s.vehicle_options) db.setups
  pub plans_keyed : IsKeyed plan_job db.plans
  pub planned :
      (job_id : Uuid) (p : DispatchPlan)
      → plan_of job_id db ≡ some p
      → (s : DispatchSetup) × (setup_of job_id db ≡ some s) × (p.setup_id ≡ s.id)
  pub checked_in :
      (job_id participant_id : Uuid) (c : FieldCheckIn)
      → check_in_of job_id participant_id db ≡ some c
      → (p : DispatchPlan) × (plan_of job_id db ≡ some p) × (c.dispatch_plan_id ≡ p.id)

-- Each row that is found stays found, unchanged.
pub record Keeps (db db' : Db) : Type 0 where
  pub setup :
      (job_id : Uuid) (s : DispatchSetup)
      → setup_of job_id db ≡ some s
      → setup_of job_id db' ≡ some s
  pub plan :
      (job_id : Uuid) (p : DispatchPlan) → plan_of job_id db ≡ some p → plan_of job_id db' ≡ some p
  pub check_in :
      (job_id participant_id : Uuid) (c : FieldCheckIn)
      → check_in_of job_id participant_id db ≡ some c
      → check_in_of job_id participant_id db' ≡ some c

pub Keeps-refl : (db : Db) → Keeps db db
Keeps-refl db = record { setup = λ j s h. h; plan = λ j p h. h; check_in = λ j q c h. h }

pub Keeps-trans : (a b c : Db) → Keeps a b → Keeps b c → Keeps a c
Keeps-trans a b c k l = record {
  setup = λ j s h. l.setup j s (k.setup j s h);
  plan = λ j p h. l.plan j p (k.plan j p h);
  check_in = λ j q r h. l.check_in j q r (k.check_in j q r h);
}

-- A row is found behind a new one, if none had the key of the new one.
find_behind :
    {Row : Type 0} (key : Row → ℕ) (k : ℕ) (r s : Row) (t : List Row)
    → find key (key r) t ≡ none
    → find key k t ≡ some s
    → find key k (r ∷ t) ≡ some s
find_behind key k r s t fresh found = ground (arith, fresh, found)

check_in_behind :
    (job_id participant_id : Uuid) (c r : FieldCheckIn) (cs : List FieldCheckIn)
    → first_where (λ x. x.job_id == r.job_id && x.participant_id == r.participant_id) cs ≡ none
    → first_where (λ x. x.job_id == job_id && x.participant_id == participant_id) cs ≡ some c
    → first_where (λ x. x.job_id == job_id && x.participant_id == participant_id) (r ∷ cs) ≡ some c
check_in_behind job_id participant_id c r cs fresh found =
    elim (Bool-cases (r.job_id == job_id && r.participant_id == participant_id)) [
      | inr other ↦ ground (arith, other, found)
      | inl same ↦
          let same_job : r.job_id ≡ job_id = ground (arith, same) in
          let same_worker : r.participant_id ≡ participant_id = ground (arith, same) in
          let none_here =
            subst
              (λ k.
                first_where (λ x. x.job_id == k && x.participant_id == participant_id) cs ≡ none)
              same_job
              (subst
                (λ k. first_where (λ x. x.job_id == r.job_id && x.participant_id == k) cs ≡ none)
                same_worker fresh) in
          absurd (ground (arith, none_here, found))
    ]

pub Change-Keeps : (db db' : Db) → Change db db' → Keeps db db'
Change-Keeps db db' (unchanged a b c) = record {
  setup = λ j s h. ap (find setup_job j) a ∙ h;
  plan = λ j p h. ap (find plan_job j) b ∙ h;
  check_in = λ j q r h. ap (first_where (λ x. x.job_id == j && x.participant_id == q)) c ∙ h;
}
Change-Keeps db db' (setup_added s fresh keyed a b c) = record {
  setup = λ j r h. ap (find setup_job j) a ∙ find_behind setup_job j s r db.setups fresh h;
  plan = λ j p h. ap (find plan_job j) b ∙ h;
  check_in = λ j q r h. ap (first_where (λ x. x.job_id == j && x.participant_id == q)) c ∙ h;
}
Change-Keeps db db' (plan_added s p fresh has names a b c) = record {
  setup = λ j r h. ap (find setup_job j) a ∙ h;
  plan = λ j r h. ap (find plan_job j) b ∙ find_behind plan_job j p r db.plans fresh h;
  check_in = λ j q r h. ap (first_where (λ x. x.job_id == j && x.participant_id == q)) c ∙ h;
}
Change-Keeps db db' (check_in_added p r fresh has names a b c) = record {
  setup = λ j s h. ap (find setup_job j) a ∙ h;
  plan = λ j s h. ap (find plan_job j) b ∙ h;
  check_in = λ j q x h.
      ap (first_where (λ y. y.job_id == j && y.participant_id == q)) c
      ∙ check_in_behind j q x r db.check_ins fresh h;
}

-- What is found in front of or behind a new row.
pub find_cases :
    {Row : Type 0} (key : Row → ℕ) (k : ℕ) (r s : Row) (t : List Row)
    → find key k (r ∷ t) ≡ some s
    → ((key r ≡ k) × (r ≡ s)) ⊎ (find key k t ≡ some s)
find_cases key k r s t h = elim (Bool-cases (key r == k)) [
  | inl same ↦ inl (eq_of_== (key r) k same, ground (arith, h, same))
  | inr other ↦ inr (ground (arith, h, other))
]

pub check_in_cases :
    (job_id participant_id : Uuid) (c r : FieldCheckIn) (cs : List FieldCheckIn)
    → first_where (λ x. x.job_id == job_id && x.participant_id == participant_id) (r ∷ cs) ≡ some c
    → ((r.job_id ≡ job_id) × (r ≡ c))
      ⊎ (first_where (λ x. x.job_id == job_id && x.participant_id == participant_id) cs ≡ some c)
check_in_cases job_id participant_id c r cs h =
    elim (Bool-cases (r.job_id == job_id && r.participant_id == participant_id)) [
      | inl same ↦ inl (ground (arith, same), ground (arith, h, same))
      | inr other ↦ inr (ground (arith, h, other))
    ]
