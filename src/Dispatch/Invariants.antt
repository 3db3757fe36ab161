-- ===== src/Dispatch/Invariants.antt =====
-- dispatch/service.py: what every sequence of commands keeps.
use Prim.Native.String.{String}
use seqret_be.Prelude.{◌&&◌, some, ◌==◌, ◌≡◌, sym, ap, ◌∙◌, subst, inl, inr}
use seqret_be.Prelude.Clock.{Uuid}
use seqret_be.Prelude.Table.{find, IsKeyed, Without-find}
use seqret_be.Prelude.Pointwise.{first_where}
use seqret_be.Prelude.{All}
use seqret_be.Dispatch.Checks.{vehicle_id}
use seqret_be.Dispatch.Model.{
  DispatchSetupCreate, DispatchSetup, DispatchConfirmCreate, DispatchPlan, FieldCheckIn, Db,
}
use seqret_be.Dispatch.Lookups.{setup_job, plan_job, setup_of, plan_of, check_in_of}
use seqret_be.Dispatch.Changes.{
  Step, Change, unchanged, setup_added, plan_added, check_in_added, Step-Change,
}
use seqret_be.Dispatch.Lifecycle.{
  IsConsistent, Keeps, Keeps-refl, Keeps-trans, find_cases, check_in_cases, Change-Keeps,
}

abbrev HasDistinctVehicles : DispatchSetup → Type 0
HasDistinctVehicles s = IsKeyed vehicle_id s.vehicle_options

-- The row that a new or an old plan refers to, and a new or an old check-in.
planned_after :
    (db db' : Db)
    → Keeps db db'
    → IsConsistent db
    → (job_id : Uuid) (p : DispatchPlan) → plan_of job_id db ≡ some p
    → (s : DispatchSetup) × (setup_of job_id db' ≡ some s) × (p.setup_id ≡ s.id)
planned_after db db' k c job_id p h =
    let (s, found, names) = c.planned job_id p h in (s, k.setup job_id s found, names)

checked_in_after :
    (db db' : Db)
    → Keeps db db'
    → IsConsistent db
    → (job_id participant_id : Uuid) (r : FieldCheckIn)
    → check_in_of job_id participant_id db ≡ some r
    → (p : DispatchPlan) × (plan_of job_id db' ≡ some p) × (r.dispatch_plan_id ≡ p.id)
checked_in_after db db' k c job_id participant_id r h =
    let (p, found, names) = c.checked_in job_id participant_id r h in
    (p, k.plan job_id p found, names)

pub Change-IsConsistent : (db db' : Db) → Change db db' → IsConsistent db → IsConsistent db'
Change-IsConsistent db db' (unchanged x y z) c =
    let k = Change-Keeps db db' (unchanged x y z) in
    record {
      setups_keyed = subst (IsKeyed setup_job) (sym x) c.setups_keyed;
      vehicles_keyed = subst (All HasDistinctVehicles) (sym x) c.vehicles_keyed;
      plans_keyed = subst (IsKeyed plan_job) (sym y) c.plans_keyed;
      planned = λ j p h. planned_after db db' k c j p (sym (ap (find plan_job j) y) ∙ h);
      checked_in = λ j q r h.
          checked_in_after db db' k c j q r
            (sym (ap (first_where (λ v. v.job_id == j && v.participant_id == q)) z) ∙ h);
    }
Change-IsConsistent db db' (setup_added s fresh keyed x y z) c =
    let k = Change-Keeps db db' (setup_added s fresh keyed x y z) in
    record {
      setups_keyed =
          subst (IsKeyed setup_job) (sym x)
            (Without-find setup_job s.job_id db.setups fresh, c.setups_keyed);
      vehicles_keyed = subst (All HasDistinctVehicles) (sym x) (keyed, c.vehicles_keyed);
      plans_keyed = subst (IsKeyed plan_job) (sym y) c.plans_keyed;
      planned = λ j p h. planned_after db db' k c j p (sym (ap (find plan_job j) y) ∙ h);
      checked_in = λ j q r h.
          checked_in_after db db' k c j q r
            (sym (ap (first_where (λ v. v.job_id == j && v.participant_id == q)) z) ∙ h);
    }
Change-IsConsistent db db' (plan_added s p fresh has names x y z) c =
    let k = Change-Keeps db db' (plan_added s p fresh has names x y z) in
    record {
      setups_keyed = subst (IsKeyed setup_job) (sym x) c.setups_keyed;
      vehicles_keyed = subst (All HasDistinctVehicles) (sym x) c.vehicles_keyed;
      plans_keyed =
          subst (IsKeyed plan_job) (sym y)
            (Without-find plan_job p.job_id db.plans fresh, c.plans_keyed);
      planned = λ j q h.
          elim (find_cases plan_job j p q db.plans (sym (ap (find plan_job j) y) ∙ h)) [
            | inl (own, is_new) ↦ (
              s,
              k.setup j s (subst (λ i. setup_of i db ≡ some s) own has),
              ap (λ r. r.setup_id) (sym is_new) ∙ names,
            )
            | inr old ↦ planned_after db db' k c j q old
          ];
      checked_in = λ j q r h.
          checked_in_after db db' k c j q r
            (sym (ap (first_where (λ v. v.job_id == j && v.participant_id == q)) z) ∙ h);
    }
Change-IsConsistent db db' (check_in_added p r fresh has names x y z) c =
    let k = Change-Keeps db db' (check_in_added p r fresh has names x y z) in
    record {
      setups_keyed = subst (IsKeyed setup_job) (sym x) c.setups_keyed;
      vehicles_keyed = subst (All HasDistinctVehicles) (sym x) c.vehicles_keyed;
      plans_keyed = subst (IsKeyed plan_job) (sym y) c.plans_keyed;
      planned = λ j q h. planned_after db db' k c j q (sym (ap (find plan_job j) y) ∙ h);
      checked_in = λ j q w h.
          elim (check_in_cases j q w r db.check_ins
            (sym (ap (first_where (λ v. v.job_id == j && v.participant_id == q)) z) ∙ h)) [
              | inl (own, is_new) ↦ (
                p,
                k.plan j p (subst (λ i. plan_of i db ≡ some p) own has),
                ap (λ v. v.dispatch_plan_id) (sym is_new) ∙ names,
              )
              | inr old ↦ checked_in_after db db' k c j q w old
            ];
    }

module _ (hash : DispatchSetupCreate → String) (plan_hash : DispatchConfirmCreate → String) where
  -- Any sequence of committed commands.
  pub data Reach (db : Db) : Db → Type 0 where
    here : Reach db db
    next : {mid last : Db} → Reach db mid → Step hash plan_hash mid last → Reach db last

  pub IsConsistent-Change :
      (db db' : Db) → IsConsistent db → Step hash plan_hash db db' → Change db db'
  IsConsistent-Change db db' c s = Step-Change hash plan_hash db db' c.setups_keyed c.plans_keyed s

  -- Every sequence of commands, in which no creation draws an id twice, keeps this: setups, and
  -- plans, have distinct jobs, the vehicles of a setup have distinct ids, a plan names the setup of
  -- its job, and a check-in names the plan of its job.
  pub Reach-IsConsistent : (db db' : Db) → Reach db db' → IsConsistent db → IsConsistent db'
  Reach-IsConsistent db _ here c = c
  Reach-IsConsistent db db' (next {mid} r s) c =
      let m = Reach-IsConsistent db mid r c in
      Change-IsConsistent mid db' (IsConsistent-Change mid db' m s) m

  pub Reach-Keeps : (db db' : Db) → IsConsistent db → Reach db db' → Keeps db db'
  Reach-Keeps db _ c here = Keeps-refl db
  Reach-Keeps db db' c (next {mid} r s) =
      let m = Reach-IsConsistent db mid r c in
      Keeps-trans db mid db' (Reach-Keeps db mid c r)
        (Change-Keeps mid db' (IsConsistent-Change mid db' m s))
