-- ===== src/Dispatch/Changes.antt =====
-- dispatch/service.py: how a committed command may change the tables of a dispatch.
use Prim.Native.String.{String}
use seqret_be.Prelude.{
  ◌&&◌, none, some, ◌∷◌, ◌==◌, ◌≡◌, refl, sym, ap, subst, arith, inl, inr, Option-cases,
}
use seqret_be.Prelude.Clock.{Uuid}
use seqret_be.Prelude.Table.{find, IsKeyed, find_key}
use seqret_be.Prelude.Pointwise.{first_where, find-first_where, first_where_holds}
use seqret_be.Prelude.Transaction.{ok}
use seqret_be.MoveJob.Listing.{MoveJob}
use seqret_be.Dispatch.Model.{
  DispatchSetupCreate, DispatchSetup, DispatchConfirmCreate, DispatchPlan, FieldCheckInCreate,
  FieldCheckIn, FieldCheckInResponse, Db,
}
use seqret_be.Dispatch.Lookups.{
  job_key, load_job, setup_job, plan_job, setup_of, plan_of, check_in_of,
}
use seqret_be.Dispatch.Commands.{Ambient, create_dispatch_setup, new_setup}
use seqret_be.Dispatch.Confirm.{confirm_dispatch, require_setup, new_plan}
use seqret_be.Dispatch.Checks.{vehicle_id}
use seqret_be.Dispatch.Options.{IsInjective, snapshot_vehicles-IsKeyed}
use seqret_be.Dispatch.CheckIn.{check_in_field_worker, require_dispatch, new_check_in}
use seqret_be.Dispatch.Effects as Effects
use seqret_be.Dispatch.Plans as Plans
use seqret_be.Dispatch.Arrivals as Arrivals

-- The setup that a request names is the one of its job.
pub required_setup :
    (setup_id job_id : Uuid) (db : Db) (s : DispatchSetup)
    → IsKeyed setup_job db.setups
    → require_setup setup_id job_id db ≡ ok s
    → setup_of job_id db ≡ some s
required_setup setup_id job_id db s keyed h =
    let found : first_where (λ r. r.id == setup_id && r.job_id == job_id) db.setups ≡ some s =
      ground (arith, h) in
    let holds = first_where_holds _ db.setups s found in
    let own : s.job_id ≡ job_id = ground (arith, holds) in
    subst (λ k. find setup_job k db.setups ≡ some s) own
      (find-first_where setup_job _ db.setups s keyed found)

-- The plan that a check-in names, with the setup, are those of the job.
pub required_dispatch :
    (dispatch_id job_id : Uuid) (db : Db) (s : DispatchSetup) (p : DispatchPlan)
    → IsKeyed plan_job db.plans
    → require_dispatch dispatch_id job_id db ≡ ok (s, p)
    → (setup_of job_id db ≡ some s) × (plan_of job_id db ≡ some p)
required_dispatch dispatch_id job_id db s p keyed h = elim (Option-cases (setup_of job_id db)) [
  | inl unset ↦ absurd (ground (arith, h, unset))
  | inr (r, has) ↦
      elim (Option-cases (first_where (λ q. q.id == dispatch_id && q.job_id == job_id) db.plans)) [
        | inl missing ↦ absurd (ground (arith, h, has, missing))
        | inr (q, found) ↦
            let holds = first_where_holds _ db.plans q found in
            let own : q.job_id ≡ job_id = ground (arith, holds) in
            let is_q : q ≡ p = ground (arith, h, has, found) in
            let found_job =
              subst (λ k. find plan_job k db.plans ≡ some q) own
                (find-first_where plan_job _ db.plans q keyed found) in
            (ground (arith, h, has, found), ground (arith, found_job, is_q))
      ]
]

-- A committed command of the service, or one of another module, which writes none of its tables.
-- The ids that a creation draws for its options are distinct.
pub data Step (hash : DispatchSetupCreate → String) (plan_hash : DispatchConfirmCreate → String)
    (db db' : Db) : Type 0 where
  create :
      (a : Ambient) (job_id participant_id : Uuid) (command : DispatchSetupCreate)
      (s : DispatchSetup)
      → IsInjective a.option_id
      → create_dispatch_setup hash a job_id participant_id command db ≡ ok (s, db')
      → Step hash plan_hash db db'
  confirm :
      (a : Ambient) (trace_id : String) (job_id participant_id : Uuid)
      (command : DispatchConfirmCreate) (p : DispatchPlan)
      → confirm_dispatch plan_hash a trace_id job_id participant_id command db ≡ ok (p, db')
      → Step hash plan_hash db db'
  check_in :
      (a : Ambient) (job_id participant_id : Uuid) (command : FieldCheckInCreate)
      (x : FieldCheckInResponse)
      → check_in_field_worker a job_id participant_id command db ≡ ok (x, db')
      → Step hash plan_hash db db'
  elsewhere :
      db'.setups ≡ db.setups
      → db'.plans ≡ db.plans
      → db'.check_ins ≡ db.check_ins
      → Step hash plan_hash db db'

-- What a step does to the three tables: at most one row is added, and it is the first of its job.
pub data Change (db db' : Db) : Type 0 where
  unchanged :
      db'.setups ≡ db.setups → db'.plans ≡ db.plans → db'.check_ins ≡ db.check_ins → Change db db'
  setup_added :
      (s : DispatchSetup)
      → setup_of s.job_id db ≡ none
      → IsKeyed vehicle_id s.vehicle_options
      → db'.setups ≡ s ∷ db.setups
      → db'.plans ≡ db.plans
      → db'.check_ins ≡ db.check_ins
      → Change db db'
  plan_added :
      (s : DispatchSetup) (p : DispatchPlan)
      → plan_of p.job_id db ≡ none
      → setup_of p.job_id db ≡ some s
      → p.setup_id ≡ s.id
      → db'.setups ≡ db.setups
      → db'.plans ≡ p ∷ db.plans
      → db'.check_ins ≡ db.check_ins
      → Change db db'
  check_in_added :
      (p : DispatchPlan) (c : FieldCheckIn)
      → check_in_of c.job_id c.participant_id db ≡ none
      → plan_of c.job_id db ≡ some p
      → c.dispatch_plan_id ≡ p.id
      → db'.setups ≡ db.setups
      → db'.plans ≡ db.plans
      → db'.check_ins ≡ c ∷ db.check_ins
      → Change db db'

pub loaded_id :
    (job_id : Uuid) (db : Db) (job : MoveJob) → load_job job_id db ≡ ok job → job.id ≡ job_id
loaded_id job_id db job h = find_key job_key job_id db.jobs job (ground (arith, h))

module _ (hash : DispatchSetupCreate → String) (plan_hash : DispatchConfirmCreate → String) where
  pub Step-Change :
      (db db' : Db)
      → IsKeyed setup_job db.setups
      → IsKeyed plan_job db.plans
      → Step hash plan_hash db db'
      → Change db db'
  Step-Change db db' ks kp (elsewhere a b c) = unchanged a b c
  Step-Change db db' ks kp (create a job_id participant_id command s distinct h) =
      elim (Effects.create_dispatch_setup_inv hash a job_id participant_id command db db' s h) [
        | Effects.again found same last ↦
            unchanged (ap (λ d. d.setups) last) (ap (λ d. d.plans) last)
              (ap (λ d. d.check_ins) last)
        | Effects.first job loaded unset
              (Effects.added start_at m w v is_open manages current works single free is_new last) ↦
            let own = loaded_id job_id db job loaded in
            setup_added (new_setup hash a job.id participant_id command start_at)
              (subst (λ k. setup_of k db ≡ none) (sym own) unset)
              (snapshot_vehicles-IsKeyed a.option_id distinct 0 command.vehicles)
              (ap (λ d. d.setups) last) (ap (λ d. d.plans) last) (ap (λ d. d.check_ins) last)
      ]
  Step-Change db db' ks kp (confirm a trace_id job_id participant_id command p h) =
      elim (Plans.confirm_dispatch_inv plan_hash a trace_id job_id participant_id command db db' p
        h) [
          | Plans.again found same last ↦
              unchanged (ap (λ d. d.setups) last) (ap (λ d. d.plans) last)
                (ap (λ d. d.check_ins) last)
          | Plans.first job loaded unset
                (Plans.added start_at m w s v e outbox is_open manages has current works valid free
                  is_new sent last) ↦
              let own = loaded_id job_id db job loaded in
              plan_added s (new_plan plan_hash a job.id participant_id command s)
                (subst (λ k. plan_of k db ≡ none) (sym own) unset)
                (required_setup command.setup_id job.id db s ks has) refl (ap (λ d. d.setups) last)
                (ap (λ d. d.plans) last) (ap (λ d. d.check_ins) last)
        ]
  Step-Change db db' ks kp (check_in a job_id participant_id command x h) =
      elim (Arrivals.check_in_inv a job_id participant_id command db db' x h) [
        | Arrivals.again s p w c arrived found plan same shown last ↦
            unchanged (ap (λ d. d.setups) last) (ap (λ d. d.plans) last)
              (ap (λ d. d.check_ins) last)
        | Arrivals.first s p w
              (Arrivals.arrival job start_at q v loaded is_open works has assigned current keys)
              absent day free shown last ↦
            let (of_job, plan) = required_dispatch command.dispatch_id job_id db s p kp has in
            check_in_added p (new_check_in a.id a.now job_id participant_id s p w) absent plan refl
              (ap (λ d. d.setups) last) (ap (λ d. d.plans) last) (ap (λ d. d.check_ins) last)
      ]
