-- ===== src/Dispatch/Plans.antt =====
-- dispatch/service.py: what a confirmation that returned has found, and what it leaves.
use Prim.Native.String.{String}
use seqret_be.Prelude.{
  Bool, true, ◌&&◌, none, some, ◌∷◌, ◌==◌, ◌≡◌, arith, inl, inr, Bool-cases, Option-cases,
}
use seqret_be.Prelude.Clock.{Uuid, Instant}
use seqret_be.Prelude.Text.{same_text}
use seqret_be.Prelude.Transaction.{ok, Result-cases}
use seqret_be.Contracts.Events.{DomainEvent, dispatch_confirmed}
use seqret_be.Outbox.{Outbox, enqueue_domain_event}
use seqret_be.Access.Model.{JobParticipant, company_manager}
use seqret_be.MoveJob.Listing.{MoveJob}
use seqret_be.Dispatch.Model.{ScopeVersion, DispatchSetup, DispatchConfirmCreate, DispatchPlan, Db}
use seqret_be.Dispatch.Lookups.{
  load_job, require_participant, field_worker_of, require_open_scheduled_job, current_locked_scope,
  plan_of,
}
use seqret_be.Dispatch.Commands.{Ambient}
use seqret_be.Dispatch.Confirm.{
  validate_selection, new_plan, may_add_plan, dispatch_payload, insert_plan, require_setup,
  add_plan, confirm_dispatch,
}

-- A new plan with all that was tested for it, and its event.
pub data PlanAdded (hash : DispatchConfirmCreate → String) (a : Ambient) (trace_id : String)
    (job : MoveJob) (participant_id : Uuid) (command : DispatchConfirmCreate) (db : Db)
    (p : DispatchPlan) (db' : Db) : Type 0 where
  added :
      (start_at : Instant) (manager worker : JobParticipant) (setup : DispatchSetup)
      (v : ScopeVersion) (e : DomainEvent) (outbox : Outbox)
      → require_open_scheduled_job job ≡ ok start_at
      → require_participant job.id participant_id company_manager db ≡ ok manager
      → require_setup command.setup_id job.id db ≡ ok setup
      → current_locked_scope job.id setup.source_scope_version_id db ≡ ok v
      → field_worker_of job.id db ≡ ok worker
      → validate_selection setup command worker.id ≡ ok tt
      → may_add_plan (new_plan hash a job.id participant_id command setup) db ≡ true
      → p ≡ new_plan hash a job.id participant_id command setup
      → enqueue_domain_event a.event dispatch_confirmed job.id
          (some participant_id)
          (some trace_id)
          (dispatch_payload (new_plan hash a job.id participant_id command setup) worker.id)
          none
          db.outbox
        ≡ ok (e, outbox)
      → db' ≡ record db {
        plans = new_plan hash a job.id participant_id command setup ∷ db.plans;
        outbox = outbox;
      }
      → PlanAdded hash a trace_id job participant_id command db p db'

insert_plan_inv :
    (a : Ambient) (trace_id : String) (worker_id : Uuid) (plan : DispatchPlan) (db db' : Db)
    (p : DispatchPlan)
    → insert_plan a trace_id worker_id plan db ≡ ok (p, db')
    → (e : DomainEvent) × (outbox : Outbox) × (may_add_plan plan db ≡ true)
      × (p ≡ plan)
      × (enqueue_domain_event a.event dispatch_confirmed plan.job_id
            (some plan.confirmed_by_participant_id)
            (some trace_id)
            (dispatch_payload plan worker_id)
            none
            db.outbox
          ≡ ok (e, outbox))
      × (db' ≡ record db { plans = plan ∷ db.plans; outbox = outbox })
insert_plan_inv a trace_id worker_id plan db db' p h = elim (Bool-cases (may_add_plan plan db)) [
  | inr clash ↦ absurd (ground (arith, h, clash))
  | inl free ↦
      elim (Result-cases (
        enqueue_domain_event a.event dispatch_confirmed plan.job_id
          (some plan.confirmed_by_participant_id) (some trace_id) (dispatch_payload plan worker_id)
          none db.outbox)) [
            | inr (x, raised) ↦ absurd (ground (arith, h, free, raised))
            | inl ((e, outbox), sent) ↦ (
              e,
              outbox,
              free,
              ground (arith, h, free, sent),
              sent,
              ground (arith, h, free, sent),
            )
          ]
]

pub add_plan_inv :
    (hash : DispatchConfirmCreate → String) (a : Ambient) (trace_id : String) (job : MoveJob)
    (participant_id : Uuid) (command : DispatchConfirmCreate) (db db' : Db) (p : DispatchPlan)
    → add_plan hash a trace_id job participant_id command db ≡ ok (p, db')
    → PlanAdded hash a trace_id job participant_id command db p db'
unfolding add_plan
add_plan_inv hash a trace_id job participant_id command db db' p h =
    elim (Result-cases (require_open_scheduled_job job)) [
      | inr (x, e) ↦ absurd (ground (arith, h, e))
      | inl (start_at, is_open) ↦
          elim (Result-cases (require_participant job.id participant_id company_manager db)) [
            | inr (x, e) ↦ absurd (ground (arith, h, is_open, e))
            | inl (manager, manages) ↦
                elim (Result-cases (require_setup command.setup_id job.id db)) [
                  | inr (x, e) ↦ absurd (ground (arith, h, is_open, manages, e))
                  | inl (setup, has_setup) ↦
                      elim (Result-cases
                        (current_locked_scope job.id setup.source_scope_version_id db)) [
                          | inr (x, e) ↦ absurd (ground (arith, h, is_open, manages, has_setup, e))
                          | inl (v, current) ↦ elim (Result-cases (field_worker_of job.id db)) [
                            | inr (x, e) ↦
                                absurd (ground (arith, h, is_open, manages, has_setup, current, e))
                            | inl (worker, works) ↦
                                elim (Result-cases (validate_selection setup command worker.id)) [
                                  | inr (x, e) ↦ absurd (
                                      ground
                                        (arith, h, is_open, manages, has_setup, current, works, e))
                                  | inl (tt, valid) ↦
                                      let (e, outbox, free, is_new, sent, last) =
                                        insert_plan_inv a trace_id worker.id
                                          (new_plan hash a job.id participant_id command setup) db
                                          db' p
                                          (ground (
                                            arith, h, is_open, manages, has_setup, current, works,
                                            valid,
                                          )) in
                                      added start_at manager worker setup v e outbox is_open manages
                                        has_setup current works valid free is_new sent last
                                ]
                          ]
                        ]
                ]
          ]
    ]

-- The command of the plan, and who confirmed it.
abbrev pub is_same_plan : String → Uuid → DispatchPlan → Bool
is_same_plan command_hash participant_id p =
    same_text p.command_hash command_hash && p.confirmed_by_participant_id == participant_id

pub data PlanConfirmed (hash : DispatchConfirmCreate → String) (a : Ambient) (trace_id : String)
    (job_id participant_id : Uuid) (command : DispatchConfirmCreate) (db : Db) (p : DispatchPlan)
    (db' : Db) : Type 0 where
  again :
      plan_of job_id db ≡ some p
      → is_same_plan (hash command) participant_id p ≡ true
      → db' ≡ db
      → PlanConfirmed hash a trace_id job_id participant_id command db p db'
  first :
      (job : MoveJob)
      → load_job job_id db ≡ ok job
      → plan_of job_id db ≡ none
      → PlanAdded hash a trace_id job participant_id command db p db'
      → PlanConfirmed hash a trace_id job_id participant_id command db p db'

pub confirm_dispatch_inv :
    (hash : DispatchConfirmCreate → String) (a : Ambient) (trace_id : String)
    (job_id participant_id : Uuid) (command : DispatchConfirmCreate) (db db' : Db)
    (p : DispatchPlan)
    → confirm_dispatch hash a trace_id job_id participant_id command db ≡ ok (p, db')
    → PlanConfirmed hash a trace_id job_id participant_id command db p db'
unfolding confirm_dispatch
confirm_dispatch_inv hash a trace_id job_id participant_id command db db' p h =
    elim (Result-cases (load_job job_id db)) [
      | inr (x, e) ↦ absurd (ground (arith, h, e))
      | inl (job, loaded) ↦ elim (Option-cases (plan_of job_id db)) [
        | inl unset ↦ first job loaded unset (
            add_plan_inv hash a trace_id job participant_id command db db' p
              (ground (arith, h, loaded, unset)))
        | inr (r, has) ↦ elim (Bool-cases (is_same_plan (hash command) participant_id r)) [
          | inr other ↦ absurd (ground (arith, h, loaded, has, other))
          | inl same ↦
              let is_r : r ≡ p = ground (arith, h, loaded, has, same) in
              again (ground (arith, has, is_r)) (ground (arith, same, is_r))
                (ground (arith, h, loaded, has, same))
        ]
      ]
    ]
