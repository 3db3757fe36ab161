-- ===== src/Dispatch/Effects.antt =====
-- dispatch/service.py: what a creation of a setup that returned has found, and what it leaves.
use Prim.Native.String.{String}
use seqret_be.Prelude.{
  true, false, none, some, ◌∷◌, ltb, length, ◌≡◌, arith, inl, inr, Bool-cases, Option-cases,
}
use seqret_be.Prelude.Clock.{Uuid, Instant}
use seqret_be.Prelude.Transaction.{ok, Result-cases}
use seqret_be.Access.Model.{JobParticipant, company_manager}
use seqret_be.MoveJob.Listing.{MoveJob}
use seqret_be.Dispatch.Model.{ScopeVersion, DispatchSetupCreate, DispatchSetup, Db}
use seqret_be.Dispatch.Lookups.{
  load_job, require_participant, field_worker_of, require_open_scheduled_job, current_locked_scope,
  setup_of,
}
use seqret_be.Dispatch.Commands.{
  Ambient, is_single, mapped_participant_ids, new_setup, may_add_setup, add_setup, is_same_setup,
  create_dispatch_setup,
}

-- A new setup with all that was tested for it.
pub data SetupAdded (hash : DispatchSetupCreate → String) (a : Ambient) (job : MoveJob)
    (participant_id : Uuid) (command : DispatchSetupCreate) (db : Db) (s : DispatchSetup) (db' : Db)
    : Type 0 where
  added :
      (start_at : Instant) (manager worker : JobParticipant) (v : ScopeVersion)
      → require_open_scheduled_job job ≡ ok start_at
      → require_participant job.id participant_id company_manager db ≡ ok manager
      → current_locked_scope job.id command.source_scope_version_id db ≡ ok v
      → field_worker_of job.id db ≡ ok worker
      → is_single worker.id (mapped_participant_ids command.workers) ≡ true
      → may_add_setup (new_setup hash a job.id participant_id command start_at) db ≡ true
      → s ≡ new_setup hash a job.id participant_id command start_at
      → db'
        ≡ record db { setups = new_setup hash a job.id participant_id command start_at ∷ db.setups }
      → SetupAdded hash a job participant_id command db s db'

pub add_setup_inv :
    (hash : DispatchSetupCreate → String) (a : Ambient) (job : MoveJob) (participant_id : Uuid)
    (command : DispatchSetupCreate) (db db' : Db) (s : DispatchSetup)
    → add_setup hash a job participant_id command db ≡ ok (s, db')
    → SetupAdded hash a job participant_id command db s db'
unfolding add_setup
add_setup_inv hash a job participant_id command db db' s h =
    elim (Result-cases (require_open_scheduled_job job)) [
      | inr (x, e) ↦ absurd (ground (arith, h, e))
      | inl (start_at, is_open) ↦
          elim (Result-cases (require_participant job.id participant_id company_manager db)) [
            | inr (x, e) ↦ absurd (ground (arith, h, is_open, e))
            | inl (manager, manages) ↦
                elim (Result-cases
                  (current_locked_scope job.id command.source_scope_version_id db)) [
                    | inr (x, e) ↦ absurd (ground (arith, h, is_open, manages, e))
                    | inl (v, current) ↦ elim (Result-cases (field_worker_of job.id db)) [
                      | inr (x, e) ↦ absurd (ground (arith, h, is_open, manages, current, e))
                      | inl (worker, works) ↦
                          let s' = new_setup hash a job.id participant_id command start_at in
                          let single : is_single worker.id (mapped_participant_ids command.workers)
                              ≡ true =
                            ground (arith, h, is_open, manages, current, works) in
                          let enough : ltb (length command.workers) command.required_worker_count
                              ≡ false =
                            ground (arith, h, is_open, manages, current, works, single) in
                          let free : may_add_setup s' db ≡ true =
                            ground (arith, h, is_open, manages, current, works, single, enough) in
                          added start_at manager worker v is_open manages current works single free
                            (ground
                              (arith, h, is_open, manages, current, works, single, enough, free))
                            (ground
                              (arith, h, is_open, manages, current, works, single, enough, free))
                    ]
                  ]
          ]
    ]

-- A setup that the job has, answered again, or a new one.
pub data SetupCreated (hash : DispatchSetupCreate → String) (a : Ambient)
    (job_id participant_id : Uuid) (command : DispatchSetupCreate) (db : Db) (s : DispatchSetup)
    (db' : Db) : Type 0 where
  again :
      setup_of job_id db ≡ some s
      → is_same_setup (hash command) participant_id command s ≡ true
      → db' ≡ db
      → SetupCreated hash a job_id participant_id command db s db'
  first :
      (job : MoveJob)
      → load_job job_id db ≡ ok job
      → setup_of job_id db ≡ none
      → SetupAdded hash a job participant_id command db s db'
      → SetupCreated hash a job_id participant_id command db s db'

pub create_dispatch_setup_inv :
    (hash : DispatchSetupCreate → String) (a : Ambient) (job_id participant_id : Uuid)
    (command : DispatchSetupCreate) (db db' : Db) (s : DispatchSetup)
    → create_dispatch_setup hash a job_id participant_id command db ≡ ok (s, db')
    → SetupCreated hash a job_id participant_id command db s db'
unfolding create_dispatch_setup
create_dispatch_setup_inv hash a job_id participant_id command db db' s h =
    elim (Result-cases (load_job job_id db)) [
      | inr (x, e) ↦ absurd (ground (arith, h, e))
      | inl (job, loaded) ↦ elim (Option-cases (setup_of job_id db)) [
        | inl unset ↦ first job loaded unset (
            add_setup_inv hash a job participant_id command db db' s
              (ground (arith, h, loaded, unset)))
        | inr (r, has) ↦ elim (Bool-cases (is_same_setup (hash command) participant_id command r)) [
          | inr other ↦ absurd (ground (arith, h, loaded, has, other))
          | inl same ↦
              let is_r : r ≡ s = ground (arith, h, loaded, has, same) in
              again (ground (arith, has, is_r)) (ground (arith, same, is_r))
                (ground (arith, h, loaded, has, same))
        ]
      ]
    ]
