-- ===== src/Dispatch/Arrivals.antt =====
-- dispatch/service.py: what a check-in that returned has found, and what it leaves.
use seqret_be.Prelude.{
  true, ◌&&◌, none, some, ◌∷◌, ◌==◌, map, ◌≡◌, arith, inl, inr, Bool-cases, Option-cases, eq_of_==,
}
use seqret_be.Prelude.Clock.{Uuid, Instant}
use seqret_be.Prelude.Transaction.{ok, Result-cases}
use seqret_be.Access.Model.{JobParticipant, field_worker}
use seqret_be.MoveJob.Listing.{MoveJob}
use seqret_be.Dispatch.Model.{
  ScopeVersion, DispatchWorkerOption, DispatchSetup, DispatchPlan, FieldCheckInCreate, FieldCheckIn,
  FieldCheckInResponse, Db,
}
use seqret_be.Dispatch.Lookups.{
  same_set, load_job, require_participant, require_open_scheduled_job, current_locked_scope,
  check_in_of,
}
use seqret_be.Dispatch.Commands.{Ambient}
use seqret_be.Dispatch.CheckIn.{
  service_date, assigned_worker, check_in_response, item_key, require_dispatch, new_check_in,
  may_add_check_in, add_check_in, check_in_field_worker,
}

-- What every check-in finds, the first and those that repeat it.
pub data Arrival (job_id participant_id : Uuid) (command : FieldCheckInCreate) (db : Db)
    (setup : DispatchSetup) (plan : DispatchPlan) (w : DispatchWorkerOption) : Type 0 where
  arrival :
      (job : MoveJob) (start_at : Instant) (p : JobParticipant) (v : ScopeVersion)
      → load_job job_id db ≡ ok job
      → require_open_scheduled_job job ≡ ok start_at
      → require_participant job_id participant_id field_worker db ≡ ok p
      → require_dispatch command.dispatch_id job_id db ≡ ok (setup, plan)
      → assigned_worker setup plan participant_id ≡ ok w
      → current_locked_scope job_id setup.source_scope_version_id db ≡ ok v
      → same_set command.confirmed_check_keys (map item_key setup.check_in_items) ≡ true
      → Arrival job_id participant_id command db setup plan w

-- A check-in that is answered again, or a new one.
pub data CheckedIn (a : Ambient) (job_id participant_id : Uuid) (command : FieldCheckInCreate)
    (db : Db) (x : FieldCheckInResponse) (db' : Db) : Type 0 where
  again :
      (setup : DispatchSetup) (plan : DispatchPlan) (w : DispatchWorkerOption) (c : FieldCheckIn)
      → Arrival job_id participant_id command db setup plan w
      → check_in_of job_id participant_id db ≡ some c
      → c.dispatch_plan_id ≡ plan.id
      → same_set c.confirmed_check_keys command.confirmed_check_keys ≡ true
      → x ≡ check_in_response c
      → db' ≡ db
      → CheckedIn a job_id participant_id command db x db'
  first :
      (setup : DispatchSetup) (plan : DispatchPlan) (w : DispatchWorkerOption)
      → Arrival job_id participant_id command db setup plan w
      → check_in_of job_id participant_id db ≡ none
      → service_date a.now ≡ service_date setup.start_at
      → may_add_check_in (new_check_in a.id a.now job_id participant_id setup plan w) db ≡ true
      → x ≡ check_in_response (new_check_in a.id a.now job_id participant_id setup plan w)
      → db' ≡ record db {
        check_ins = new_check_in a.id a.now job_id participant_id setup plan w ∷ db.check_ins;
      }
      → CheckedIn a job_id participant_id command db x db'

-- A new check-in is written on the scheduled day.
add_check_in_inv :
    (now : Instant) (c : FieldCheckIn) (setup : DispatchSetup) (db db' : Db)
    (x : FieldCheckInResponse)
    → add_check_in now c setup db ≡ ok (x, db')
    → (service_date now ≡ service_date setup.start_at)
      × (may_add_check_in c db ≡ true)
      × (x ≡ check_in_response c)
      × (db' ≡ record db { check_ins = c ∷ db.check_ins })
unfolding add_check_in
add_check_in_inv now c setup db db' x h =
    elim (Bool-cases (service_date now == service_date setup.start_at)) [
      | inr other_day ↦ absurd (ground (arith, h, other_day))
      | inl day ↦ elim (Bool-cases (may_add_check_in c db)) [
        | inr clash ↦ absurd (ground (arith, h, day, clash))
        | inl free ↦
            (eq_of_== _ _ day, free, ground (arith, h, day, free), ground (arith, h, day, free))
      ]
    ]

-- The last part of a check-in, after its tests.
check_in_last :
    (a : Ambient) (job_id participant_id : Uuid) (command : FieldCheckInCreate) (db db' : Db)
    (x : FieldCheckInResponse) (setup : DispatchSetup) (plan : DispatchPlan)
    (w : DispatchWorkerOption)
    → Arrival job_id participant_id command db setup plan w
    → check_in_field_worker a job_id participant_id command db ≡ ok (x, db')
    → CheckedIn a job_id participant_id command db x db'
unfolding check_in_field_worker
check_in_last a job_id participant_id command db db' x setup plan w
      (arrival job start_at p v loaded is_open works has assigned current keys) h =
    let arrived : Arrival job_id participant_id command db setup plan w =
      arrival job start_at p v loaded is_open works has assigned current keys in
    elim (Option-cases (check_in_of job_id participant_id db)) [
      | inl absent ↦
          let added : add_check_in a.now
                (new_check_in a.id a.now job_id participant_id setup plan w) setup db
              ≡ ok (x, db') =
            ground (arith, h, loaded, is_open, works, has, assigned, current, keys, absent) in
          let (day, free, shown, last) = add_check_in_inv a.now _ setup db db' x added in
          first setup plan w arrived absent day free shown last
      | inr (c, found) ↦
          elim (Bool-cases (
            c.dispatch_plan_id == plan.id
            && same_set c.confirmed_check_keys command.confirmed_check_keys)) [
              | inr other ↦ absurd (
                  ground
                    (arith, h, loaded, is_open, works, has, assigned, current, keys, found, other))
              | inl same ↦
                  again setup plan w c arrived found (ground (arith, same)) (ground (arith, same))
                    (ground
                      (arith, h, loaded, is_open, works, has, assigned, current, keys, found, same))
                    (ground
                      (arith, h, loaded, is_open, works, has, assigned, current, keys, found, same))
            ]
    ]

pub check_in_inv :
    (a : Ambient) (job_id participant_id : Uuid) (command : FieldCheckInCreate) (db db' : Db)
    (x : FieldCheckInResponse)
    → check_in_field_worker a job_id participant_id command db ≡ ok (x, db')
    → CheckedIn a job_id participant_id command db x db'
unfolding check_in_field_worker
check_in_inv a job_id participant_id command db db' x h = elim (Result-cases (load_job job_id db)) [
  | inr (_, e) ↦ absurd (ground (arith, h, e))
  | inl (job, loaded) ↦ elim (Result-cases (require_open_scheduled_job job)) [
    | inr (_, e) ↦ absurd (ground (arith, h, loaded, e))
    | inl (start_at, is_open) ↦
        elim (Result-cases (require_participant job_id participant_id field_worker db)) [
          | inr (_, e) ↦ absurd (ground (arith, h, loaded, is_open, e))
          | inl (p, works) ↦ elim (Result-cases (require_dispatch command.dispatch_id job_id db)) [
            | inr (_, e) ↦ absurd (ground (arith, h, loaded, is_open, works, e))
            | inl ((setup, plan), has) ↦
                elim (Result-cases (assigned_worker setup plan participant_id)) [
                  | inr (_, e) ↦ absurd (ground (arith, h, loaded, is_open, works, has, e))
                  | inl (w, assigned) ↦
                      elim (Result-cases
                        (current_locked_scope job_id setup.source_scope_version_id db)) [
                          | inr (_, e) ↦
                              absurd (ground (arith, h, loaded, is_open, works, has, assigned, e))
                          | inl (v, current) ↦
                              check_in_last a job_id participant_id command db db' x setup plan w
                                (arrival job start_at p v loaded is_open works has assigned current
                                  (ground
                                    (arith, h, loaded, is_open, works, has, assigned, current)))
                                h
                        ]
                ]
          ]
        ]
  ]
]
