-- ===== src/Dispatch/Arrived.antt =====
-- dispatch/service.py: who may check in and when, and that it counts once.
use Prim.Native.String.{String}
use seqret_be.Prelude.{
  true, ◌&&◌, none, some, ◌≡◌, refl, sym, ap, ◌∙◌, subst, arith, inl, inr, map, Option-cases,
  ==_refl, is_some_eq,
}
use seqret_be.Prelude.Clock.{Uuid}
use seqret_be.Prelude.Table.{IsKeyed}
use seqret_be.Prelude.Pointwise.{IsIn, first_where, first_where_holds, first_where-IsIn}
use seqret_be.Prelude.Transaction.{ok}
use seqret_be.Dispatch.Model.{
  DispatchSetupCreate, DispatchWorkerOption, DispatchSetup, DispatchConfirmCreate, DispatchPlan,
  FieldCheckInCreate, FieldCheckIn, FieldCheckInResponse, Db,
}
use seqret_be.Dispatch.Lookups.{same_set, plan_job, setup_of, plan_of, check_in_of}
use seqret_be.Dispatch.Commands.{Ambient}
use seqret_be.Dispatch.CheckIn.{
  service_date, is_selected, assigned_worker, check_in_response, item_key, check_in_field_worker,
  new_check_in,
}
use seqret_be.Dispatch.Arrivals.{arrival, again, first, check_in_inv}
use seqret_be.Dispatch.Changes.{required_dispatch}
use seqret_be.Dispatch.Lifecycle.{IsConsistent}
use seqret_be.Dispatch.Invariants.{Reach, Reach-Keeps}

-- The check-in that a call returned is stored.
stored_check_in :
    (a : Ambient) (job_id participant_id : Uuid) (command : FieldCheckInCreate) (db db' : Db)
    (x : FieldCheckInResponse)
    → check_in_field_worker a job_id participant_id command db ≡ ok (x, db')
    → (c : FieldCheckIn) × (check_in_of job_id participant_id db' ≡ some c)
      × (x ≡ check_in_response c)
stored_check_in a job_id participant_id command db db' x h =
    elim (check_in_inv a job_id participant_id command db db' x h) [
      | again s p w c arrived found plan same shown last ↦
          (c, subst (λ d. check_in_of job_id participant_id d ≡ some c) (sym last) found, shown)
      | first s p w arrived absent day free shown last ↦
          let c = new_check_in a.id a.now job_id participant_id s p w in
          let own = ==_refl job_id in
          let worker = ==_refl participant_id in
          (
            c,
            ap (λ d. check_in_of job_id participant_id d) last ∙ ground (arith, own, worker),
            shown,
          )
    ]

module _ (hash : DispatchSetupCreate → String) (plan_hash : DispatchConfirmCreate → String) where
  -- After a check-in has returned and left consistent tables, and after any sequence of commands in
  -- which no creation draws an id twice, a check-in of the same participant for the same job that
  -- returns gives the same response and changes nothing.
  pub check_in_counts_once :
      (a a' : Ambient) (job_id participant_id : Uuid) (command other : FieldCheckInCreate)
      (db db' last end_ : Db) (x y : FieldCheckInResponse)
      → IsConsistent db'
      → check_in_field_worker a job_id participant_id command db ≡ ok (x, db')
      → Reach hash plan_hash db' last
      → check_in_field_worker a' job_id participant_id other last ≡ ok (y, end_)
      → (y ≡ x) × (end_ ≡ last)
  check_in_counts_once a a' job_id participant_id command other db db' last end_ x y c h r h' =
      let (k, stored, shown) = stored_check_in a job_id participant_id command db db' x h in
      let kept =
        (Reach-Keeps hash plan_hash db' last c r).check_in job_id participant_id k stored in
      elim (check_in_inv a' job_id participant_id other last end_ y h') [
        | first s p w arrived absent day free shown' last' ↦ absurd (ground (arith, absent, kept))
        | again s p w k' arrived found plan same shown' last' ↦
            let is_k : k' ≡ k = ground (arith, found, kept) in
            (shown' ∙ ap check_in_response is_k ∙ sym shown, last')
      ]

-- The worker option of the plan that stands for the participant.
assigned_is_selected :
    (s : DispatchSetup) (p : DispatchPlan) (participant_id : Uuid) (w : DispatchWorkerOption)
    → assigned_worker s p participant_id ≡ ok w
    → IsIn w s.worker_options
      × (is_selected w.id p.selected_worker_option_ids ≡ true)
      × (w.participant_id ≡ some participant_id)
assigned_is_selected s p participant_id w h =
    let stands = λ (v : DispatchWorkerOption).
      is_selected v.id p.selected_worker_option_ids && is_some_eq v.participant_id participant_id in
    elim (Option-cases (first_where stands s.worker_options)) [
      | inl missing ↦ absurd (ground (arith, h, missing))
      | inr (v, found) ↦
          let holds = first_where_holds _ s.worker_options v found in
          let is_w : v ≡ w = ground (arith, h, found) in
          subst
            (λ z.
              IsIn z s.worker_options
              × (is_selected z.id p.selected_worker_option_ids ≡ true)
              × (z.participant_id ≡ some participant_id))
            is_w
            (
              first_where-IsIn _ s.worker_options v found,
              ground (arith, holds),
              ground (arith, holds),
            )
    ]

-- The stored check-in `c` is of that participant and names the option `w` of the setup `s`, which
-- the plan `p` selects.
pub record Assignment (participant_id : Uuid) (s : DispatchSetup) (p : DispatchPlan)
    (w : DispatchWorkerOption) (c : FieldCheckIn) : Type 0 where
  pub option : IsIn w s.worker_options
  pub selected : is_selected w.id p.selected_worker_option_ids ≡ true
  pub stands_for : w.participant_id ≡ some participant_id
  pub plan : c.dispatch_plan_id ≡ p.id
  pub worker : c.worker_option_id ≡ w.id
  pub participant : c.participant_id ≡ participant_id
  pub day : service_date c.checked_in_at ≡ service_date s.start_at
  pub keys : c.confirmed_check_keys ≡ map item_key s.check_in_items

-- Where plans have distinct jobs, a first check-in that returns is stored and shown: it is for the
-- plan of the job, it names an option of the setup of the job that the plan selects and that stands
-- for the participant, it is on the date of the setup in the service time zone, and it holds the
-- check keys of the setup, which are those that the request confirmed.
pub check_in_is_assigned :
    (a : Ambient) (job_id participant_id : Uuid) (command : FieldCheckInCreate) (db db' : Db)
    (x : FieldCheckInResponse)
    → IsKeyed plan_job db.plans
    → check_in_of job_id participant_id db ≡ none
    → check_in_field_worker a job_id participant_id command db ≡ ok (x, db')
    → (s : DispatchSetup) × (p : DispatchPlan) × (w : DispatchWorkerOption) × (c : FieldCheckIn)
      × (setup_of job_id db ≡ some s)
      × (plan_of job_id db ≡ some p)
      × (check_in_of job_id participant_id db' ≡ some c)
      × (x ≡ check_in_response c)
      × Assignment participant_id s p w c
      × (same_set command.confirmed_check_keys x.confirmed_check_keys ≡ true)
check_in_is_assigned a job_id participant_id command db db' x keyed absent h =
    elim (check_in_inv a job_id participant_id command db db' x h) [
      | again s p w c arrived found plan same shown last ↦ absurd (ground (arith, absent, found))
      | first s p w (arrival job start_at q v loaded is_open works has assigned current keys) _ day
            free shown last ↦
          let (of_job, plan) = required_dispatch command.dispatch_id job_id db s p keyed has in
          let (among, selected, own) = assigned_is_selected s p participant_id w assigned in
          let same_job = ==_refl job_id in
          let same_worker = ==_refl participant_id in
          (
            s,
            p,
            w,
            new_check_in a.id a.now job_id participant_id s p w,
            of_job,
            plan,
            ap (λ d. check_in_of job_id participant_id d) last
                ∙ ground (arith, same_job, same_worker),
            shown,
            record {
              option = among;
              selected = selected;
              stands_for = own;
              plan = refl;
              worker = refl;
              participant = refl;
              day = day;
              keys = refl;
            },
            subst (λ r. same_set command.confirmed_check_keys r.confirmed_check_keys ≡ true)
                (sym shown) keys,
          )
    ]
