-- ===== src/Dispatch/Once.antt =====
-- dispatch/service.py: a setup, a plan and a check-in are written once, and a repeated request is
-- answered with what was written.
use Prim.Native.String.{String}
use seqret_be.Prelude.{ℕ, true, some, List, ◌∷◌, ◌≡◌, sym, ap, ◌∙◌, subst, arith, ==_refl}
use seqret_be.Prelude.Clock.{Uuid}
use seqret_be.Prelude.Text.{same_text}
use seqret_be.Prelude.Transaction.{ok}
use seqret_be.MoveJob.Listing.{MoveJob}
use seqret_be.Dispatch.Model.{
  DispatchSetupCreate, DispatchSetup, DispatchConfirmCreate, DispatchPlan, Db,
}
use seqret_be.Dispatch.Lookups.{setup_job, plan_job, load_job, setup_of, plan_of}
use seqret_be.Dispatch.Commands.{Ambient, create_dispatch_setup, is_same_setup, new_setup}
use seqret_be.Dispatch.Confirm.{confirm_dispatch, new_plan}
use text.Mathlib.TextPositions.{eq_refl}
use seqret_be.Prelude.Table.{find}
use seqret_be.Dispatch.Effects as Effects
use seqret_be.Dispatch.Plans as Plans
use seqret_be.Dispatch.Plans.{is_same_plan}
use seqret_be.Dispatch.Changes.{loaded_id}
use seqret_be.Dispatch.Lifecycle.{IsConsistent}
use seqret_be.Dispatch.Invariants.{Reach, Reach-Keeps}

find_first :
    {Row : Type 0} (key : Row → ℕ) (k : ℕ) (r : Row) (t : List Row)
    → key r ≡ k
    → find key k (r ∷ t) ≡ some r
find_first key k r t h = let same = ==_refl k in ground (arith, h, same)

-- A plan that a confirmation returned is the plan of its job.
confirmed_plan :
    (hash : DispatchConfirmCreate → String) (a : Ambient) (trace_id : String)
    (job_id participant_id : Uuid) (command : DispatchConfirmCreate) (db db' : Db)
    (p : DispatchPlan)
    → confirm_dispatch hash a trace_id job_id participant_id command db ≡ ok (p, db')
    → (plan_of job_id db' ≡ some p) × (is_same_plan (hash command) participant_id p ≡ true)
confirmed_plan hash a trace_id job_id participant_id command db db' p h =
    elim (Plans.confirm_dispatch_inv hash a trace_id job_id participant_id command db db' p h) [
      | Plans.again found same last ↦
          (subst (λ d. plan_of job_id d ≡ some p) (sym last) found, same)
      | Plans.first job loaded unset
            (Plans.added start_at m w s v e outbox is_open manages has current works valid free
              is_new sent last) ↦
          let own = loaded_id job_id db job loaded in
          let plan = new_plan hash a job.id participant_id command s in
          let text = eq_refl (hash command) in
          let id = ==_refl participant_id in
          (
            ap (λ d. plan_of job_id d) last
                ∙ find_first plan_job job_id plan db.plans own
                ∙ ap (λ q. some q) (sym is_new),
            subst (λ q. is_same_plan (hash command) participant_id q ≡ true) (sym is_new)
                (ground (arith, text, id)),
          )
    ]

-- A setup that a creation returned is the setup of its job.
created_setup :
    (hash : DispatchSetupCreate → String) (a : Ambient) (job_id participant_id : Uuid)
    (command : DispatchSetupCreate) (db db' : Db) (s : DispatchSetup)
    → create_dispatch_setup hash a job_id participant_id command db ≡ ok (s, db')
    → (setup_of job_id db' ≡ some s)
      × (is_same_setup (hash command) participant_id command s ≡ true)
created_setup hash a job_id participant_id command db db' s h =
    elim (Effects.create_dispatch_setup_inv hash a job_id participant_id command db db' s h) [
      | Effects.again found same last ↦
          (subst (λ d. setup_of job_id d ≡ some s) (sym last) found, same)
      | Effects.first job loaded unset
            (Effects.added start_at m w v is_open manages current works single free is_new last) ↦
          let own = loaded_id job_id db job loaded in
          let setup = new_setup hash a job.id participant_id command start_at in
          let text = eq_refl (hash command) in
          let id = ==_refl participant_id in
          let reference = ==_refl command.client_reference in
          (
            ap (λ d. setup_of job_id d) last
                ∙ find_first setup_job job_id setup db.setups own
                ∙ ap (λ q. some q) (sym is_new),
            subst (λ q. is_same_setup (hash command) participant_id command q ≡ true) (sym is_new)
                (ground (arith, text, id, reference)),
          )
    ]

module _ (hash : DispatchSetupCreate → String) (plan_hash : DispatchConfirmCreate → String) where
  -- The setup of a job, asked for again.
  pub create_dispatch_setup_again :
      (a a' : Ambient) (job_id participant_id : Uuid) (command : DispatchSetupCreate)
      (db db' last : Db) (s : DispatchSetup) (job : MoveJob)
      → IsConsistent db'
      → create_dispatch_setup hash a job_id participant_id command db ≡ ok (s, db')
      → Reach hash plan_hash db' last
      → load_job job_id last ≡ ok job
      → create_dispatch_setup hash a' job_id participant_id command last ≡ ok (s, last)
  unfolding create_dispatch_setup
  create_dispatch_setup_again a a' job_id participant_id command db db' last s job c h r loaded =
      let (found, same) = created_setup hash a job_id participant_id command db db' s h in
      let found_last = (Reach-Keeps hash plan_hash db' last c r).setup job_id s found in
      ground (arith, loaded, found_last, same)

  -- After a confirmation has returned a plan and left consistent tables, and after any sequence of
  -- commands in which no creation draws an id twice, a confirmation of the job that returns gives
  -- the same plan and changes nothing, and was asked for by the same participant with a command of
  -- the same digest.
  pub first_confirmation_decides :
      (a a' : Ambient) (trace_id trace_id' : String) (job_id participant_id other_id : Uuid)
      (command other : DispatchConfirmCreate) (db db' last end_ : Db) (p q : DispatchPlan)
      → IsConsistent db'
      → confirm_dispatch plan_hash a trace_id job_id participant_id command db ≡ ok (p, db')
      → Reach hash plan_hash db' last
      → confirm_dispatch plan_hash a' trace_id' job_id other_id other last ≡ ok (q, end_)
      → (q ≡ p)
        × (end_ ≡ last)
        × (other_id ≡ participant_id)
        × (same_text p.command_hash (plan_hash other) ≡ true)
  first_confirmation_decides a a' trace_id trace_id' job_id participant_id other_id command other db
        db' last end_ p q c h r h' =
      let (found, same) =
        confirmed_plan plan_hash a trace_id job_id participant_id command db db' p h in
      let found_last = (Reach-Keeps hash plan_hash db' last c r).plan job_id p found in
      elim (Plans.confirm_dispatch_inv plan_hash a' trace_id' job_id other_id other last end_ q
        h') [
          | Plans.first job loaded unset new_plan_ ↦ absurd (ground (arith, unset, found_last))
          | Plans.again found' same' end_last ↦
              let is_p : p ≡ q = ground (arith, found', found_last) in
              let same_p =
                subst (λ z. is_same_plan (plan_hash other) other_id z ≡ true) (sym is_p) same' in
              (sym is_p, end_last, ground (arith, same, same_p), ground (arith, same_p))
        ]

  pub confirm_dispatch_again :
      (a a' : Ambient) (trace_id trace_id' : String) (job_id participant_id : Uuid)
      (command : DispatchConfirmCreate) (db db' last : Db) (p : DispatchPlan) (job : MoveJob)
      → IsConsistent db'
      → confirm_dispatch plan_hash a trace_id job_id participant_id command db ≡ ok (p, db')
      → Reach hash plan_hash db' last
      → load_job job_id last ≡ ok job
      → confirm_dispatch plan_hash a' trace_id' job_id participant_id command last ≡ ok (p, last)
  unfolding confirm_dispatch
  confirm_dispatch_again a a' trace_id trace_id' job_id participant_id command db db' last p job c h
        r loaded =
      let (found, same) =
        confirmed_plan plan_hash a trace_id job_id participant_id command db db' p h in
      let found_last = (Reach-Keeps hash plan_hash db' last c r).plan job_id p found in
      ground (arith, loaded, found_last, same)
