-- ===== src/Dispatch/Confirmed.antt =====
-- dispatch/service.py: what the manager sees after the first confirmation of a dispatch.
use Prim.Native.String.{String}
use seqret_be.Prelude.{
  true, ◌&&◌, none, some, List, [], ◌∷◌, ◌==◌, filter, All, ◌≡◌, refl, ap, sym, subst, arith, inl,
  inr, Option-cases, ==_refl,
}
use seqret_be.Prelude.Clock.{Uuid}
use seqret_be.Prelude.Table.{find, IsKeyed, find_key}
use seqret_be.Prelude.Pointwise.{first_where, find-first_where, first_where_holds}
use seqret_be.Prelude.Transaction.{ok}
use seqret_be.Access.Model.{company_manager, JobParticipant, same_role}
use seqret_be.MoveJob.Listing.{MoveJob}
use seqret_be.Dispatch.Plans.{added, again, first, confirm_dispatch_inv}
use seqret_be.Dispatch.Changes.{required_setup}
use seqret_be.Dispatch.Lifecycle.{IsConsistent}
use seqret_be.Prelude.Table.{find-All}
use seqret_be.Dispatch.Model.{ScopeVersion, DispatchSetup, DispatchConfirmCreate, DispatchPlan, Db}
use seqret_be.Dispatch.Lookups.{
  job_key, setup_job, setup_of, plan_of, version_key, current_locked_scope, require_participant,
  load_job, job_header,
}
use seqret_be.Outbox.{Outbox}
use seqret_be.Dispatch.Checks.{vehicle_id}
use seqret_be.Dispatch.View.{
  is_current_scope, confirmed, DispatchView, full_view, get_dispatch_view,
}
use seqret_be.Dispatch.Commands.{Ambient}
use seqret_be.Dispatch.Confirm.{validate_selection, new_plan, confirm_dispatch}
use seqret_be.Dispatch.Selection.{IsPass, selection_passes}

-- A version that is current for the command is current for the view.
current_version :
    (job_id : Uuid) (setup : DispatchSetup) (db : Db) (v : ScopeVersion)
    → IsKeyed version_key db.versions
    → setup.job_id ≡ job_id
    → current_locked_scope job_id setup.source_scope_version_id db ≡ ok v
    → is_current_scope setup db ≡ ok (v, true)
current_version job_id setup db v keyed own h =
    elim (Option-cases (
      first_where (λ w. w.id == setup.source_scope_version_id && w.job_id == job_id) db.versions)) [
        | inl missing ↦ absurd (ground (arith, h, missing))
        | inr (w, found) ↦
            let holds = first_where_holds _ db.versions w found in
            let named : w.id ≡ setup.source_scope_version_id = ground (arith, holds) in
            let same : w ≡ v = ground (arith, h, found) in
            let found_key =
              subst (λ k. find version_key k db.versions ≡ some w) named
                (find-first_where version_key _ db.versions w keyed found) in
            ground (arith, h, found, holds, same, found_key, own)
      ]

viewer_in :
    (job_id participant_id : Uuid) (ps : List JobParticipant) (m : JobParticipant)
    → first_where
        (λ p. p.id == participant_id && p.job_id == job_id && same_role p.role company_manager)
        ps
      ≡ some m
    → first_where
        (λ p. p.id == participant_id && same_role p.role company_manager)
        (filter (λ p. p.job_id == job_id) ps)
      ≡ some m
viewer_in job_id participant_id [] m h = h
viewer_in job_id participant_id (p ∷ ps) m h =
    ground (arith, h, viewer_in job_id participant_id ps m)

abbrev shown_view :
    (job_code : Uuid → String) (hash : DispatchConfirmCreate → String)
    → Ambient
    → MoveJob
    → (participant_id : Uuid) → DispatchConfirmCreate
    → DispatchSetup
    → JobParticipant
    → ScopeVersion
    → Db
    → DispatchView
shown_view job_code hash a job participant_id command setup m v db =
    full_view (job_header job_code job m db) setup
      (some (new_plan hash a job.id participant_id command setup)) v true

-- The view of the manager who confirmed.
view_of_plan :
    (job_code : Uuid → String) (hash : DispatchConfirmCreate → String) (a : Ambient) (job : MoveJob)
    (participant_id : Uuid) (command : DispatchConfirmCreate) (setup : DispatchSetup)
    (m : JobParticipant) (v : ScopeVersion) (outbox : Outbox) (db : Db)
    → load_job job.id db ≡ ok job
    → require_participant job.id participant_id company_manager db ≡ ok m
    → setup_of job.id db ≡ some setup
    → is_current_scope setup db ≡ ok (v, true)
    → get_dispatch_view job_code job.id participant_id (record db {
      plans = new_plan hash a job.id participant_id command setup ∷ db.plans;
      outbox = outbox;
    })
      ≡ ok (shown_view job_code hash a job participant_id command setup m v db)
unfolding get_dispatch_view
view_of_plan job_code hash a job participant_id command setup m v outbox db loaded manages has
      current =
    let seen = viewer_in job.id participant_id db.participants m (ground (arith, manages)) in
    ground (arith, loaded, seen, has, current, ==_refl job.id)

-- In consistent tables where versions have distinct ids, after the first confirmation of a job that
-- has this setup has returned a plan, the manager who confirmed gets a view that is confirmed,
-- names that plan, and shows all four checks as passed.
pub confirmed_is_shown :
    (job_code : Uuid → String) (hash : DispatchConfirmCreate → String) (a : Ambient)
    (trace_id : String) (job_id participant_id : Uuid) (command : DispatchConfirmCreate)
    (setup : DispatchSetup) (db db' : Db) (p : DispatchPlan)
    → IsConsistent db
    → IsKeyed version_key db.versions
    → setup_of job_id db ≡ some setup
    → plan_of job_id db ≡ none
    → confirm_dispatch hash a trace_id job_id participant_id command db ≡ ok (p, db')
    → (view : DispatchView) × (get_dispatch_view job_code job_id participant_id db' ≡ ok view)
      × (view.status ≡ confirmed)
      × (view.dispatch_id ≡ some p.id)
      × All IsPass view.checks
confirmed_is_shown job_code hash a trace_id job_id participant_id command setup db db' p consistent
      kv has none_yet h =
    let ks = consistent.setups_keyed in
    let ko : IsKeyed vehicle_id setup.vehicle_options =
      find-All setup_job (λ r. IsKeyed vehicle_id r.vehicle_options) job_id db.setups setup
        consistent.vehicles_keyed has in
    elim (confirm_dispatch_inv hash a trace_id job_id participant_id command db db' p h) [
      | again found same last ↦ absurd (ground (arith, none_yet, found))
      | first job loaded unset
            (added start_at m worker s v e outbox is_open manages has_setup current works valid free
              is_new sent last) ↦
          let own : job.id ≡ job_id =
            find_key job_key job_id db.jobs job (ground (arith, loaded)) in
          let has_job : setup_of job.id db ≡ some setup = ground (arith, has, own) in
          let same : s ≡ setup =
            ground (arith, has_job, required_setup command.setup_id job.id db s ks has_setup) in
          let of_job : setup.job_id ≡ job.id = find_key setup_job job.id db.setups setup has_job in
          let shown =
            view_of_plan job_code hash a job participant_id command setup m v outbox db
              (ground (arith, loaded, own)) manages has_job
              (current_version job.id setup db v kv of_job (ground (arith, current, same))) in
          let after = λ (z : DispatchSetup). record db {
            plans = new_plan hash a job.id participant_id command z ∷ db.plans;
            outbox = outbox;
          } in
          let last_db = subst (λ z. db' ≡ after z) same last in
          let here =
            subst
              (λ d.
                get_dispatch_view job_code job.id participant_id d
                ≡ ok (shown_view job_code hash a job participant_id command setup m v db))
              (sym last_db) shown in
          (
            shown_view job_code hash a job participant_id command setup m v db,
            subst
                (λ k.
                  get_dispatch_view job_code k participant_id db'
                  ≡ ok (shown_view job_code hash a job participant_id command setup m v db))
                own here,
            refl,
            ap (λ z. some (z.id)) (sym is_new),
            selection_passes hash a job.id participant_id command setup worker.id ko
                (subst (λ z. validate_selection z command worker.id ≡ ok tt) same valid),
          )
    ]
