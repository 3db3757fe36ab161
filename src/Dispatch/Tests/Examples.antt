-- ===== src/Dispatch/Tests/Examples.antt =====
-- The theorems on a dispatch at the job of the tests.
use Prim.Native.String.{String}
use seqret_be.Prelude.{◌≡◌, refl, true, some, ◌∷◌, All, arith}
use seqret_be.Prelude.Clock.{Uuid}
use seqret_be.Prelude.Text.{same_text}
use seqret_be.Prelude.Transaction.{ok}
use seqret_be.Contracts.Events.{DomainEvent, dispatch_confirmed, is_accepted, field, uuid}
use seqret_be.Outbox.{new_row}
use seqret_be.Dispatch.Model.{DispatchSetup, DispatchPlan, DispatchWorkerOption, FieldCheckIn}
use seqret_be.Dispatch.Lookups.{setup_of, plan_of, check_in_of}
use seqret_be.Dispatch.Confirm.{new_plan, validate_selection}
use seqret_be.Dispatch.CheckIn.{check_in_response}
use seqret_be.Dispatch.Lookups.{same_set}
use seqret_be.Dispatch.View.{DispatchView, get_dispatch_view, confirmed}
use seqret_be.Dispatch.Lifecycle.{IsConsistent}
use seqret_be.Dispatch.Invariants.{here, Reach-IsConsistent}
use seqret_be.Dispatch.Once.{first_confirmation_decides}
use seqret_be.Dispatch.Arrived.{check_in_counts_once, Assignment, check_in_is_assigned}
use seqret_be.Dispatch.Refinement.{Run, phase, Reach-Run}
use seqret_be.Dispatch.Announced.{confirmation_announces}
use seqret_be.Dispatch.Selection.{IsPass}
use seqret_be.Dispatch.Confirmed.{confirmed_is_shown}
use seqret_be.Prelude.{length, ◌↔◌}
use seqret_be.Dispatch.Checks.{dispatch_checks}
use seqret_be.Dispatch.Confirm.{worker_choices}
use seqret_be.Dispatch.Accepted.{all_known, mapped, accepted_iff_checked}
use seqret_be.Dispatch.Tests.{
  prepared-IsConsistent, manager_id, job, confirm_command, check_in_command, hash, plan_hash, trace,
  ambient, start, setup, prepared, plan, assigned, is_confirmed, arrival, checked, is_checked,
  is_answered, is_confirmed_again, start-IsConsistent, reach_assigned, reach_checked,
  assigned-IsConsistent, checked-IsConsistent,
}

Reach-IsConsistent_example : IsConsistent assigned
Reach-IsConsistent_example =
    Reach-IsConsistent hash plan_hash start assigned reach_assigned start-IsConsistent

Reach-Run_example : Run (phase 10 21 start) (phase 10 21 assigned)
Reach-Run_example = Reach-Run hash plan_hash 10 21 start assigned start-IsConsistent reach_assigned

first_confirmation_decides_example :
    (plan ≡ plan)
    × (checked ≡ checked)
    × (manager_id ≡ manager_id)
    × (same_text plan.command_hash (plan_hash confirm_command) ≡ true)
first_confirmation_decides_example =
    first_confirmation_decides hash plan_hash (ambient 3 41) (ambient 12 44) trace trace 10 20 20
      confirm_command confirm_command prepared assigned checked checked plan plan
      assigned-IsConsistent is_confirmed reach_checked is_confirmed_again

check_in_counts_once_example :
    (check_in_response arrival ≡ check_in_response arrival) × (checked ≡ checked)
check_in_counts_once_example =
    check_in_counts_once hash plan_hash (ambient 9 42) (ambient 11 43) 10 21 check_in_command
      check_in_command assigned checked checked checked (check_in_response arrival)
      (check_in_response arrival) checked-IsConsistent is_checked here is_answered

abbrev job_code : Uuid → String
job_code _ = "MOVE-0000000A"

confirmed_is_shown_example :
    (view : DispatchView) × (get_dispatch_view job_code 10 20 assigned ≡ ok view)
    × (view.status ≡ confirmed)
    × (view.dispatch_id ≡ some plan.id)
    × All IsPass view.checks
confirmed_is_shown_example =
    confirmed_is_shown job_code plan_hash (ambient 3 41) trace 10 20 confirm_command setup prepared
      assigned plan prepared-IsConsistent (tt, tt) refl refl is_confirmed

confirmation_announces_example :
    (e : DomainEvent) × (assigned.outbox.events ≡ new_row e ∷ prepared.outbox.events)
    × (assigned.plans ≡ plan ∷ prepared.plans)
    × (is_accepted e ≡ true)
    × (e.event_type ≡ dispatch_confirmed)
    × (e.aggregate_id ≡ job.id)
    × (e.actor_id ≡ some manager_id)
    × (field "dispatch_id" e.payload ≡ uuid plan.id)
    × (field "scope_version_id" e.payload ≡ uuid plan.source_scope_version_id)
confirmation_announces_example =
    confirmation_announces plan_hash (ambient 3 41) trace 10 20 confirm_command prepared assigned
      plan refl is_confirmed

check_in_is_assigned_example :
    (s : DispatchSetup) × (p : DispatchPlan) × (w : DispatchWorkerOption) × (c : FieldCheckIn)
    × (setup_of 10 assigned ≡ some s)
    × (plan_of 10 assigned ≡ some p)
    × (check_in_of 10 21 checked ≡ some c)
    × (check_in_response arrival ≡ check_in_response c)
    × Assignment 21 s p w c
    × (same_set check_in_command.confirmed_check_keys arrival.confirmed_check_keys ≡ true)
check_in_is_assigned_example =
    check_in_is_assigned (ambient 9 42) 10 21 check_in_command assigned checked
      (check_in_response arrival) assigned-IsConsistent.plans_keyed refl is_checked

accepted_iff_checked_example : (validate_selection setup confirm_command 21 ≡ ok tt) ↔ (
    All IsPass (
      dispatch_checks setup setup.vehicle_options setup.worker_options
        (some (new_plan plan_hash (ambient 3 41) 10 20 confirm_command setup)))
    × (all_known (worker_choices setup.worker_options confirm_command.worker_ids) ≡ true)
    × (length (mapped setup confirm_command 21) ≡ 1))
accepted_iff_checked_example =
    accepted_iff_checked plan_hash (ambient 3 41) 10 20 confirm_command setup 21
      ((λ e. absurd (omega (arith, e)), tt), (tt, tt))
