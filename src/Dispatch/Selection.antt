-- ===== src/Dispatch/Selection.antt =====
-- dispatch/service.py: a selection that `_validate_selection` accepts passes the four checks.
use Prim.Native.String.{String}
use seqret_be.Prelude.{
  suc, true, false, ◌&&◌, Option, none, some, List, [], ◌∷◌, ◌==◌, length, All, ◌≡◌, refl, ap, sym,
  ◌∙◌, subst, arith, inl, inr, Option-cases,
}
use seqret_be.Prelude.Clock.{Uuid}
use seqret_be.Prelude.Table.{IsKeyed}
use seqret_be.Prelude.Transaction.{ok}
use seqret_be.Dispatch.Model.{DispatchWorkerOption, DispatchSetup, DispatchConfirmCreate}
use seqret_be.Dispatch.Lookups.{entry, entry-IsKeyed, minus}
use seqret_be.Dispatch.Checks.{
  DispatchCheck, pass, passes_if, vehicle_id, worker_id, is_empty, fits, selected, all_available,
  skills_of, certifications_of, sorted_missing, coverage_check, dispatch_checks,
}
use seqret_be.Dispatch.Commands.{Ambient}
use seqret_be.Dispatch.Confirm.{
  worker_choices, any_unavailable, somes, validate_selection, new_plan,
}

-- What `_validate_selection` asks.
pub record IsSelectable (setup : DispatchSetup) (command : DispatchConfirmCreate) : Type 0 where
  pub fitting :
      fits setup.required_vehicle_capacity_m2
        (entry vehicle_id command.vehicle_id setup.vehicle_options)
      ≡ true
  pub enough_workers : (length command.worker_ids == setup.required_worker_count) ≡ true
  pub available : any_unavailable (worker_choices setup.worker_options command.worker_ids) ≡ false
  pub skilled :
      is_empty (
        minus setup.required_skills
          (skills_of (somes (worker_choices setup.worker_options command.worker_ids))))
      ≡ true
  pub certified :
      is_empty (
        minus setup.required_certifications
          (certifications_of (somes (worker_choices setup.worker_options command.worker_ids))))
      ≡ true

pub validate_selection_inv :
    (setup : DispatchSetup) (command : DispatchConfirmCreate) (field_worker_id : Uuid)
    → validate_selection setup command field_worker_id ≡ ok tt
    → IsSelectable setup command
unfolding validate_selection
validate_selection_inv setup command field_worker_id h = record {
  fitting = ground (arith, h);
  enough_workers = ground (arith, h);
  available = ground (arith, h);
  skilled = ground (arith, h);
  certified = ground (arith, h);
}

pub selected-somes :
    (workers : List DispatchWorkerOption) (ids : List Uuid)
    → selected workers ids ≡ somes (worker_choices workers ids)
selected-somes workers [] = refl
selected-somes workers (id ∷ ids) = elim (Option-cases (entry worker_id id workers)) [
  | inl unknown ↦ ground (arith, unknown, selected-somes workers ids)
  | inr (w, known) ↦ ground (arith, known, selected-somes workers ids)
]

somes_available :
    (choices : List (Option DispatchWorkerOption))
    → any_unavailable choices ≡ false
    → all_available (somes choices) ≡ true
somes_available [] h = refl
somes_available (none ∷ cs) h = absurd (ground (arith, h))
somes_available (some w ∷ cs) h = ground (arith, h, somes_available cs)

length-somes :
    (workers : List DispatchWorkerOption) (ids : List Uuid)
    → any_unavailable (worker_choices workers ids) ≡ false
    → length (somes (worker_choices workers ids)) ≡ length ids
length-somes workers [] h = refl
length-somes workers (id ∷ ids) h = elim (Option-cases (entry worker_id id workers)) [
  | inl unknown ↦ absurd (ground (arith, h, unknown))
  | inr (w, known) ↦
      let rest = length-somes workers ids (ground (arith, h, known)) in rw known (ap suc rest)
]

is_empty_nil : {A : Type 0} (xs : List A) → is_empty xs ≡ true → xs ≡ []
is_empty_nil [] h = refl
is_empty_nil (x ∷ xs) h = absurd (ground (arith, h))

nothing_missing :
    (required available : List String)
    → is_empty (minus required available) ≡ true
    → is_empty (sorted_missing required available) ≡ true
nothing_missing required available h = rw (is_empty_nil (minus required available) h) refl

abbrev pub IsPass : DispatchCheck → Type 0
IsPass c = c.status ≡ pass

-- The four checks of a plan that was selected as `_validate_selection` asks.
pub selection_passes :
    (hash : DispatchConfirmCreate → String) (a : Ambient) (job_id participant_id : Uuid)
    (command : DispatchConfirmCreate) (setup : DispatchSetup) (field_worker_id : Uuid)
    → IsKeyed vehicle_id setup.vehicle_options
    → validate_selection setup command field_worker_id ≡ ok tt
    → All IsPass (
        dispatch_checks setup setup.vehicle_options setup.worker_options
          (some (new_plan hash a job_id participant_id command setup)))
unfolding dispatch_checks coverage_check
selection_passes hash a job_id participant_id command setup field_worker_id keyed h =
    let s = validate_selection_inv setup command field_worker_id h in
    let same = selected-somes setup.worker_options command.worker_ids in
    let all =
      somes_available (worker_choices setup.worker_options command.worker_ids) s.available in
    let full = length-somes setup.worker_options command.worker_ids s.available in
    let first = entry-IsKeyed vehicle_id command.vehicle_id setup.vehicle_options keyed in
    let enough =
      subst (λ c. (length c == setup.required_worker_count && all_available c) ≡ true) (sym same)
        (ground (arith, s.enough_workers, all, full)) in
    let skilled =
      subst (λ c. is_empty (minus setup.required_skills (skills_of c)) ≡ true) (sym same)
        s.skilled in
    let certified =
      subst (λ c. is_empty (minus setup.required_certifications (certifications_of c)) ≡ true)
        (sym same) s.certified in
    (
      ap passes_if (ap (fits setup.required_vehicle_capacity_m2) (sym first) ∙ s.fitting),
      (
        ap passes_if enough,
        (
          ap passes_if (nothing_missing setup.required_skills _ skilled),
          (ap passes_if (nothing_missing setup.required_certifications _ certified), tt),
        ),
      ),
    )
