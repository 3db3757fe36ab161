-- ===== src/Dispatch/Accepted.antt =====
-- dispatch/service.py: `_validate_selection` and `_dispatch_checks` agree.
use Prim.Native.String.{String}
use seqret_be.Prelude.{
  suc, Bool, true, false, ◌&&◌, Option, none, some, List, [], ◌∷◌, ◌==◌, is_some_eq, length, filter,
  All, ◌≡◌, ◌↔◌, refl, ap, ◌∙◌, subst, arith, inl, inr, Bool-cases, Option-cases, eq_of_==,
}
use seqret_be.Prelude.Clock.{Uuid}
use seqret_be.Prelude.Table.{IsKeyed, sort, insert}
use seqret_be.Prelude.Transaction.{ok}
use seqret_be.Contracts.Events.{has_name}
use seqret_be.Dispatch.Model.{DispatchWorkerOption, DispatchSetup, DispatchConfirmCreate}
use seqret_be.Dispatch.Lookups.{entry, entry-IsKeyed, minus}
use seqret_be.Dispatch.Checks.{
  pass, passes_if, vehicle_id, worker_id, is_empty, fits, all_available, skills_of,
  certifications_of, distinct, sorted_missing, coverage_check, dispatch_checks,
}
use seqret_be.Dispatch.Commands.{Ambient}
use seqret_be.Dispatch.Confirm.{
  worker_choices, any_unavailable, somes, validate_selection, new_plan,
}
use seqret_be.Dispatch.Selection.{
  IsPass, selected-somes, selection_passes, IsSelectable, validate_selection_inv,
}

-- Every id names an option.
abbrev pub all_known : List (Option DispatchWorkerOption) → Bool
all_known [] = true
all_known (none ∷ cs) = false
all_known (some w ∷ cs) = all_known cs

-- The selected options that stand for the field worker of the job.
abbrev pub mapped : DispatchSetup → DispatchConfirmCreate → Uuid → List DispatchWorkerOption
mapped setup command field_worker_id =
    filter (λ w. is_some_eq w.participant_id field_worker_id)
      (somes (worker_choices setup.worker_options command.worker_ids))

available_known :
    (cs : List (Option DispatchWorkerOption)) → any_unavailable cs ≡ false → all_known cs ≡ true
available_known [] h = refl
available_known (none ∷ cs) h = absurd (ground (arith, h))
available_known (some w ∷ cs) h = available_known cs (ground (arith, h))

known_available :
    (cs : List (Option DispatchWorkerOption))
    → all_known cs ≡ true
    → all_available (somes cs) ≡ true
    → any_unavailable cs ≡ false
known_available [] k a = refl
known_available (none ∷ cs) k a = absurd (ground (arith, k))
known_available (some w ∷ cs) k a = ground (arith, a, known_available cs k (ground (arith, a)))

length-known :
    (workers : List DispatchWorkerOption) (ids : List Uuid)
    → all_known (worker_choices workers ids) ≡ true
    → length (somes (worker_choices workers ids)) ≡ length ids
length-known workers [] h = refl
length-known workers (id ∷ ids) h = elim (Option-cases (entry worker_id id workers)) [
  | inl unknown ↦ absurd (ground (arith, h, unknown))
  | inr (w, known) ↦
      let rest = length-known workers ids (ground (arith, h, known)) in rw known (ap suc rest)
]

passed : (b : Bool) → passes_if b ≡ pass → b ≡ true
passed true h = refl
passed false h = absurd (ground (arith, h))

distinct_nil : (xs : List String) → is_empty (distinct xs) ≡ true → is_empty xs ≡ true
distinct_nil [] h = refl
distinct_nil (x ∷ []) h = h
distinct_nil (x ∷ y ∷ xs) h = elim (Bool-cases (has_name x (y ∷ xs))) [
  | inl twice ↦ absurd (ground (arith, distinct_nil (y ∷ xs) (ground (arith, h, twice))))
  | inr once ↦ absurd (ground (arith, h, once))
]

sort_nil :
    (before : String → String → Bool) (xs : List String)
    → is_empty (sort (λ _. 0) before xs) ≡ true
    → is_empty xs ≡ true
sort_nil before [] h = refl
sort_nil before (x ∷ xs) h = some_inserted (sort (λ _. 0) before xs) h
  where
    some_inserted :
        (ys : List String) → is_empty (insert (λ _. 0) before x ys) ≡ true → false ≡ true
    some_inserted [] e = e
    some_inserted (y ∷ ys) e = elim (Bool-cases (before y x)) [
      | inl lower ↦ absurd (ground (arith, e, lower))
      | inr upper ↦ absurd (ground (arith, e, upper))
    ]

-- A coverage check that passes misses nothing.
all_covered :
    (required available : List String)
    → is_empty (sorted_missing required available) ≡ true
    → is_empty (minus required available) ≡ true
all_covered required available h =
    distinct_nil (minus required available) (sort_nil _ (distinct (minus required available)) h)

-- What `_validate_selection` asks, from what the checks show.
selectable :
    (hash : DispatchConfirmCreate → String) (a : Ambient) (job_id participant_id : Uuid)
    (command : DispatchConfirmCreate) (setup : DispatchSetup)
    → IsKeyed vehicle_id setup.vehicle_options
    → all_known (worker_choices setup.worker_options command.worker_ids) ≡ true
    → All IsPass (
        dispatch_checks setup setup.vehicle_options setup.worker_options
          (some (new_plan hash a job_id participant_id command setup)))
    → IsSelectable setup command
unfolding dispatch_checks coverage_check
selectable hash a job_id participant_id command setup keyed known
      (fit, (count, (skill, (cert, _)))) =
    let same = selected-somes setup.worker_options command.worker_ids in
    let first = entry-IsKeyed vehicle_id command.vehicle_id setup.vehicle_options keyed in
    let counts =
      subst (λ c. (length c == setup.required_worker_count && all_available c) ≡ true) same
        (passed _ count) in
    let full = length-known setup.worker_options command.worker_ids known in
    let choices = worker_choices setup.worker_options command.worker_ids in
    record {
      fitting = ap (fits setup.required_vehicle_capacity_m2) first ∙ passed _ fit;
      enough_workers =
          subst (λ n. (n == setup.required_worker_count) ≡ true) full (ground (arith, counts));
      available = known_available choices known (ground (arith, counts));
      skilled = all_covered setup.required_skills (skills_of (somes choices)) (
          subst (λ c. is_empty (sorted_missing setup.required_skills (skills_of c)) ≡ true) same
            (passed _ skill));
      certified = all_covered setup.required_certifications (certifications_of (somes choices)) (
          subst
            (λ c.
              is_empty (sorted_missing setup.required_certifications (certifications_of c)) ≡ true)
            same (passed _ cert));
    }

validate_selectable :
    (setup : DispatchSetup) (command : DispatchConfirmCreate) (field_worker_id : Uuid)
    → IsSelectable setup command
    → length (mapped setup command field_worker_id) ≡ 1
    → validate_selection setup command field_worker_id ≡ ok tt
unfolding validate_selection
validate_selectable setup command field_worker_id s one =
    let a = s.fitting in
    let b = s.enough_workers in
    let c = s.available in
    let d = s.skilled in let e = s.certified in ground (arith, a, b, c, d, e, one)

single_mapped :
    (setup : DispatchSetup) (command : DispatchConfirmCreate) (field_worker_id : Uuid)
    → validate_selection setup command field_worker_id ≡ ok tt
    → length (mapped setup command field_worker_id) ≡ 1
unfolding validate_selection
single_mapped setup command field_worker_id h = eq_of_== _ 1 (ground (arith, h))

-- Where the vehicles of a setup have distinct ids, _validate_selection accepts a selection exactly
-- when the four checks of its plan pass, every worker id names an option, and one selected option
-- stands for the field worker.
pub accepted_iff_checked :
    (hash : DispatchConfirmCreate → String) (a : Ambient) (job_id participant_id : Uuid)
    (command : DispatchConfirmCreate) (setup : DispatchSetup) (field_worker_id : Uuid)
    → IsKeyed vehicle_id setup.vehicle_options
    → (validate_selection setup command field_worker_id ≡ ok tt) ↔ (
        All IsPass (
          dispatch_checks setup setup.vehicle_options setup.worker_options
            (some (new_plan hash a job_id participant_id command setup)))
        × (all_known (worker_choices setup.worker_options command.worker_ids) ≡ true)
        × (length (mapped setup command field_worker_id) ≡ 1))
accepted_iff_checked hash a job_id participant_id command setup field_worker_id keyed = (
  λ h. (
    selection_passes hash a job_id participant_id command setup field_worker_id keyed h,
    available_known (worker_choices setup.worker_options command.worker_ids)
        (validate_selection_inv setup command field_worker_id h).available,
    single_mapped setup command field_worker_id h,
  ),
  λ (checks, known, one).
      validate_selectable setup command field_worker_id
        (selectable hash a job_id participant_id command setup keyed known checks) one,
)
