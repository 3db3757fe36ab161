-- ===== src/Dispatch/Requests.antt =====
-- dispatch/schemas.py: what the validators of the requests ask. The lengths and ranges of single
-- fields, which the schema library checks, are left out.
use Prim.Native.String.{String}
use seqret_be.Prelude.{Bool, true, false, not, ◌&&◌, Option, List, [], ◌∷◌, map, is_none}
use seqret_be.Prelude.Clock.{Uuid}
use seqret_be.Contracts.Events.{has_name}
use seqret_be.Dispatch.Model.{
  DispatchVehicleCreate, DispatchWorkerCreate, DispatchSetupCreate, DispatchConfirmCreate,
  FieldCheckInCreate,
}
use seqret_be.Dispatch.Commands.{mapped_participant_ids}
use seqret_be.Dispatch.CheckIn.{is_selected, item_key}

-- `len(values) == len(set(values))`, for texts and for ids
abbrev pub are_unique : List String → Bool
are_unique [] = true
are_unique (x ∷ xs) = not (has_name x xs) && are_unique xs

abbrev pub are_unique_ids : List Uuid → Bool
are_unique_ids [] = true
are_unique_ids (x ∷ xs) = not (is_selected x xs) && are_unique_ids xs

-- `available == (conflict_reason is not None)`, refused by both models
abbrev pub has_reason : Bool → Option String → Bool
has_reason true reason = is_none reason
has_reason false reason = not (is_none reason)

-- `DispatchVehicleCreate.require_availability_reason_consistency`
abbrev pub is_consistent_vehicle : DispatchVehicleCreate → Bool
is_consistent_vehicle v = has_reason v.available v.conflict_reason

-- `DispatchWorkerCreate.require_availability_reason_consistency`
abbrev pub is_consistent_worker : DispatchWorkerCreate → Bool
is_consistent_worker w = has_reason w.available w.conflict_reason

-- `DispatchSetupCreate.require_unique_snapshot_values`
abbrev pub has_unique_snapshot_values : DispatchSetupCreate → Bool
has_unique_snapshot_values c =
    are_unique c.required_skills
    && are_unique c.required_certifications
    && are_unique (map item_key c.check_in_items)
    && are_unique (map item_key c.completion_check_items)
    && are_unique (map (λ v. v.external_reference) c.vehicles)
    && are_unique (map (λ w. w.external_reference) c.workers)
    && are_unique_ids (mapped_participant_ids c.workers)

-- `DispatchConfirmCreate.require_unique_workers_and_lead`
abbrev pub has_unique_workers_and_lead : DispatchConfirmCreate → Bool
has_unique_workers_and_lead c =
    are_unique_ids c.worker_ids && is_selected c.lead_worker_id c.worker_ids

-- `FieldCheckInCreate.require_unique_keys`
abbrev pub has_unique_keys : FieldCheckInCreate → Bool
has_unique_keys c = are_unique c.confirmed_check_keys
