-- ===== src/Dispatch/Checks.antt =====
-- dispatch/service.py: the four checks of a dispatch, before and after it is confirmed, and the
-- manager's view of it.
use Prim.Native.String.{String}
use seqret_be.Prelude.{
  ℕ, Bool, true, false, not, ◌&&◌, ◌||◌, Option, none, some, List, [], ◌∷◌, ◌++◌, leb, ltb, ◌==◌,
  if◌then◌else◌, length, filter,
}
use seqret_be.Prelude.Clock.{Uuid}
use seqret_be.Prelude.Text.{codes}
use seqret_be.Prelude.Table.{find, sort}
use seqret_be.Contracts.Events.{has_name}
use seqret_be.Dispatch.Model.{
  DispatchVehicleOption, DispatchWorkerOption, DispatchSetup, DispatchPlan,
}
use seqret_be.Dispatch.Lookups.{entry, minus}

-- `class DispatchCheckStatus`
pub data DispatchCheckStatus : Type 0 where
  pass fail : DispatchCheckStatus

abbrev pub passes_if : Bool → DispatchCheckStatus
passes_if true = pass
passes_if false = fail

-- `DispatchCheck.key`
pub data CheckKey : Type 0 where
  vehicle_availability worker_availability required_skills required_certifications : CheckKey

-- `DispatchCheck.detail`, by its five texts: "가용 용량 충족 차량 있음" or "… 없음",
-- "가용 작업자 n/m", "선택 차량 일정·용량 충족", "선택 작업자 n/m", and the label of a requirement
-- with what is missing, or "충족".
pub data Detail : Type 0 where
  vehicle_found : Bool → Detail
  workers_free : (free required : ℕ) → Detail
  vehicle_chosen : Detail
  workers_chosen : (chosen required : ℕ) → Detail
  coverage : (missing : List String) → Detail

-- `class DispatchCheck`
pub record DispatchCheck : Type 0 where
  pub key : CheckKey
  pub status : DispatchCheckStatus
  pub detail : Detail

-- Texts in the order of their code points.
abbrev pub text_before : List ℕ → List ℕ → Bool
text_before [] ds = true
text_before (c ∷ cs) [] = false
text_before (c ∷ cs) (d ∷ ds) = ltb c d || (c == d && text_before cs ds)

-- The items of `set(xs)`.
abbrev pub distinct : List String → List String
distinct [] = []
distinct (x ∷ xs) = if has_name x xs then distinct xs else x ∷ distinct xs

-- `sorted(required - available)`
abbrev pub sorted_missing : List String → List String → List String
sorted_missing required available =
    sort (λ _. 0) (λ x y. text_before (codes x) (codes y)) (distinct (minus required available))

abbrev pub is_empty : {A : Type 0} → List A → Bool
is_empty [] = true
is_empty (_ ∷ _) = false

-- `_coverage_check`
unfoldable pub coverage_check : CheckKey → List String → List String → DispatchCheck
coverage_check key required available =
    let missing = sorted_missing required available in
    record { key = key; status = passes_if (is_empty missing); detail = coverage missing }

abbrev pub is_eligible : ℕ → DispatchVehicleOption → Bool
is_eligible required v = v.available && leb required v.capacity_m2

abbrev pub is_available : DispatchWorkerOption → Bool
is_available w = w.available

-- The union of the workers' skills, and of their certifications.
abbrev pub skills_of : List DispatchWorkerOption → List String
skills_of [] = []
skills_of (w ∷ ws) = w.skills ++ skills_of ws

abbrev pub certifications_of : List DispatchWorkerOption → List String
certifications_of [] = []
certifications_of (w ∷ ws) = w.certifications ++ certifications_of ws

abbrev pub vehicle_id : DispatchVehicleOption → ℕ
vehicle_id v = v.id

abbrev pub worker_id : DispatchWorkerOption → ℕ
worker_id w = w.id

-- `worker_map[id] for id in ids if id in worker_map`
abbrev pub selected : List DispatchWorkerOption → List Uuid → List DispatchWorkerOption
selected workers [] = []
selected workers (id ∷ ids) = elim (entry worker_id id workers) [
  | none ↦ selected workers ids
  | some w ↦ w ∷ selected workers ids
]

abbrev pub all_available : List DispatchWorkerOption → Bool
all_available [] = true
all_available (w ∷ ws) = w.available && all_available ws

abbrev pub fits : ℕ → Option DispatchVehicleOption → Bool
fits required none = false
fits required (some v) = is_eligible required v

-- The checks while there is no plan: of all that is available.
abbrev pub checks_of_options :
    DispatchSetup → List DispatchVehicleOption → List DispatchWorkerOption → List DispatchCheck
checks_of_options setup vehicles workers =
    let eligible_vehicles = filter (is_eligible setup.required_vehicle_capacity_m2) vehicles in
    let eligible_workers = filter is_available workers in
    record {
      key = vehicle_availability;
      status = passes_if (not (is_empty eligible_vehicles));
      detail = vehicle_found (not (is_empty eligible_vehicles));
    }
    ∷ record {
      key = worker_availability;
      status = passes_if (leb setup.required_worker_count (length eligible_workers));
      detail = workers_free (length eligible_workers) setup.required_worker_count;
    }
    ∷ coverage_check required_skills setup.required_skills (skills_of eligible_workers)
    ∷ coverage_check required_certifications setup.required_certifications
        (certifications_of eligible_workers)
    ∷ []

-- The checks of a plan: of what it selects.
abbrev pub checks_of_plan :
    DispatchSetup
    → List DispatchVehicleOption
    → List DispatchWorkerOption
    → DispatchPlan
    → List DispatchCheck
checks_of_plan setup vehicles workers plan =
    let vehicle = find vehicle_id plan.vehicle_option_id vehicles in
    let chosen = selected workers plan.selected_worker_option_ids in
    record {
      key = vehicle_availability;
      status = passes_if (fits setup.required_vehicle_capacity_m2 vehicle);
      detail = vehicle_chosen;
    }
    ∷ record {
      key = worker_availability;
      status = passes_if (length chosen == setup.required_worker_count && all_available chosen);
      detail = workers_chosen (length chosen) setup.required_worker_count;
    }
    ∷ coverage_check required_skills setup.required_skills (skills_of chosen)
    ∷ coverage_check required_certifications setup.required_certifications
        (certifications_of chosen)
    ∷ []

-- `_dispatch_checks`
unfoldable pub dispatch_checks :
    DispatchSetup
    → List DispatchVehicleOption
    → List DispatchWorkerOption
    → Option DispatchPlan
    → List DispatchCheck
dispatch_checks setup vehicles workers none = checks_of_options setup vehicles workers
dispatch_checks setup vehicles workers (some plan) = checks_of_plan setup vehicles workers plan
