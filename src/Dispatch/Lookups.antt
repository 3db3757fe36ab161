-- ===== src/Dispatch/Lookups.antt =====
-- The reads and guards of dispatch/service.py that its commands share.
use Prim.Native.String.{String}
use seqret_be.Prelude.{
  ℕ, Bool, true, false, not, ◌&&◌, ◌||◌, Option, none, some, List, [], ◌∷◌, ◌==◌, if◌then◌else◌,
  is_none, is_some_eq, filter, ◌≡◌, refl, arith,
}
use seqret_be.Prelude.Clock.{Uuid, Instant}
use seqret_be.Prelude.Table.{find, IsKeyed, find-Without}
use seqret_be.Prelude.Pointwise.{first_where}
use seqret_be.Prelude.Transaction.{Result, ok, err, not_found, conflict}
use seqret_be.Contracts.Events.{has_name, includes}
use seqret_be.BackgroundJob.Model.{MoveJobStatus, completed, canceled}
use seqret_be.Access.Model.{
  ParticipantRole, customer, company_manager, field_worker, JobParticipant, same_role,
}
use seqret_be.MoveJob.Listing.{MoveJob}
use seqret_be.MoveJob.Topology.{LocationKind, origin, destination}
use seqret_be.Dispatch.Model.{
  Location, ScopeVersion, DispatchSetup, DispatchPlan, FieldCheckIn, ScopeReviewJobHeader, Db,
}

-- `{key(x): x for x in xs}.get(k)`: the last of the items with a key stays.
abbrev pub entry : {A : Type 0} → (A → ℕ) → ℕ → List A → Option A
entry key k [] = none
entry key k (x ∷ xs) = elim (entry key k xs) [
  | some y ↦ some y
  | none ↦ if key x == k then some x else none
]

-- Where the keys are distinct, the last item with a key is the first.
pub entry-IsKeyed :
    {A : Type 0} (key : A → ℕ) (k : ℕ) (xs : List A)
    → IsKeyed key xs
    → entry key k xs ≡ find key k xs
entry-IsKeyed key k [] h = refl
entry-IsKeyed key k (x ∷ xs) h =
    ground (arith, entry-IsKeyed key k xs h.1, find-Without key (key x) xs h.0)

-- `set(xs) == set(ys)`
abbrev pub same_set : List String → List String → Bool
same_set xs ys = includes xs ys && includes ys xs

-- `set(required) - set(available)`
abbrev pub minus : List String → List String → List String
minus required available = filter (λ s. not (has_name s available)) required

abbrev pub job_key : MoveJob → ℕ
job_key j = j.id

abbrev pub version_key : ScopeVersion → ℕ
version_key v = v.id

-- `_load_job`
abbrev pub load_job : Uuid → Db → Result MoveJob
load_job job_id db = elim (find job_key job_id db.jobs) [ none ↦ err not_found | some job ↦ ok job ]

-- `job.participants`
abbrev pub participants_of : Uuid → Db → List JobParticipant
participants_of job_id db = filter (λ p. p.job_id == job_id) db.participants

-- `_require_participant`
abbrev pub require_participant : Uuid → Uuid → ParticipantRole → Db → Result JobParticipant
require_participant job_id participant_id role db =
    elim (first_where (λ p. p.id == participant_id && p.job_id == job_id && same_role p.role role)
      db.participants) [ none ↦ err not_found | some p ↦ ok p ]

-- The field worker of a job, which both commands of the manager need.
abbrev pub field_worker_of : Uuid → Db → Result JobParticipant
field_worker_of job_id db =
    elim (first_where (λ p. same_role p.role field_worker) (participants_of job_id db)) [
      | none ↦ err not_found
      | some p ↦ ok p
    ]

abbrev pub is_over : MoveJobStatus → Bool
is_over completed = true
is_over canceled = true
is_over _ = false

-- `_require_open_scheduled_job`
abbrev pub require_open_scheduled_job : MoveJob → Result Instant
require_open_scheduled_job job =
    if is_over job.status
    then err conflict
    else elim job.scheduled_at [ none ↦ err conflict | some at ↦ ok at ]

-- A version whose parent is this one.
abbrev pub has_child : Uuid → Db → Bool
has_child version_id db =
    not (is_none (first_where (λ v. is_some_eq v.parent_version_id version_id) db.versions))

-- `_current_locked_scope`
abbrev pub current_locked_scope : Uuid → Uuid → Db → Result ScopeVersion
current_locked_scope job_id version_id db =
    elim (first_where (λ v. v.id == version_id && v.job_id == job_id) db.versions) [
      | none ↦ err not_found
      | some v ↦ if is_none v.locked_at || has_child v.id db then err conflict else ok v
    ]

abbrev pub setup_job : DispatchSetup → ℕ
setup_job s = s.job_id

abbrev pub plan_job : DispatchPlan → ℕ
plan_job p = p.job_id

-- The setup and the plan of a job, of which `UniqueConstraint("job_id")` allows one each.
abbrev pub setup_of : Uuid → Db → Option DispatchSetup
setup_of job_id db = find setup_job job_id db.setups

abbrev pub plan_of : Uuid → Db → Option DispatchPlan
plan_of job_id db = find plan_job job_id db.plans

abbrev pub check_in_of : Uuid → Uuid → Db → Option FieldCheckIn
check_in_of job_id participant_id db =
    first_where (λ c. c.job_id == job_id && c.participant_id == participant_id) db.check_ins

-- `{participant.role: participant.display_name …}.get(role)`
abbrev pub name_of_role : ParticipantRole → List JobParticipant → Option String
name_of_role role [] = none
name_of_role role (p ∷ ps) = elim (name_of_role role ps) [
  | some name ↦ some name
  | none ↦ if same_role p.role role then some p.display_name else none
]

abbrev pub same_kind : LocationKind → LocationKind → Bool
same_kind origin origin = true
same_kind destination destination = true
same_kind _ _ = false

-- `{location.kind: location …}.get(kind)`, of the locations of a job
abbrev pub location_of : LocationKind → Uuid → List Location → Option Location
location_of kind job_id [] = none
location_of kind job_id (l ∷ ls) = elim (location_of kind job_id ls) [
  | some found ↦ some found
  | none ↦ if l.job_id == job_id && same_kind l.kind kind then some l else none
]

abbrev pub label_of : Option Location → Option String
label_of none = none
label_of (some l) = some l.label

-- `_job_header`; `job_code` is `f"MOVE-{job.id.hex[:8].upper()}"`.
abbrev pub job_header :
    (job_code : Uuid → String) → MoveJob → JobParticipant → Db → ScopeReviewJobHeader
job_header job_code job viewer db = record {
  job_id = job.id;
  job_code = job_code job.id;
  title = job.title;
  scheduled_at = job.scheduled_at;
  customer_display_name = name_of_role customer (participants_of job.id db);
  company_display_name = name_of_role company_manager (participants_of job.id db);
  viewer_display_name = viewer.display_name;
  viewer_role = viewer.role;
  origin_summary = label_of (location_of origin job.id db.locations);
  destination_summary = label_of (location_of destination job.id db.locations);
}
