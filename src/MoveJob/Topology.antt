-- ===== src/MoveJob/Topology.antt =====
-- move_job/service.py: the response that shows a job with its participants and locations. The
-- conditions of a location are passed on as they are, so that their type is a parameter.
use Prim.Native.String.{String}
use seqret_be.Prelude.{
  ℕ, Bool, true, false, Option, none, some, List, [], ◌∷◌, map, ltb, ◌==◌, if◌then◌else◌, filter,
  ◌≡◌, refl, ap, ◌∙◌, arith, inl, inr, Option-cases,
}
use seqret_be.Prelude.Clock.{Uuid, Instant}
use seqret_be.Prelude.Table.{find, sort}
use seqret_be.Prelude.Transaction.{Result, ok, err, not_found}
use seqret_be.BackgroundJob.Model.{MoveJobStatus}
use seqret_be.Access.Model.{
  ParticipantRole, customer, company_manager, field_worker, JobParticipant, Access,
}

-- `class LocationKind`
pub data LocationKind : Type 0 where
  origin destination : LocationKind

-- `class RoomZone`
pub record RoomZone : Type 0 where
  pub id : Uuid
  pub name : String
  pub sort_order : ℕ

-- `class MoveJob`
pub record MoveJobRow : Type 0 where
  pub id : Uuid
  pub title : String
  pub status : MoveJobStatus
  pub scheduled_at : Option Instant
  pub created_at : Instant
  pub completed_at : Option Instant

-- The texts of the roles, and of the kinds, in their alphabetical order.
abbrev pub role_rank : ParticipantRole → ℕ
role_rank company_manager = 0
role_rank customer = 1
role_rank field_worker = 2

abbrev pub kind_rank : LocationKind → ℕ
kind_rank destination = 0
kind_rank origin = 1

-- `sorted(xs, key=rank)`
abbrev pub sorted_by : {A : Type 0} → (A → ℕ) → List A → List A
sorted_by rank xs = sort rank (λ x y. ltb (rank x) (rank y)) xs

-- `class ParticipantResponse`
pub record ParticipantResponse : Type 0 where
  pub id : Uuid
  pub role : ParticipantRole
  pub display_name : String

abbrev pub participant_response : JobParticipant → ParticipantResponse
participant_response p = record { id = p.id; role = p.role; display_name = p.display_name }

abbrev pub exposes_detail_address : ParticipantRole → Bool
exposes_detail_address customer = true
exposes_detail_address company_manager = true
exposes_detail_address field_worker = false

module _ (LocationConditions : Type 0) where
  -- `class Location`, with its zones
  pub record LocationRow : Type 0 where
    pub id : Uuid
    pub job_id : Uuid
    pub kind : LocationKind
    pub label : String
    pub detail_address : Option String
    pub conditions : LocationConditions
    pub room_zones : List RoomZone

  -- `class LocationResponse`, whose zones are shown by their rows
  pub record LocationResponse : Type 0 where
    pub id : Uuid
    pub kind : LocationKind
    pub label : String
    pub detail_address : Option String
    pub conditions : LocationConditions
    pub room_zones : List RoomZone

  -- `class MoveJobResponse`
  pub record MoveJobResponse : Type 0 where
    pub id : Uuid
    pub title : String
    pub status : MoveJobStatus
    pub scheduled_at : Option Instant
    pub created_at : Instant
    pub completed_at : Option Instant
    pub participants : List ParticipantResponse
    pub locations : List LocationResponse

  pub record Store : Type 0 where
    pub jobs : List MoveJobRow
    pub locations : List LocationRow
    pub access : Access

  abbrev pub location_response : ParticipantRole → LocationRow → LocationResponse
  location_response viewer_role l = record {
    id = l.id;
    kind = l.kind;
    label = l.label;
    detail_address = if exposes_detail_address viewer_role then l.detail_address else none;
    conditions = l.conditions;
    room_zones = sorted_by (λ z. z.sort_order) l.room_zones;
  }

  -- `_to_response`
  unfoldable pub to_move_response :
      ParticipantRole → MoveJobRow → List JobParticipant → List LocationRow → MoveJobResponse
  to_move_response viewer_role job participants locations = record {
    id = job.id;
    title = job.title;
    status = job.status;
    scheduled_at = job.scheduled_at;
    created_at = job.created_at;
    completed_at = job.completed_at;
    participants = map participant_response (sorted_by (λ p. role_rank p.role) participants);
    locations = map (location_response viewer_role) (sorted_by (λ l. kind_rank l.kind) locations);
  }

  -- `get_move_job`
  unfoldable pub get_move_job :
      (job_id : Uuid) (viewer_role : ParticipantRole) → Store → Result MoveJobResponse
  get_move_job job_id viewer_role db = elim (find (λ j. j.id) job_id db.jobs) [
    | none ↦ err not_found
    | some job ↦ ok (
        to_move_response viewer_role job (filter (λ p. p.job_id == job_id) db.access.participants)
          (filter (λ l. l.job_id == job_id) db.locations))
  ]

  -- A location without its detailed address.
  abbrev pub conceal : LocationResponse → LocationResponse
  conceal l = record l { detail_address = none }

  concealed :
      (ls : List LocationRow) (viewer : ParticipantRole)
      → map (location_response field_worker) ls ≡ map conceal (map (location_response viewer) ls)
  concealed [] viewer = refl
  concealed (l ∷ ls) viewer = ap (◌∷◌ (location_response field_worker l)) (concealed ls viewer)

  -- If a job is shown to a viewer of any role, it is shown to a field worker just so, but with no
  -- detailed address at any location.
  pub field_worker_sees_no_address :
      (job_id : Uuid) (viewer : ParticipantRole) (db : Store) (r : MoveJobResponse)
      → get_move_job job_id viewer db ≡ ok r
      → get_move_job job_id field_worker db ≡ ok (record r { locations = map conceal r.locations })
  unfolding get_move_job to_move_response
  field_worker_sees_no_address job_id viewer db r h =
      elim (Option-cases (find (λ j. j.id) job_id db.jobs)) [
        | inl missing ↦ absurd (ground (arith, h, missing))
        | inr (job, found) ↦
            let ps = filter (λ p. p.job_id == job_id) db.access.participants in
            let ls = filter (λ l. l.job_id == job_id) db.locations in
            let is_r : to_move_response viewer job ps ls ≡ r = ground (arith, h, found) in
            let shown : get_move_job job_id field_worker db
                ≡ ok (to_move_response field_worker job ps ls) =
              ground (arith, found) in
            let same = concealed (sorted_by (λ l. kind_rank l.kind) ls) viewer in
            shown
            ∙ ap {A = List LocationResponse} {B = Result MoveJobResponse}
                (λ z. ok (record (to_move_response field_worker job ps ls) { locations = z })) same
            ∙ ap {A = MoveJobResponse} {B = Result MoveJobResponse}
                (λ z. ok (record z { locations = map conceal z.locations })) is_r
      ]
