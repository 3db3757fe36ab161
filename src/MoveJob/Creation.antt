-- ===== src/MoveJob/Creation.antt =====
-- move_job/service.py: how a job is created, with its participants, locations, audit and links. A
-- command has passed its validator.
use Prim.Native.String.{String}
use seqret_be.Prelude.{
  ℕ, suc, Bool, true, false, not, ◌&&◌, ◌||◌, Option, none, List, [], ◌∷◌, ◌++◌, map, ◌==◌,
}
use seqret_be.Prelude.Clock.{Uuid, Instant}
use seqret_be.Prelude.Transaction.{Command, ok, err}
use seqret_be.Contracts.Events.{Items, nil, cons, list, text}
use seqret_be.BackgroundJob.Model.{draft}
use seqret_be.Access.Model.{
  ParticipantRole, customer, role_value, same_role, JobParticipant, Access, job_created,
}
use seqret_be.Access.Links.{Fresh, AccessLinkResponse, add_audit_event, issue_access_link}
use seqret_be.MoveJob.Topology.{
  LocationKind, origin, destination, RoomZone, MoveJobRow, role_rank, kind_rank, sorted_by,
  LocationRow, MoveJobResponse, Store, to_move_response,
}

-- `class ParticipantCreate`
pub record ParticipantCreate : Type 0 where
  pub role : ParticipantRole
  pub display_name : String

-- `class RoomZoneCreate`
pub record RoomZoneCreate : Type 0 where
  pub name : String
  pub sort_order : ℕ

abbrev pub kind_value : LocationKind → String
kind_value origin = "origin"
kind_value destination = "destination"

abbrev pub has_role : ParticipantRole → List ParticipantCreate → Bool
has_role role [] = false
has_role role (p ∷ ps) = same_role p.role role || has_role role ps

abbrev pub has_unique_roles : List ParticipantCreate → Bool
has_unique_roles [] = true
has_unique_roles (p ∷ ps) = not (has_role p.role ps) && has_unique_roles ps

-- What a creation gets from the process and the database.
pub record Ambient : Type 0 where
  pub job_id : Uuid
  pub participant_id : ℕ → Uuid
  pub location_id : ℕ → Uuid
  pub zone_id : ℕ → ℕ → Uuid
  pub created_at : Instant
  pub link : ℕ → Fresh

-- The texts of a list, as a payload holds them.
abbrev pub texts : List String → Items
texts [] = nil
texts (s ∷ ss) = cons (text s) (texts ss)

abbrev pub zones : (ℕ → Uuid) → ℕ → List RoomZoneCreate → List RoomZone
zones ids n [] = []
zones ids n (z ∷ zs) =
    record { id = ids n; name = z.name; sort_order = z.sort_order } ∷ zones ids (suc n) zs

abbrev pub participants_from :
    (job_id : Uuid) (ids : ℕ → Uuid) → ℕ → List ParticipantCreate → List JobParticipant
participants_from job_id ids n [] = []
participants_from job_id ids n (p ∷ ps) =
    record { id = ids n; job_id = job_id; role = p.role; display_name = p.display_name }
    ∷ participants_from job_id ids (suc n) ps

module _ (LocationConditions : Type 0) where
  -- `class LocationCreate`
  pub record LocationCreate : Type 0 where
    pub kind : LocationKind
    pub label : String
    pub detail_address : Option String
    pub conditions : LocationConditions
    pub room_zones : List RoomZoneCreate

  -- `class MoveJobCreate`
  pub record MoveJobCreate : Type 0 where
    pub title : String
    pub scheduled_at : Option Instant
    pub participants : List ParticipantCreate
    pub locations : List LocationCreate

  -- `class CustomerMoveJobCreate`
  pub record CustomerMoveJobCreate : Type 0 where
    pub title : String
    pub scheduled_at : Option Instant
    pub customer_display_name : String
    pub locations : List LocationCreate

  abbrev pub has_kind : LocationKind → List LocationCreate → Bool
  has_kind kind [] = false
  has_kind kind (l ∷ ls) = kind_rank l.kind == kind_rank kind || has_kind kind ls

  abbrev pub has_unique_kinds : List LocationCreate → Bool
  has_unique_kinds [] = true
  has_unique_kinds (l ∷ ls) = not (has_kind l.kind ls) && has_unique_kinds ls

  -- `MoveJobCreate.require_unique_roles_and_locations`, of instants with a time zone
  abbrev pub has_unique_roles_and_locations : MoveJobCreate → Bool
  has_unique_roles_and_locations c = has_unique_roles c.participants && has_unique_kinds c.locations

  -- `_locations_from_command`
  abbrev pub locations_from_command :
      Ambient → ℕ → List LocationCreate → List (LocationRow LocationConditions)
  locations_from_command a n [] = []
  locations_from_command a n (l ∷ ls) =
      record {
        id = a.location_id n;
        job_id = a.job_id;
        kind = l.kind;
        label = l.label;
        detail_address = l.detail_address;
        conditions = l.conditions;
        room_zones = zones (a.zone_id n) 0 l.room_zones;
      }
      ∷ locations_from_command a (suc n) ls

  abbrev pub new_job : Ambient → String → Option Instant → MoveJobRow
  new_job a title scheduled_at = record {
    id = a.job_id;
    title = title;
    status = draft;
    scheduled_at = scheduled_at;
    created_at = a.created_at;
    completed_at = none;
  }

  -- `_record_job_created`
  abbrev pub record_job_created :
      Uuid → List JobParticipant → List (LocationRow LocationConditions) → Access → Access
  record_job_created job_id participants locations db =
      add_audit_event job_id job_created none
        ((
          "participant_roles",
          list (
              texts
                (map (λ p. role_value p.role) (sorted_by (λ p. role_rank p.role) participants))),
        )
          ∷ (
            "location_kinds",
            list (
                texts (map (λ l. kind_value l.kind) (sorted_by (λ l. kind_rank l.kind) locations))),
          )
          ∷ [])
        db

  -- The rows of a new job, after the flush.
  abbrev pub add_job :
      MoveJobRow
      → List JobParticipant
      → List (LocationRow LocationConditions)
      → Store LocationConditions
      → Store LocationConditions
  add_job job participants locations db = record {
    jobs = job ∷ db.jobs;
    locations = locations ++ db.locations;
    access = record_job_created job.id participants locations (record (db.access) {
      job_ids = job.id ∷ db.access.job_ids;
      participants = participants ++ db.access.participants;
    });
  }

  module _ (hash_secret : String → String) where
    -- A link for each participant, in turn.
    pub issue_each :
        (ℕ → Fresh) → ℕ → List JobParticipant → Command Access (List AccessLinkResponse)
    issue_each link n [] db = ok ([], db)
    issue_each link n (p ∷ ps) db =
        elim (issue_access_link hash_secret (link n) p none none none none db) [
          | err x ↦ err x
          | ok (issued, db') ↦ elim (issue_each link (suc n) ps db') [
            | err x ↦ err x
            | ok (rest, last) ↦ ok (issued ∷ rest, last)
          ]
        ]

    -- `create_move_job`; the pair is the `MoveJobCreatedResponse`.
    unfoldable pub create_move_job :
        Ambient
        → MoveJobCreate
        → Command
            (Store LocationConditions)
            (MoveJobResponse LocationConditions × List AccessLinkResponse)
    unfolding issue_each
    create_move_job a command db =
        let job = new_job a command.title command.scheduled_at in
        let participants = participants_from a.job_id a.participant_id 0 command.participants in
        let locations = locations_from_command a 0 command.locations in
        let added = add_job job participants locations db in
        elim (issue_each a.link 0 participants added.access) [
          | err x ↦ err x
          | ok (links, access) ↦ ok (
            (to_move_response LocationConditions customer job participants locations, links),
            record added { access = access },
          )
        ]

    -- `create_customer_move_job`; the pair is the `CustomerMoveJobCreatedResponse` but for the
    -- connection code, a text of the job's id.
    unfoldable pub create_customer_move_job :
        Ambient
        → CustomerMoveJobCreate
        → Command
            (Store LocationConditions)
            (MoveJobResponse LocationConditions × AccessLinkResponse)
    create_customer_move_job a command db =
        let job = new_job a command.title command.scheduled_at in
        let owner : JobParticipant = record {
          id = a.participant_id 0;
          job_id = a.job_id;
          role = customer;
          display_name = command.customer_display_name;
        } in
        let locations = locations_from_command a 0 command.locations in
        let added = add_job job (owner ∷ []) locations db in
        elim (issue_access_link hash_secret (a.link 0) owner none none none none added.access) [
          | err x ↦ err x
          | ok (link, access) ↦ ok (
            (to_move_response LocationConditions customer job (owner ∷ []) locations, link),
            record added { access = access },
          )
        ]
