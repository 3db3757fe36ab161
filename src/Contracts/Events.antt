-- ===== src/Contracts/Events.antt =====
-- app/contracts/events.py: the event envelope and the payload that each event type documents.
-- A canonical UUID text, one with `str(UUID(s)) == s`, is `uuid`; any other text is `text`.
use Prim.Native.String.{String}
use package.text.Mathlib.Text.{◌==◌ as str_eq}
use seqret_be.Prelude.{
  ℕ, Bool, true, false, not, ◌&&◌, ◌||◌, Option, List, [], ◌∷◌, ◌==◌, length, if◌then◌else◌,
}
use seqret_be.Prelude.Clock.{Uuid, Instant}
use seqret_be.Prelude.Text.{codes, all, in_range}
use seqret_be.Prelude.Transaction.{Result, ok, err, value_error}

-- `class DomainEventType`
pub data DomainEventType : Type 0 where
  capture_submitted analysis_completed analysis_failed scope_locked : DomainEventType
  change_requested dispatch_confirmed completion_media_submitted : DomainEventType
  completion_submitted completion_requested completion_decided media_deleted : DomainEventType

-- A JSON value, as far as a documented payload holds one.
mutual
  pub data Json : Type 0 where
    null : Json
    boolean : Bool → Json
    text : String → Json
    uuid : Uuid → Json
    list : Items → Json

  pub data Items : Type 0 where
    nil : Items
    cons : Json → Items → Items

abbrev pub Payload : Type 0
Payload = List (String × Json)

-- `payload.get(name)`; a missing key reads as `None`.
abbrev pub field : String → Payload → Json
field name [] = null
field name ((k, v) ∷ p) = if str_eq k name then v else field name p

abbrev pub has_name : String → List String → Bool
has_name name [] = false
has_name name (k ∷ ks) = str_eq k name || has_name name ks

abbrev pub names : Payload → List String
names [] = []
names ((k, _) ∷ p) = k ∷ names p

abbrev pub includes : List String → List String → Bool
includes ks [] = true
includes ks (n ∷ ns) = has_name n ks && includes ks ns

-- `set(payload) == {…}`
abbrev pub has_exactly : List String → Payload → Bool
has_exactly ns p = includes (names p) ns && includes ns (names p)

abbrev pub is_uuid : Json → Bool
is_uuid (uuid _) = true
is_uuid _ = false

abbrev pub is_boolean : Json → Bool
is_boolean (boolean _) = true
is_boolean _ = false

abbrev pub is_null : Json → Bool
is_null null = true
is_null _ = false

abbrev pub is_text : (String → Bool) → Json → Bool
is_text p (text s) = p s
is_text p _ = false

-- No item is this id.
abbrev pub lacks : Uuid → Items → Bool
lacks u nil = true
lacks u (cons (uuid v) xs) = not (u == v) && lacks u xs
lacks u (cons _ xs) = lacks u xs

-- Every item is an id, and no id stands twice.
abbrev pub are_uuids : Items → Bool
are_uuids nil = true
are_uuids (cons (uuid u) xs) = lacks u xs && are_uuids xs
are_uuids (cons _ xs) = false

-- A nonempty list of distinct ids.
abbrev pub is_uuid_list : Json → Bool
is_uuid_list (list (cons x xs)) = are_uuids (cons x xs)
is_uuid_list _ = false

abbrev pub is_hex : ℕ → Bool
is_hex c = in_range b'0' b'9' c || in_range b'a' b'f' c

abbrev pub is_sha256 : String → Bool
is_sha256 s = length (codes s) == 64 && all is_hex (codes s)

-- `TraceId`: 32 lowercase hexadecimal digits.
unfoldable pub is_trace_id : String → Bool
is_trace_id s = length (codes s) == 32 && all is_hex (codes s)

abbrev pub error_kinds : List String
error_kinds =
    "not_found" ∷ "conflict" ∷ "invalid_input" ∷ "unavailable" ∷ "deadline_exceeded"
    ∷ "permission_denied" ∷ []

-- The decision of a completion: a confirmation names no report, and a report is named.
abbrev pub is_decision : Json → Json → Bool
is_decision (text d) report =
    if str_eq d "confirm" then is_null report else str_eq d "report_issue" && is_uuid report
is_decision _ report = false

-- `DomainEvent.require_documented_payload`. A payload that is refused by an exception inside the
-- validator is refused here by `false`.
unfoldable pub is_documented : DomainEventType → Payload → Bool
is_documented capture_submitted p =
    has_exactly ("capture_session_id" ∷ "analysis_run_id" ∷ "inventory_media_asset_ids" ∷ []) p
    && is_uuid (field "capture_session_id" p)
    && is_uuid (field "analysis_run_id" p)
    && is_uuid_list (field "inventory_media_asset_ids" p)
is_documented analysis_completed p =
    has_exactly ("capture_session_id" ∷ "analysis_run_id" ∷ "scope_version_id" ∷ []) p
    && is_uuid (field "capture_session_id" p)
    && is_uuid (field "analysis_run_id" p)
    && is_uuid (field "scope_version_id" p)
is_documented analysis_failed p =
    has_exactly ("capture_session_id" ∷ "analysis_run_id" ∷ "error_kind" ∷ "retryable" ∷ []) p
    && is_uuid (field "capture_session_id" p)
    && is_uuid (field "analysis_run_id" p)
    && is_text (λ s. has_name s error_kinds) (field "error_kind" p)
    && is_boolean (field "retryable" p)
is_documented scope_locked p =
    has_exactly ("scope_version_id" ∷ "content_hash" ∷ []) p
    && is_uuid (field "scope_version_id" p)
    && is_text is_sha256 (field "content_hash" p)
is_documented change_requested p =
    has_exactly ("change_request_id" ∷ "base_scope_version_id" ∷ "evidence_media_asset_ids" ∷ []) p
    && is_uuid (field "change_request_id" p)
    && is_uuid (field "base_scope_version_id" p)
    && is_uuid_list (field "evidence_media_asset_ids" p)
is_documented dispatch_confirmed p =
    has_exactly ("dispatch_id" ∷ "scope_version_id" ∷ "field_worker_participant_id" ∷ []) p
    && is_uuid (field "dispatch_id" p)
    && is_uuid (field "scope_version_id" p)
    && is_uuid (field "field_worker_participant_id" p)
is_documented completion_media_submitted p =
    has_exactly ("capture_session_id" ∷ "media_asset_id" ∷ "room_zone_id" ∷ []) p
    && is_uuid (field "capture_session_id" p)
    && is_uuid (field "media_asset_id" p)
    && is_uuid (field "room_zone_id" p)
is_documented completion_submitted p =
    has_exactly
      ("completion_submission_id" ∷ "scope_version_id" ∷ "field_worker_participant_id" ∷ []) p
    && is_uuid (field "completion_submission_id" p)
    && is_uuid (field "scope_version_id" p)
    && is_uuid (field "field_worker_participant_id" p)
is_documented completion_requested p =
    has_exactly
      ("completion_request_id" ∷ "completion_submission_id" ∷ "customer_participant_id" ∷ []) p
    && is_uuid (field "completion_request_id" p)
    && is_uuid (field "completion_submission_id" p)
    && is_uuid (field "customer_participant_id" p)
is_documented completion_decided p =
    has_exactly
      ("completion_request_id" ∷ "completion_submission_id" ∷ "decision" ∷ "problem_report_id" ∷ [])
      p
    && is_uuid (field "completion_request_id" p)
    && is_uuid (field "completion_submission_id" p)
    && is_decision (field "decision" p) (field "problem_report_id" p)
is_documented media_deleted p =
    has_exactly ("background_job_id" ∷ "media_asset_id" ∷ []) p
    && is_uuid (field "background_job_id" p)
    && is_uuid (field "media_asset_id" p)

-- `class DomainEvent`
pub record DomainEvent : Type 0 where
  pub event_id : Uuid
  pub event_type : DomainEventType
  pub schema_version : ℕ
  pub aggregate_id : Uuid
  pub occurred_at : Instant
  pub actor_id : Option Uuid
  pub trace_id : String
  pub payload : Payload

-- The version that ends the event type's name: every name ends in `.v1`.
abbrev pub name_version : DomainEventType → ℕ
name_version _ = 1

-- The validators that run when an event is built, all together.
abbrev pub is_accepted : DomainEvent → Bool
is_accepted e =
    is_trace_id e.trace_id
    && e.schema_version == name_version e.event_type
    && is_documented e.event_type e.payload

-- `DomainEvent(…)`: the event, or a `ValidationError`, which is a `ValueError`.
unfoldable pub build_event : DomainEvent → Result DomainEvent
build_event e = if is_accepted e then ok e else err value_error
