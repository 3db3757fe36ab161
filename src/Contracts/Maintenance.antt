-- ===== src/Contracts/Maintenance.antt =====
-- app/contracts/maintenance.py: the messages between the media queue, its handlers and the
-- background jobs. Field constraints that only bound a text's length are left out.
use Prim.Native.String.{String}
use seqret_be.Prelude.{ℕ, Bool, true, false, ◌&&◌, ◌||◌, not, Option, is_none, List, [], ◌∷◌, ◌==◌}
use seqret_be.Prelude.Text.{codes, all}
use seqret_be.Prelude.Clock.{Uuid}
use seqret_be.Contracts.Ports.{ProviderErrorKind}

-- `class BackgroundJobType`
pub data BackgroundJobType : Type 0 where
  media_validation media_retention_delete : BackgroundJobType

-- `class MediaValidationTaskV1`
pub record MediaValidationTask : Type 0 where
  pub background_job_id : Uuid
  pub attempt_count : ℕ
  pub trace_id : String

-- `class MediaValidationWorkV1`
pub record MediaValidationWork : Type 0 where
  pub background_job_id : Uuid
  pub attempt_count : ℕ
  pub object_key : String
  pub source_generation : String
  pub expected_content_type : String
  pub expected_size_bytes : ℕ

-- `[^/]+$`: the rest after the slash.
abbrev pub is_subtype : List ℕ → Bool
is_subtype [] = false
is_subtype (c ∷ cs) = all (λ d. not (d == b'/')) (c ∷ cs)

-- What follows the first character of a type: more of it, one slash, and the subtype.
abbrev pub goes_on : List ℕ → Bool
goes_on [] = false
goes_on (c ∷ cs) = (c == b'/' && is_subtype cs) || (not (c == b'/') && goes_on cs)

abbrev pub has_subtype : List ℕ → Bool
has_subtype [] = false
has_subtype (c ∷ cs) = not (c == b'/') && goes_on cs

-- The pattern `^[^/]+/[^/]+$` of a content type.
unfoldable pub is_content_type : String → Bool
is_content_type s = has_subtype (codes s)

-- `class MediaValidationOutcome`, `class MediaDeletionOutcome`
pub data Outcome : Type 0 where
  succeeded failed : Outcome

-- `class MediaValidationResultV1`
pub record MediaValidationResult : Type 0 where
  pub background_job_id : Uuid
  pub attempt_count : ℕ
  pub source_generation : String
  pub outcome : Outcome
  pub observed_content_type : Option String
  pub observed_size_bytes : Option ℕ
  pub sha256_hex : Option String
  pub error_kind : Option ProviderErrorKind

abbrev pub is_succeeded : Outcome → Bool
is_succeeded succeeded = true
is_succeeded failed = false

-- `require_one_terminal_shape`: what it takes to be built without a `ValueError`.
abbrev pub has_terminal_shape : MediaValidationResult → Bool
has_terminal_shape r = elim r.outcome [
  | succeeded ↦
      is_none r.error_kind
      && not (is_none r.observed_content_type)
      && not (is_none r.observed_size_bytes)
      && not (is_none r.sha256_hex)
  | failed ↦
      not (is_none r.error_kind)
      && is_none r.observed_content_type
      && is_none r.observed_size_bytes
      && is_none r.sha256_hex
]

-- `class MediaDeletionTaskV1`
pub record MediaDeletionTask : Type 0 where
  pub background_job_id : Uuid
  pub attempt_count : ℕ
  pub trace_id : String

-- `class MediaDeletionWorkV1`
pub record MediaDeletionWork : Type 0 where
  pub background_job_id : Uuid
  pub attempt_count : ℕ
  pub move_job_id : Uuid
  pub media_asset_id : Uuid
  pub object_key : String
  pub generation : String

-- `class MediaDeletionResultV1`
pub record MediaDeletionResult : Type 0 where
  pub background_job_id : Uuid
  pub attempt_count : ℕ
  pub outcome : Outcome
  pub error_kind : Option ProviderErrorKind

-- `require_failure_error`
abbrev pub has_failure_error : MediaDeletionResult → Bool
has_failure_error r = elim r.outcome [
  | succeeded ↦ is_none r.error_kind
  | failed ↦ not (is_none r.error_kind)
]
