-- ===== src/MoveJob/Listing.antt =====
-- move_job/service.py: which jobs `list_move_jobs` shows, and on which page.
use Prim.Native.String.{String}
use seqret_be.Prelude.{
  ℕ, zero, suc, ◌+◌, Bool, true, false, not, ◌&&◌, ◌||◌, Option, none, some, List, [], ◌∷◌, leb,
  ltb, ◌==◌, if◌then◌else◌, is_none, length, take, filter,
}
use seqret_be.Prelude.Clock.{Uuid, Instant}
use seqret_be.Prelude.Text.{codes, all, is_space}
use seqret_be.Prelude.Table.{find, sort}
use seqret_be.Prelude.Pointwise.{first_where}
use seqret_be.Prelude.Transaction.{Result, ok, err, value_error}
use seqret_be.BackgroundJob.Model.{MoveJobStatus, draft, active, completed, canceled}
use seqret_be.Access.Model.{
  WorkspaceAccount, account_key, ParticipantRole, field_worker, JobParticipant, WorkspaceMembership,
  participant_key, same_role,
}
use seqret_be.MoveJob.Cursor.{encode_list_cursor, decode_list_cursor}

-- `class MoveJob`
pub record MoveJob : Type 0 where
  pub id : Uuid
  pub title : String
  pub status : MoveJobStatus
  pub scheduled_at : Option Instant
  pub created_at : Instant

-- `class Location`, with what the search reads of it
pub record Location : Type 0 where
  pub job_id : Uuid
  pub label : String
  pub detail_address : Option String

pub record Jobs : Type 0 where
  pub jobs : List MoveJob
  pub participants : List JobParticipant
  pub locations : List Location
  pub memberships : List WorkspaceMembership
  pub accounts : List WorkspaceAccount

-- The arguments of `list_move_jobs` but for the page.
pub record Query : Type 0 where
  pub actor_participant_id : Option Uuid
  pub account_id : Option Uuid
  pub status_filter : Option MoveJobStatus
  pub search : Option String
  pub scheduled_from : Option Instant
  pub scheduled_to : Option Instant

abbrev pub exists : {A : Type 0} → (A → Bool) → List A → Bool
exists p xs = not (is_none (first_where p xs))

abbrev pub is_some_after : Option Instant → Option Instant → Bool
is_some_after (some a) (some b) = ltb b a
is_some_after _ _ = false

-- `search is not None and not search.strip()`
abbrev pub is_blank : Option String → Bool
is_blank none = false
is_blank (some s) = all is_space (codes s)

-- The tests before anything is read.
abbrev pub is_refused : Query → ℕ → Bool
is_refused q limit =
    (if is_none q.actor_participant_id then is_none q.account_id else not (is_none q.account_id))
    || is_some_after q.scheduled_from q.scheduled_to
    || is_blank q.search
    || not (leb 1 limit && leb limit 100)

-- `viewer_role`
abbrev pub role_of_participant : Option JobParticipant → Option ParticipantRole
role_of_participant none = none
role_of_participant (some p) = some p.role

abbrev pub role_of_account : Option WorkspaceAccount → Option ParticipantRole
role_of_account none = none
role_of_account (some a) = some a.role

abbrev pub viewer_role : Query → Jobs → Option ParticipantRole
viewer_role q db = elim q.actor_participant_id [
  | some id ↦ role_of_participant (find participant_key id db.participants)
  | none ↦ elim q.account_id [
    | none ↦ none
    | some id ↦ role_of_account (find account_key id db.accounts)
  ]
]

-- `participant_job_ids`: the participants by which the jobs are reached.
abbrev pub is_member : Uuid → Jobs → JobParticipant → Bool
is_member account_id db p =
    exists (λ m. m.participant_id == p.id && m.account_id == account_id && is_none m.revoked_at)
      db.memberships

abbrev pub is_identity : Query → Jobs → JobParticipant → Bool
is_identity q db p = elim q.account_id [
  | some account_id ↦ is_member account_id db p
  | none ↦ elim q.actor_participant_id [ none ↦ false | some id ↦ p.id == id ]
]

abbrev pub is_attached : Query → Jobs → MoveJob → Bool
is_attached q db j = exists (λ p. p.job_id == j.id && is_identity q db p) db.participants

abbrev pub same_status : MoveJobStatus → MoveJobStatus → Bool
same_status draft draft = true
same_status active active = true
same_status completed completed = true
same_status canceled canceled = true
same_status _ _ = false

abbrev pub has_status : Option MoveJobStatus → MoveJob → Bool
has_status none j = true
has_status (some s) j = same_status j.status s

-- A comparison with a missing date is never true.
abbrev pub is_from : Option Instant → Option Instant → Bool
is_from none at = true
is_from (some from) none = false
is_from (some from) (some at) = leb from at

abbrev pub is_until : Option Instant → Option Instant → Bool
is_until none at = true
is_until (some to) none = false
is_until (some to) (some at) = leb at to

-- `contains term column` is `lower(column) LIKE '%' || lower(trim(term)) || '%'`.
module _ (contains : String → String → Bool) where
  -- A comparison with NULL is not true.
  abbrev pub contains_some : String → Option String → Bool
  contains_some term none = false
  contains_some term (some column) = contains term column

  abbrev pub is_location_match : (address : Bool) → String → MoveJob → Location → Bool
  is_location_match address term j l =
      l.job_id == j.id
      && (contains term l.label || (address && contains_some term l.detail_address))

  abbrev pub is_found : Option String → ParticipantRole → Jobs → MoveJob → Bool
  is_found none role db j = true
  is_found (some term) role db j =
      contains term j.title
      || exists (is_location_match (not (same_role role field_worker)) term j) db.locations
      || exists (λ p. p.job_id == j.id && contains term p.display_name) db.participants

  -- The `WHERE` of the list.
  abbrev pub is_shown : Query → ParticipantRole → Jobs → MoveJob → Bool
  is_shown q role db j =
      is_attached q db j
      && has_status q.status_filter j
      && is_from q.scheduled_from j.scheduled_at
      && is_until q.scheduled_to j.scheduled_at
      && is_found q.search role db j

  -- `ORDER BY created_at DESC, id DESC`
  abbrev pub newer : MoveJob → MoveJob → Bool
  newer i j = ltb j.created_at i.created_at || (i.created_at == j.created_at && leb j.id i.id)

  abbrev pub job_key : MoveJob → ℕ
  job_key j = j.id

  -- All jobs of the list, in its order.
  unfoldable pub listed : Query → ParticipantRole → Jobs → List MoveJob
  listed q role db = sort job_key newer (filter (is_shown q role db) db.jobs)

-- `class MoveJobListResponse`, with the rows that are summarized.
pub record MoveJobList : Type 0 where
  pub moves : List MoveJob
  pub next_cursor : Option (List ℕ)

abbrev pub drop : ℕ → List MoveJob → List MoveJob
drop zero xs = xs
drop (suc n) [] = []
drop (suc n) (x ∷ xs) = drop n xs

-- One more row than the page holds is fetched.
unfoldable pub page_of : (cursor_offset limit : ℕ) → List MoveJob → MoveJobList
page_of cursor_offset limit rows =
    let fetched = take (suc limit) (drop cursor_offset rows) in
    let jobs = take limit fetched in
    record {
      moves = jobs;
      next_cursor =
          if leb (length jobs) 0
          then none
          else if ltb limit (length fetched)
          then some (encode_list_cursor (cursor_offset + length jobs))
          else none;
    }

abbrev pub offset_of : Option (List ℕ) → Result ℕ
offset_of none = ok 0
offset_of (some cursor) = decode_list_cursor cursor

-- `list_move_jobs`, up to the summaries of the page's jobs.
unfoldable pub list_move_jobs :
    (contains : String → String → Bool)
    → Query
    → (limit : ℕ) (cursor : Option (List ℕ)) → Jobs
    → Result MoveJobList
list_move_jobs contains q limit cursor db =
    if is_refused q limit then err value_error else elim (offset_of cursor) [
      | err e ↦ err e
      | ok offset ↦ elim (viewer_role q db) [
        | none ↦ err value_error
        | some role ↦ ok (page_of offset limit (listed contains q role db))
      ]
    ]
