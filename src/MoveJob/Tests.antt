-- ===== src/MoveJob/Tests.antt =====
-- A customer with three jobs, and the theorems at them.
mod Opening
use Prim.Native.String.{String}
use seqret_be.Prelude.{
  ◌-◌, ◌^◌, ◌≤◌, ◌<◌, ◌≡◌, refl, Bool, false, none, some, [], ◌∷◌, arith, length,
}
use seqret_be.Prelude.Clock.{Uuid, Instant}
use seqret_be.Prelude.Transaction.{ok}
use seqret_be.BackgroundJob.Model.{active}
use seqret_be.Access.Model.{customer, JobParticipant}
use seqret_be.MoveJob.Cursor.{
  encode_list_cursor, decode_list_cursor, decode_list_cursor-encode_list_cursor,
}
use seqret_be.MoveJob.Listing.{MoveJob, Query, Jobs, listed, list_move_jobs}
use seqret_be.MoveJob.Paging.{follow, pages_are_list}

abbrev job : Uuid → Instant → MoveJob
job id created = record {
  id = id;
  title = "move";
  status = active;
  scheduled_at = none;
  created_at = created;
}

abbrev member : Uuid → Uuid → JobParticipant
member id job_id = record { id = id; job_id = job_id; role = customer; display_name = "c" }

abbrev db : Jobs
db = record {
  jobs = job 1 5 ∷ job 2 9 ∷ job 3 7 ∷ job 4 8 ∷ [];
  participants = member 11 1 ∷ member 12 2 ∷ member 13 3 ∷ member 14 4 ∷ [];
  locations = [];
  memberships =
      record { id = 21; account_id = 50; participant_id = 11; joined_at = 0; revoked_at = none }
      ∷ record { id = 22; account_id = 50; participant_id = 12; joined_at = 0; revoked_at = none }
      ∷ record { id = 23; account_id = 50; participant_id = 13; joined_at = 0; revoked_at = none }
      ∷ record { id = 24; account_id = 50; participant_id = 14; joined_at = 0; revoked_at = some 3 }
      ∷ [];
  accounts = record { id = 50; role = customer; display_name = "c" } ∷ [];
}

abbrev query : Query
query = record {
  actor_participant_id = none;
  account_id = some 50;
  status_filter = none;
  search = none;
  scheduled_from = none;
  scheduled_to = none;
}

abbrev contains : String → String → Bool
contains term column = false

-- The newest job first; the closed membership does not show its job.
is_listed : listed contains query customer db ≡ job 2 9 ∷ job 3 7 ∷ job 1 5 ∷ []
unfolding listed
is_listed = refl

few : length (listed contains query customer db) ≤ 2 ^ 63 - 1
unfolding listed
few = omega arith

enough : length (listed contains query customer db) < 4
unfolding listed
enough = omega arith

pages_are_list_example :
    follow 4 (λ c. list_move_jobs contains query 2 c db) none
    ≡ ok (listed contains query customer db)
pages_are_list_example = pages_are_list contains query 2 db customer 4 refl refl few enough

-- `v1:50`
is_encoded : encode_list_cursor 50 ≡ b'd' ∷ b'j' ∷ b'E' ∷ b'6' ∷ b'N' ∷ b'T' ∷ b'A' ∷ []
unfolding encode_list_cursor
is_encoded = refl

decode_list_cursor-encode_list_cursor_example : decode_list_cursor (encode_list_cursor 50) ≡ ok 50
decode_list_cursor-encode_list_cursor_example =
    decode_list_cursor-encode_list_cursor 50 (omega arith)
