-- ===== src/Access/Tests.antt =====
-- A job with a customer, a company and a field worker, and the theorems at its tables.
use Prim.Native.String.{String}
use seqret_be.Prelude.{◌≤◌, ◌≡◌, refl, false, none, some, [], ◌∷◌, inr, arith}
use seqret_be.Prelude.Clock.{Uuid, seconds}
use seqret_be.Prelude.Transaction.{ok, err, invalid_token}
use seqret_be.Access.Model.{
  ParticipantRole, customer, company_manager, field_worker, JobParticipant, AccessToken,
  InvitationStatus, Invitation, Access,
}
use seqret_be.Access.Links.{revoke_access_link, revoke_workspace_memberships}
use seqret_be.Access.Authenticate.{
  Actor, counted_to, authenticate_access_token, enforce_access_rate_limit,
  increment_database_rate_window, is_access_secret,
}
use seqret_be.Access.Invitations.{Ambient, InvitationResponse}
use seqret_be.Access.Answers.{revoke_invitation, revoke_invitation_tree, revoke_each}
use seqret_be.Access.Revocation.{IsKeyedAccess}
use seqret_be.Access.Refusal.{revoked_secret_is_refused}
use seqret_be.Access.Rate.{admitted, rate_limit_bound}

abbrev participant : Uuid → ParticipantRole → String → JobParticipant
participant id role name = record { id = id; job_id = 10; role = role; display_name = name }

abbrev link : Uuid → Uuid → String → AccessToken
link id participant_id hash = record {
  id = id;
  participant_id = participant_id;
  token_hash = hash;
  expires_at = seconds 1000;
  revoked_at = none;
  last_used_at = none;
  rate_window_started_at = none;
  rate_window_count = 0;
  created_at = 0;
}

abbrev invitation : Uuid → Uuid → Uuid → Uuid → ParticipantRole → Invitation
invitation id issuer invitee link_id role = record {
  id = id;
  job_id = 10;
  issuer_participant_id = issuer;
  invitee_participant_id = invitee;
  access_link_id = link_id;
  role = role;
  status = InvitationStatus.accepted;
  expires_at = seconds 1000;
  issued_at = 0;
  resolved_at = some 5;
}

abbrev customers : Access
customers = record {
  job_ids = 10 ∷ [];
  participants = participant 1 customer "c" ∷ [];
  links = link 21 1 "secret-of-the-customer" ∷ [];
  invitations = [];
  memberships = [];
  audits = [];
}

abbrev of_company : Invitation
of_company = invitation 31 1 2 22 company_manager

abbrev of_worker : Invitation
of_worker = invitation 32 2 3 23 field_worker

abbrev worker_secret : String
worker_secret = "worker-0123456789-0123456789-0123456789-0"

abbrev worker_link : AccessToken
worker_link = link 23 3 worker_secret

abbrev db : Access
db = record {
  job_ids = 10 ∷ [];
  participants =
      participant 1 customer "c"
      ∷ participant 2 company_manager "m"
      ∷ participant 3 field_worker "w"
      ∷ [];
  links = link 21 1 "secret-of-the-customer" ∷ link 22 2 "secret-of-the-company" ∷ worker_link ∷ [];
  invitations = of_company ∷ of_worker ∷ [];
  memberships = [];
  audits = [];
}

-- The model's digest of a secret.
abbrev plain : String → String
plain s = s

abbrev at : Ambient
at = record {
  participant_id = 2;
  invitation_id = 31;
  link = record {
    id = 22;
    secret = "secret-of-the-company";
    now = seconds 100;
    created_at = seconds 100;
  };
  now = seconds 100;
  issued_at = seconds 100;
  revoked_at = λ _. seconds 100;
}

abbrev the_customer : Actor
the_customer = record { participant_id = 1; participant_role = customer; job_id = 10 }

keyed : IsKeyedAccess db
keyed = (
  (
    ((λ e. absurd (omega arith)), ((λ e. absurd (omega arith)), tt)),
    (((λ e. absurd (omega arith)), tt), (tt, tt)),
  ),
  (((λ e. absurd (omega arith)), tt), (tt, tt)),
)

revoked_company :
    (x : InvitationResponse) × (db' : Access) × (revoke_invitation at 10 31 the_customer db
      ≡ ok (x, db'))
unfolding revoke_invitation revoke_invitation_tree revoke_each revoke_access_link
    revoke_workspace_memberships
revoked_company = (_, _, refl)

-- Before, the worker's secret opens the job.
worker_enters :
    (actor : Actor) × (db' : Access) × (authenticate_access_token plain worker_secret none 60 60
        false
        (seconds 100)
        db
      ≡ ok (actor, db'))
unfolding authenticate_access_token enforce_access_rate_limit increment_database_rate_window
    is_access_secret
worker_enters = (_, _, refl)

revoked_secret_is_refused_example :
    authenticate_access_token plain worker_secret none 60 60 false (seconds 200) (revoked_company.1)
    ≡ err invalid_token
revoked_secret_is_refused_example =
    revoked_secret_is_refused plain at 10 31 the_customer of_company of_worker worker_link
      worker_secret revoked_company.0 db revoked_company.1 none 60 60 false (seconds 200) keyed refl
      refl refl (inr (refl, refl)) refl refl revoked_company.2

rate_limit_bound_example :
    admitted worker_link 2 60
      ((none, seconds 100) ∷ (some (counted_to 1), seconds 130) ∷ (none, seconds 159) ∷ [])
      db
    ≤ 4
rate_limit_bound_example =
    rate_limit_bound worker_link 2 60
      ((none, seconds 100) ∷ (some (counted_to 1), seconds 130) ∷ (none, seconds 159) ∷ []) db
      worker_link (seconds 100) refl
      ((omega arith, omega arith), ((omega arith, omega arith), ((omega arith, omega arith), tt)))

-- Of these three requests two pass.
two_pass :
    admitted worker_link 2 60
      ((none, seconds 100) ∷ (some (counted_to 1), seconds 130) ∷ (none, seconds 159) ∷ [])
      db
    ≡ 2
unfolding enforce_access_rate_limit increment_database_rate_window
two_pass = refl
