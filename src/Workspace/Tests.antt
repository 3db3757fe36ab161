-- ===== src/Workspace/Tests.antt =====
-- An account with two jobs, and the theorems at it.
use Prim.Native.String.{String}
use seqret_be.Prelude.{inl, ◌≢◌, ◌≡◌, refl, true, Option, none, some, [], ◌∷◌, All}
use seqret_be.Prelude.Clock.{Uuid, Instant}
use seqret_be.Prelude.Transaction.{ok}
use seqret_be.Contracts.Events.{capture_submitted}
use seqret_be.Access.Model.{customer, JobParticipant, WorkspaceMembership}
use seqret_be.Notification.Model.{NotificationStatus, email, NotificationDelivery}
use seqret_be.Notification.Consume.{to_email, WorkspaceContactPoint}
use seqret_be.Workspace.Sessions.{Workspace}
use seqret_be.Workspace.Membership.{Ambient}
use seqret_be.Workspace.Contacts.{
  withdrawal, delete_contact_point, list_contact_points, cancel_pending_contact_deliveries,
}
use seqret_be.Workspace.Withdrawal.{withdrawal_stops_deliveries}

abbrev participant : Uuid → Uuid → JobParticipant
participant id job_id = record { id = id; job_id = job_id; role = customer; display_name = "c" }

abbrev membership : Uuid → Uuid → Option Instant → WorkspaceMembership
membership id participant_id revoked_at = record {
  id = id;
  account_id = 50;
  participant_id = participant_id;
  joined_at = 0;
  revoked_at = revoked_at;
}

abbrev delivery : Uuid → Uuid → NotificationDelivery
delivery id recipient = record {
  id = id;
  event_id = 60;
  event_type = capture_submitted;
  job_id = 10;
  recipient_participant_id = recipient;
  channel = email;
  destination = some "a@b.c";
  status = NotificationStatus.pending;
  attempt_count = 0;
  created_at = 0;
  last_attempt_at = none;
  sent_at = none;
  last_error_code = none;
  next_attempt_at = some 0;
  locked_until = none;
  lock_token = none;
  provider_message_id = none;
}

abbrev contact : WorkspaceContactPoint
contact = record {
  id = 61;
  account_id = 50;
  channel = to_email;
  destination = "a@b.c";
  enabled = true;
  consented_at = 0;
  updated_at = 0;
}

abbrev db : Workspace
db = record {
  jobs = [];
  participants = participant 1 10 ∷ participant 2 11 ∷ [];
  invitations = [];
  accounts = record { id = 50; role = customer; display_name = "c" } ∷ [];
  memberships = membership 21 1 none ∷ membership 22 2 (some 4) ∷ [];
  sessions = [];
  contacts = contact ∷ [];
  rows = delivery 71 1 ∷ delivery 72 2 ∷ [];
}

deleted : (db' : Workspace) × (delete_contact_point 9 50 to_email db ≡ ok (tt, db'))
unfolding delete_contact_point cancel_pending_contact_deliveries
deleted = (_, refl)

-- The delivery to the participant whose membership was closed waits on.
closed_membership_waits :
    (first : NotificationDelivery) × (db' : Workspace) × (delete_contact_point 9 50 to_email db
      ≡ ok (tt, db'))
    × (db'.rows ≡ first ∷ delivery 72 2 ∷ [])
unfolding delete_contact_point cancel_pending_contact_deliveries
closed_membership_waits = (_, _, refl, refl)

withdrawal_stops_deliveries_example :
    (NotificationStatus.failed ≢ NotificationStatus.pending)
    × All (λ d. d.channel ≢ to_email) (list_contact_points 50 deleted.0)
unfolding deleted
withdrawal_stops_deliveries_example =
    withdrawal_stops_deliveries 9 50 to_email contact db deleted.0 (membership 21 1 none)
      (withdrawal to_email (delivery 71 1)) (tt, tt) refl (refl, tt) deleted.1 (inl refl) refl refl
      (inl refl) refl refl

abbrev at : Ambient
at = record {
  account_id = 51;
  membership_id = 23;
  session_id = 81;
  participant_id = 3;
  secret = "s";
  csrf_token = "t";
  looked_at = 9;
  detached_at = 9;
  joined_at = 9;
  now = 9;
}

abbrev plain : String → String
plain s = s
