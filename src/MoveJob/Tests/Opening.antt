-- ===== src/MoveJob/Tests/Opening.antt =====
-- A customer creates a job, is let in, and a field worker looks at it.
use Prim.Native.String.{String}
use seqret_be.Prelude.{◌+◌, ◌≡◌, refl, false, none, some, [], ◌∷◌, arith, filter, map, ◌==◌}
use seqret_be.Prelude.Transaction.{ok}
use seqret_be.Access.Model.{customer, field_worker, Access, access_link_issued}
use seqret_be.Access.Links.{AccessLinkResponse, issue_access_link, add_audit_event, link_payload}
use seqret_be.Access.Authenticate.{is_access_secret, authenticate_access_token}
use seqret_be.MoveJob.Topology.{
  origin, destination, LocationKind, MoveJobResponse, Store, to_move_response, get_move_job,
  conceal, field_worker_sees_no_address,
}
use seqret_be.MoveJob.Creation.{
  Ambient, LocationCreate, CustomerMoveJobCreate, new_job, locations_from_command, add_job,
  create_customer_move_job,
}
use seqret_be.MoveJob.Admission.{owner, first_link, creator_is_admitted}

abbrev hash : String → String
hash s = s

abbrev secret : String
secret = "abcdefghijklmnopqrstuvwxyz0123456789abcdefghijk"

abbrev ambient : Ambient
ambient = record {
  job_id = 10;
  participant_id = λ n. 20 + n;
  location_id = λ n. 30 + n;
  zone_id = λ l n. 40 + l + n;
  created_at = 1;
  link = λ n. record { id = 50 + n; secret = secret; now = 2; created_at = 2 };
}

abbrev location : LocationKind → String → LocationCreate (Unit {0})
location kind label = record {
  kind = kind;
  label = label;
  detail_address = some "12-3";
  conditions = tt;
  room_zones =
      record { name = "room"; sort_order = 2 } ∷ record { name = "hall"; sort_order = 1 } ∷ [];
}

abbrev command : CustomerMoveJobCreate (Unit {0})
command = record {
  title = "move";
  scheduled_at = none;
  customer_display_name = "c";
  locations = location origin "from" ∷ location destination "to" ∷ [];
}

abbrev empty : Store (Unit {0})
empty = record {
  jobs = [];
  locations = [];
  access = record {
    job_ids = [];
    participants = [];
    links = [];
    invitations = [];
    memberships = [];
    audits = [];
  };
}

abbrev link : AccessLinkResponse
link = record {
  id = 50;
  job_id = 10;
  participant_id = 20;
  role = customer;
  secret = secret;
  expires_at = 604_800_000_002;
}

abbrev shown : MoveJobResponse (Unit {0})
shown =
    to_move_response (Unit {0}) customer (new_job (Unit {0}) ambient "move" none)
      (owner (Unit {0}) hash ambient command ∷ [])
      (locations_from_command (Unit {0}) ambient 0 command.locations)

abbrev added : Store (Unit {0})
added =
    add_job (Unit {0}) (new_job (Unit {0}) ambient "move" none)
      (owner (Unit {0}) hash ambient command ∷ [])
      (locations_from_command (Unit {0}) ambient 0 command.locations) empty

abbrev opened : Store (Unit {0})
opened = record added {
  access =
      add_audit_event 10 access_link_issued none
        (link_payload 50 (owner (Unit {0}) hash ambient command))
        (record (added.access) { links = first_link (Unit {0}) hash ambient ∷ [] });
}

is_opened :
    create_customer_move_job (Unit {0}) hash ambient command empty ≡ ok ((shown, link), opened)
unfolding create_customer_move_job issue_access_link
is_opened = refl

creator_is_admitted_example :
    (last : Access) × (authenticate_access_token hash secret none 5 60 false 9 opened.access
      ≡ ok (record { participant_id = 20; participant_role = customer; job_id = 10 }, last))
    × (filter (λ p. p.job_id == 10) opened.access.participants
        ≡ owner (Unit {0}) hash ambient command ∷ [])
    × (opened.access.links ≡ first_link (Unit {0}) hash ambient ∷ [])
unfolding is_access_secret
creator_is_admitted_example =
    creator_is_admitted (Unit {0}) hash ambient command empty opened shown link 5 60 false 9
      is_opened refl refl refl refl (omega arith)

is_shown : get_move_job (Unit {0}) 10 customer opened ≡ ok shown
unfolding get_move_job
is_shown = refl

field_worker_sees_no_address_example :
    get_move_job (Unit {0}) 10 field_worker opened
    ≡ ok (record shown { locations = map (conceal (Unit {0})) shown.locations })
field_worker_sees_no_address_example =
    field_worker_sees_no_address (Unit {0}) 10 customer opened shown is_shown
