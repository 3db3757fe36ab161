-- ===== src/Access/Authenticate.antt =====
-- access/service.py: resolving a bearer secret, within a fixed window of requests.
use Prim.Native.String.{String}
use seqret_be.Prelude.{
  ℕ, ◌+◌, ◌-◌, ◌/◌, Bool, true, false, not, ◌&&◌, ◌||◌, Option, none, some, ltb, leb, ◌==◌,
  if◌then◌else◌, is_none, keep, length,
}
use seqret_be.Prelude.Clock.{Uuid, Instant, seconds}
use seqret_be.Prelude.Text.{codes, all, in_range}
use seqret_be.Prelude.Table.{find, put}
use seqret_be.Prelude.Pointwise.{first_where}
use seqret_be.Prelude.Transaction.{
  Command, Result, ok, err, no_result, invalid_token, rate_limited, provider_failure, assertion,
}
use seqret_be.Contracts.Ports.{
  ProviderErrorKind, unavailable, deadline_exceeded, Exception, provider_error, other_error,
}
use seqret_be.Access.Model.{
  ParticipantRole, JobParticipant, AccessToken, is_pending, is_accepted, Invitation,
  participant_connected, Access, participant_key, link_key,
}
use seqret_be.Access.Links.{has_hash, add_audit_event, link_payload}

-- `ACCESS_SECRET_PATTERN.fullmatch`: 40 to 100 letters, digits, `_` and `-`.
abbrev pub is_secret_character : ℕ → Bool
is_secret_character c =
    in_range b'A' b'Z' c || in_range b'a' b'z' c || in_range b'0' b'9' c || c == b'_' || c == b'-'

unfoldable pub is_access_secret : String → Bool
is_access_secret s =
    leb 40 (length (codes s)) && leb (length (codes s)) 100 && all is_secret_character (codes s)

-- The row is still the active link that the request was authenticated by.
abbrev pub is_usable : String → Instant → AccessToken → Bool
is_usable hash now l = has_hash hash l && is_none l.revoked_at && ltb now l.expires_at

-- `window_expired`
abbrev pub is_window_over : Instant → ℕ → AccessToken → Bool
is_window_over now window_seconds l = elim l.rate_window_started_at [
  | none ↦ true
  | some started ↦ leb (started + seconds window_seconds) now
]

abbrev pub counted : Instant → ℕ → AccessToken → AccessToken
counted now window_seconds l = record l {
  rate_window_started_at =
      if is_window_over now window_seconds l then some now else l.rate_window_started_at;
  rate_window_count = if is_window_over now window_seconds l then 1 else l.rate_window_count + 1;
}

abbrev pub write_link : AccessToken → Access → Access
write_link l db = record db { links = put link_key l db.links }

-- `_increment_database_rate_window`
unfoldable pub increment_database_rate_window :
    Uuid
    → (expected_token_hash : String) (now : Instant) (window_seconds : ℕ)
    → Command Access (ℕ × Instant)
increment_database_rate_window link_id hash now window_seconds db =
    elim (keep (is_usable hash now) (find link_key link_id db.links)) [
      | none ↦ err invalid_token
      | some l ↦ elim ((counted now window_seconds l).rate_window_started_at) [
        | none ↦ err assertion
        | some started ↦ ok (
          ((counted now window_seconds l).rate_window_count, started),
          write_link (counted now window_seconds l) db,
        )
      ]
    ]

-- What the cache answers: the count of its own window, or an exception.
pub data CacheAnswer : Type 0 where
  counted_to : ℕ → CacheAnswer
  raised : Exception → CacheAnswer

-- `max(1, ceil((window_ends_at - now).total_seconds()))`
abbrev pub retry_after : Instant → ℕ → Instant → ℕ
retry_after started window_seconds now =
    let wait = (started + seconds window_seconds - now + 999999) / 1000000 in
    if wait == 0 then 1 else wait

-- The kinds of an error of the cache that let the database decide alone.
abbrev pub falls_back : ProviderErrorKind → Bool
falls_back deadline_exceeded = true
falls_back unavailable = true
falls_back _ = false

abbrev pub cache_verdict : Option CacheAnswer → (limit window_seconds : ℕ) → Result (Unit {0})
cache_verdict none limit window_seconds = ok tt
cache_verdict (some (counted_to n)) limit window_seconds =
    if ltb limit n then err (rate_limited window_seconds) else ok tt
cache_verdict (some (raised (provider_error e))) limit window_seconds =
    if falls_back e.kind then ok tt else err provider_failure
cache_verdict (some (raised other_error)) limit window_seconds = err provider_failure

-- `_enforce_access_rate_limit`; `cache` is what the cache answers, if there is one.
unfoldable pub enforce_access_rate_limit :
    AccessToken
    → (cache : Option CacheAnswer) (now : Instant) (limit window_seconds : ℕ)
    → Command Access (Unit {0})
enforce_access_rate_limit link cache now limit window_seconds db =
    elim (increment_database_rate_window link.id link.token_hash now window_seconds db) [
      | err x ↦ err x
      | ok ((count, started), db') ↦
          if ltb limit count
          then err (rate_limited (retry_after started window_seconds now))
          else elim (cache_verdict cache limit window_seconds) [
            | err x ↦ err x
            | ok _ ↦ ok (tt, db')
          ]
    ]

-- `class ActorContext`, of a participant, without the correlation ids.
pub record Actor : Type 0 where
  pub participant_id : Uuid
  pub participant_role : ParticipantRole
  pub job_id : Uuid

abbrev pub is_of_link : Uuid → Invitation → Bool
is_of_link link_id i = i.access_link_id == link_id

-- The link's invitation, if there is one, lets its invitee in.
abbrev pub admits : Option Invitation → (now : Instant) (allow_pending : Bool) → Bool
admits none now allow_pending = true
admits (some i) now allow_pending =
    (is_pending i.status || is_accepted i.status)
    && ltb now i.expires_at
    && not (is_pending i.status && not allow_pending)

abbrev pub is_connected : Option Invitation → Bool
is_connected none = true
is_connected (some i) = is_accepted i.status

-- The first use of a link is marked, and audited unless its invitation is pending.
abbrev pub mark_used : AccessToken → JobParticipant → Option Invitation → Instant → Access → Access
mark_used l p invitation now db =
    let marked = write_link (record l { last_used_at = some now }) db in
    if is_none l.last_used_at && is_connected invitation
    then add_audit_event p.job_id participant_connected (some p.id) (link_payload l.id p) marked
    else marked

module _ (hash_secret : String → String) where
  -- `authenticate_access_token`
  unfoldable pub authenticate_access_token :
      (secret : String) (cache : Option CacheAnswer) (limit window_seconds : ℕ)
      (allow_pending : Bool) (now : Instant)
      → Command Access Actor
  authenticate_access_token secret cache limit window_seconds allow_pending now db =
      if not (is_access_secret secret)
      then err invalid_token
      else elim (keep (is_usable (hash_secret secret) now)
          (first_where (has_hash (hash_secret secret)) db.links)) [
            | none ↦ err invalid_token
            | some l ↦
                let invitation = first_where (is_of_link l.id) db.invitations in
                if not (admits invitation now allow_pending)
                then err invalid_token
                else elim (find participant_key l.participant_id db.participants) [
                  | none ↦ err no_result
                  | some p ↦ elim (enforce_access_rate_limit l cache now limit window_seconds db) [
                    | err x ↦ err x
                    | ok (_, db') ↦ elim (find link_key l.id db'.links) [
                      | none ↦ err no_result
                      | some l' ↦ ok (
                        record {
                          participant_id = p.id;
                          participant_role = p.role;
                          job_id = p.job_id;
                        },
                        mark_used l' p invitation now db',
                      )
                    ]
                  ]
                ]
          ]
