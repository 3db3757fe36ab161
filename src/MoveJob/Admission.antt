-- ===== src/MoveJob/Admission.antt =====
-- move_job/service.py and access/service.py: the customer who creates a job is let in.
use Prim.Native.String.{String}
use text.Mathlib.TextPositions.{eq_refl}
use seqret_be.Prelude.{
  ℕ, ◌+◌, ◌≤◌, Bool, true, none, List, [], ◌∷◌, ltb, ◌==◌, ◌≡◌, ap, ◌∙◌, arith, inl, inr,
  Bool-cases, filter, ==_refl,
}
use seqret_be.Prelude.Clock.{Instant}
use seqret_be.Prelude.Pointwise.{first_where}
use seqret_be.Prelude.Transaction.{ok, Result-cases}
use seqret_be.Access.Model.{customer, JobParticipant, AccessToken, Access}
use seqret_be.Access.Links.{
  access_token_ttl, new_link, may_insert, AccessLinkResponse, issue_access_link,
}
use seqret_be.Access.Authenticate.{
  is_access_secret, is_of_link, authenticate_access_token, enforce_access_rate_limit,
  increment_database_rate_window,
}
use seqret_be.MoveJob.Topology.{MoveJobResponse, Store}
use seqret_be.MoveJob.Creation.{Ambient, CustomerMoveJobCreate, create_customer_move_job}

module _ (LocationConditions : Type 0) (hash_secret : String → String) where
  abbrev pub owner : Ambient → CustomerMoveJobCreate LocationConditions → JobParticipant
  owner a command = record {
    id = a.participant_id 0;
    job_id = a.job_id;
    role = customer;
    display_name = command.customer_display_name;
  }

  abbrev pub first_link : Ambient → AccessToken
  first_link a =
      new_link (hash_secret (a.link 0).secret) (a.link 0) (a.participant_id 0)
        ((a.link 0).now + access_token_ttl)

  -- What a creation leaves in the tables of the access.
  created_access :
      (a : Ambient) (command : CustomerMoveJobCreate LocationConditions)
      (db db' : Store LocationConditions) (r : MoveJobResponse LocationConditions)
      (link : AccessLinkResponse)
      → create_customer_move_job LocationConditions hash_secret a command db ≡ ok ((r, link), db')
      → (db'.access.participants ≡ owner a command ∷ db.access.participants)
        × (db'.access.links ≡ first_link a ∷ db.access.links)
        × (db'.access.invitations ≡ db.access.invitations)
        × (link.secret ≡ (a.link 0).secret)
        × (link.job_id ≡ a.job_id)
  unfolding create_customer_move_job issue_access_link
  created_access a command db db' r link h =
      elim (Bool-cases (may_insert (first_link a) db.access.links)) [
        | inr clash ↦ absurd (ground (arith, h, clash))
        | inl free ↦ (
          ground (arith, h, free),
          ground (arith, h, free),
          ground (arith, h, free),
          ground (arith, h, free),
          ground (arith, h, free),
        )
      ]

  -- A new link with its participant lets in who shows its secret.
  admitted :
      (a : Ambient) (command : CustomerMoveJobCreate LocationConditions) (db : Access)
      (ps : List JobParticipant) (ls : List AccessToken) (limit window_seconds : ℕ)
      (allow_pending : Bool) (now : Instant)
      → db.participants ≡ owner a command ∷ ps
      → db.links ≡ first_link a ∷ ls
      → first_where (is_of_link (a.link 0).id) db.invitations ≡ none
      → is_access_secret (a.link 0).secret ≡ true
      → ltb now ((a.link 0).now + access_token_ttl) ≡ true
      → 1 ≤ limit
      → (last : Access) × (authenticate_access_token hash_secret
            (a.link 0).secret
            none
            limit
            window_seconds
            allow_pending
            now
            db
          ≡ ok (
            record {
              participant_id = a.participant_id 0;
              participant_role = customer;
              job_id = a.job_id;
            },
            last,
          ))
  unfolding authenticate_access_token enforce_access_rate_limit increment_database_rate_window
  admitted a command db ps ls limit window_seconds allow_pending now participants links uninvited
        secret live some_limit =
      let own = eq_refl (hash_secret (a.link 0).secret) in
      let id = ==_refl (a.link 0).id in
      let p_id = ==_refl (a.participant_id 0) in
      elim (Result-cases (
        authenticate_access_token hash_secret (a.link 0).secret none limit window_seconds
          allow_pending now db)) [
            | inl ((actor, last), e) ↦ (
              last,
              ground (
                arith, e, own, id, p_id, participants, links, uninvited, secret, live, some_limit,
              ),
            )
            | inr (x, e) ↦ absurd (
                ground (
                  arith, e, own, id, p_id, participants, links, uninvited, secret, live, some_limit,
                ))
          ]

  -- After a customer has created a job, with a fresh job id that no participant has, a link id that
  -- no invitation has, and a secret of the right form, the returned secret is accepted until it
  -- expires, as that of the customer of the new job, where the limit of requests is positive and no
  -- cache is used; the customer is the only participant of the job, and one link is new.
  pub creator_is_admitted :
      (a : Ambient) (command : CustomerMoveJobCreate LocationConditions)
      (db db' : Store LocationConditions) (r : MoveJobResponse LocationConditions)
      (link : AccessLinkResponse) (limit window_seconds : ℕ) (allow_pending : Bool) (now : Instant)
      → create_customer_move_job LocationConditions hash_secret a command db ≡ ok ((r, link), db')
      → first_where (is_of_link (a.link 0).id) db.access.invitations ≡ none
      → filter (λ p. p.job_id == a.job_id) db.access.participants ≡ []
      → is_access_secret (a.link 0).secret ≡ true
      → ltb now ((a.link 0).now + access_token_ttl) ≡ true
      → 1 ≤ limit
      → (last : Access) × (authenticate_access_token hash_secret link.secret none limit
            window_seconds allow_pending now db'.access
          ≡ ok (
            record {
              participant_id = a.participant_id 0;
              participant_role = customer;
              job_id = a.job_id;
            },
            last,
          ))
        × (filter (λ p. p.job_id == a.job_id) db'.access.participants ≡ owner a command ∷ [])
        × (db'.access.links ≡ first_link a ∷ db.access.links)
  creator_is_admitted a command db db' r link limit window_seconds allow_pending now h uninvited
        unused secret live some_limit =
      let (participants, links, invitations, is_secret, of_job) =
        created_access a command db db' r link h in
      let (last, opened) =
        admitted a command db'.access db.access.participants db.access.links limit window_seconds
          allow_pending now participants links
          (ap (first_where (is_of_link (a.link 0).id)) invitations ∙ uninvited) secret live
          some_limit in
      let same = ==_refl a.job_id in
      (
        last,
        ap
              (λ z.
                authenticate_access_token hash_secret z none limit window_seconds allow_pending now
                  db'.access)
              is_secret
            ∙ opened,
        ap (filter (λ p. p.job_id == a.job_id)) participants ∙ ground (arith, same, unused),
        links,
      )
