-- ===== src/Dispatch/Announced.antt =====
-- dispatch/service.py: a confirmation and its event are one transaction.
use Prim.Native.String.{String}
use seqret_be.Prelude.{
  true, Option, none, some, ◌∷◌, ◌≡◌, refl, sym, ap, ◌∙◌, subst, arith, inl, inr, Bool-cases,
}
use seqret_be.Prelude.Clock.{Uuid}
use seqret_be.Prelude.Transaction.{ok}
use seqret_be.Contracts.Events.{
  DomainEventType, DomainEvent, Payload, dispatch_confirmed, is_accepted, build_event, field, uuid,
}
use seqret_be.Outbox.{Outbox, new_row, or_else, or_hex, enqueue_domain_event}
use seqret_be.Outbox as OutboxEvents
use seqret_be.Dispatch.Model.{DispatchConfirmCreate, DispatchPlan, Db}
use seqret_be.Dispatch.Lookups.{plan_of}
use seqret_be.Dispatch.Commands.{Ambient}
use seqret_be.Dispatch.Confirm.{confirm_dispatch}
use seqret_be.Dispatch.Plans.{confirm_dispatch_inv, again, first, added}
use seqret_be.Dispatch.Changes.{loaded_id}

-- What an event that was enqueued carries.
enqueued :
    (a : OutboxEvents.Ambient) (event_type : DomainEventType) (job_id : Uuid) (actor : Option Uuid)
    (trace_id : Option String) (payload : Payload) (box box' : Outbox) (e : DomainEvent)
    → enqueue_domain_event a event_type job_id actor trace_id payload none box ≡ ok (e, box')
    → (is_accepted e ≡ true)
      × (e.event_type ≡ event_type)
      × (e.aggregate_id ≡ job_id)
      × (e.actor_id ≡ actor)
      × (e.payload ≡ payload)
      × (box'.events ≡ new_row e ∷ box.events)
unfolding enqueue_domain_event build_event
enqueued a event_type job_id actor trace_id payload box box' e h =
    let built : DomainEvent = record {
      event_id = a.uuid;
      event_type = event_type;
      schema_version = 1;
      aggregate_id = job_id;
      occurred_at = a.now;
      actor_id = actor;
      trace_id = or_hex trace_id a.hex;
      payload = payload;
    } in
    elim (Bool-cases (is_accepted built)) [
      | inr refused ↦ absurd (ground (arith, h, refused))
      | inl accepted ↦
          let is_built : built ≡ e = ground (arith, h, accepted) in
          let after : record box { events = new_row built ∷ box.events } ≡ box' =
            ground (arith, h, accepted) in
          subst
            (λ z.
              (is_accepted z ≡ true)
              × (z.event_type ≡ event_type)
              × (z.aggregate_id ≡ job_id)
              × (z.actor_id ≡ actor)
              × (z.payload ≡ payload)
              × (box'.events ≡ new_row z ∷ box.events))
            is_built (accepted, refl, refl, refl, refl, sym (ap (λ b. b.events) after))
    ]

-- The first confirmation of a job adds its plan and one event, of the type dispatch_confirmed, that
-- passes the validators of events and names the job, the participant, the plan and its scope
-- version.
pub confirmation_announces :
    (hash : DispatchConfirmCreate → String) (a : Ambient) (trace_id : String)
    (job_id participant_id : Uuid) (command : DispatchConfirmCreate) (db db' : Db)
    (p : DispatchPlan)
    → plan_of job_id db ≡ none
    → confirm_dispatch hash a trace_id job_id participant_id command db ≡ ok (p, db')
    → (e : DomainEvent) × (db'.outbox.events ≡ new_row e ∷ db.outbox.events)
      × (db'.plans ≡ p ∷ db.plans)
      × (is_accepted e ≡ true)
      × (e.event_type ≡ dispatch_confirmed)
      × (e.aggregate_id ≡ job_id)
      × (e.actor_id ≡ some participant_id)
      × (field "dispatch_id" e.payload ≡ uuid p.id)
      × (field "scope_version_id" e.payload ≡ uuid p.source_scope_version_id)
confirmation_announces hash a trace_id job_id participant_id command db db' p none_yet h =
    elim (confirm_dispatch_inv hash a trace_id job_id participant_id command db db' p h) [
      | again found same last ↦ absurd (ground (arith, none_yet, found))
      | first job loaded unset
            (added start_at m w s v e outbox is_open manages has current works valid free is_new
              sent last) ↦
          let own = loaded_id job_id db job loaded in
          let (accepted, kind, of_job, actor, payload, row) =
            enqueued a.event dispatch_confirmed job.id _ _ _ db.outbox outbox e sent in
          (
            e,
            ap (λ d. d.outbox.events) last ∙ row,
            ap (λ d. d.plans) last ∙ ap (λ q. q ∷ db.plans) (sym is_new),
            accepted,
            kind,
            of_job ∙ own,
            actor,
            ap (field "dispatch_id") payload ∙ ap (λ q. uuid q.id) (sym is_new),
            ap (field "scope_version_id") payload
                ∙ ap (λ q. uuid q.source_scope_version_id) (sym is_new),
          )
    ]
