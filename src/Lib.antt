-- ===== src/Lib.antt =====
-- Verification of the SEQRET backend (app/), a modular monolith on FastAPI and PostgreSQL. Its
-- business modules change rows in a transaction and write an event to an outbox in the same
-- transaction; a relay leases the due events, publishes them, and records the outcome; long media
-- work is a background job that is claimed, handed to a task queue, run by a worker, and
-- completed.
--
-- Files:
--
-- The module Prelude: Boolean tests on the native numbers, lists (Lists), tables as lists of rows
-- with a key (Table), commands in a transaction with the exceptions as values (Transaction), time
-- (Clock), texts (Text).
--
-- The module Contracts: app/contracts. Ports is ports.py (ProviderErrorKind, ProviderError),
-- Events is events.py (DomainEvent and its validators), Maintenance is maintenance.py (the
-- messages of the media queue).
--
-- The module Outbox: app/platform/event_bus/service.py and models.py. The file holds the commands
-- under their Python names, Invariant the CHECK constraints, Leases what a claim does and what
-- others may do while a lease lives, Finalize what mark_outbox_published and mark_outbox_failed
-- do, Steps any sequence of commands by any workers, Relay is relay_outbox_once, and Relay/Runs
-- and Relay/Effect are about it.
--
-- The module BackgroundJob: app/modules/background_job/service.py and models.py. Model holds the
-- rows, with those columns of app/modules/capture/models.py and app/modules/move_job/models.py
-- that the service reads; Intent the creation, retry and listing; Dispatch the claim,
-- finalize_background_job_dispatch and dispatch_background_jobs_once; Execute the start and the
-- completion of an attempt. Rows and Changes say what one command may do to a row, Claims what
-- the loop of a claim does, Leases what a claim does to a row and what others may do meanwhile,
-- Steps is any sequence of commands, Lifetime what stays of a job, Runs is about the dispatch
-- pass, Attempts about a worker's calls, Race about a worker that is faster than the dispatcher,
-- Policy about the creation of a job.
--
-- The module Notification: app/modules/notification/delivery.py, service.py, consumer.py and
-- models.py. Model holds the rows and messages, Delivery the claim, _mark_sent and _mark_failure,
-- Pass is deliver_external_notifications_once as turns of its workers in any order, Pass/Bounds
-- and Pass/Progress are about it, and Attempts about one claim. Consume is
-- consume_notification_event of service.py, Commands its other commands, Consumer is consumer.py;
-- Receipts says what a consumption keeps, and Redelivery is about acknowledged and repeated
-- messages.
--
-- The module Access: app/modules/access/service.py, invitations.py and models.py, with
-- revoke_workspace_memberships of workspace.py and add_audit_event of
-- app/modules/completion/service.py. Model holds the rows, Links the issue, rotation and
-- revocation of a link, Authenticate the bearer check and its rate window, Invitations, Answers
-- and Reissue the commands on invitations. Revocation says what a revocation may do to the rows,
-- RevokedLinks and RevokedTrees what it leaves behind, Refusal joins it with the bearer check,
-- Rate about the window, Delegation about a new invitation.
--
-- The module MoveJob: the list, the creation, the response and the cancellation of
-- app/modules/move_job/service.py. Topology is get_move_job with _to_response, Creation is
-- create_move_job and create_customer_move_job, where the conditions of a location are passed on
-- and their type is a parameter, and Admission is about the link that a creation issues. Base64
-- and Decimal are what Python does to the bytes of a cursor, Cursor is _encode_list_cursor and
-- _decode_list_cursor on ASCII codes, Listing is list_move_jobs up to the summaries, Cancel is
-- cancel_move_job and _company_status_from_invitation, and Paging is about a client that follows
-- the cursors.
--
-- The module Workspace: app/modules/access/workspace.py. Sessions resolves the cookie, Membership
-- joins a capability to a session and resolves the code of a job, Contacts holds the contact
-- points; Isolation is about a new session, and Withdrawal about a deleted contact point.
--
-- The module Dispatch: app/modules/dispatch/service.py, models.py and schemas.py, with the
-- columns that they read of app/modules/move_job/models.py and app/modules/scope/models.py. Model
-- holds the rows and requests, Requests the validators of schemas.py, Lookups the reads and
-- guards, Options the ids of a snapshot, Checks is _dispatch_checks, View is get_dispatch_view,
-- Commands is create_dispatch_setup, Confirm is confirm_dispatch, and CheckIn is
-- check_in_field_worker. Effects, Plans and Arrivals say what a command that returned has found
-- and left, Changes and Lifecycle what any command may change, and Invariants what a sequence
-- keeps; Selection, Accepted, Confirmed and Announced are about a confirmation, Once and Arrived
-- about repeated requests, and Refinement about the phases of a job. The details of a check are
-- kept as data in place of their wording, and the digest of a command is a parameter.
--
-- How the code is rendered: a command takes the tables and returns a value with the new tables,
-- or an exception and then nothing is committed, as the surrounding transaction rolls back. A
-- table is a list of rows; an update by primary key replaces the row with that key; SELECT … FOR
-- UPDATE SKIP LOCKED is given by a parameter `busy`, which names the rows that another
-- transaction has locked. Between the two transactions of a relay or dispatch pass a parameter
-- `meanwhile` stands for what other processes commit. uuid4, the event bus, the task queue, the
-- notification provider, the text of a deep link, the digest of a secret, the answers of the
-- cache, the match of a code with the id of a job, the JSON validator of an event, the pattern
-- match of a search, and the clock are parameters; the number of tokens drawn is part of the
-- state, so that each draw can differ.
--
-- Time is a number of microseconds, and durations in seconds are multiplied by 10^6. Ids are
-- numbers. A negative number in an argument meets the same guard as 0, so arguments are natural
-- numbers. A JSON text that is a canonical UUID is a case of its own. A transaction's own reads
-- and writes are atomic, as row locks make them. The recursion of _revoke_invitation_tree takes a
-- depth of 2, the levels of a tree that create_invitation grows, where a customer invites a
-- company and a company a field worker; below that the model raises a recursion error; the digits
-- of a number take as many steps as the number; the workers' loop of a delivery pass is a
-- sequence of turns, whose number is bounded. All else follows a list.
--
-- Not modelled: the field brief of a dispatch, which only reads; the lengths of texts; the time
-- zone check of create_retention_background_job, as every instant here is UTC; foreign keys, but
-- where a theorem takes them as a hypothesis; the unique constraint of a fresh primary key, which
-- a fresh id is assumed to meet; logging and tracing. Of the module access the normal form and
-- the mask of a contact's destination, and of move_job the patch and summary of jobs are not
-- modelled. The modules capture, analysis, analysis_review, analysis_workflow, scope,
-- scope_review, field_change, completion and media_processing, the HTTP routers, the provider
-- adapters and the process entry points are not modelled either.
pub mod Prelude
pub mod Contracts
pub mod Outbox
pub mod BackgroundJob
pub mod Notification
pub mod Access
pub mod MoveJob
pub mod Workspace
pub mod Dispatch
