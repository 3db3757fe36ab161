-- ===== src/BackgroundJob/Policy.antt =====
-- What it takes to create a job, and a request that is sent twice.
use Prim.Native.String.{String}
use seqret_be.Prelude.{
  ◌≤◌, ◌≡◌, refl, sym, true, false, Option, none, some, ◌∷◌, arith, Option-cases, inl, inr,
}
use seqret_be.Prelude.Clock.{Uuid, Instant}
use seqret_be.Prelude.Text.{is_clean}
use seqret_be.Prelude.Table.{find, find_key}
use seqret_be.Prelude.Transaction.{ok}
use seqret_be.Contracts.Maintenance.{media_validation, media_retention_delete}
use seqret_be.BackgroundJob.Model.{
  BackgroundJob, MediaAsset, MoveJob, Db, asset_key, move_key, BackgroundJobResponse, response,
  completed, is_completed, is_deletable,
}
use seqret_be.BackgroundJob.Intent.{
  Ambient, find_intent, is_job, job_of_asset, new_job, create_retention_background_job,
  create_media_deletion_background_job, create_media_validation_background_job,
}

-- The asset and the move job of a deletion that the retention policy allows: the move was completed
-- by the cutoff, and the asset is deletable, with its generation known, and belongs to the move.
pub record Retained (job_id asset_id : Uuid) (cutoff : Instant) (db : Db) (asset : MediaAsset)
    (move_job : MoveJob) : Type 0 where
  pub asset_found : find asset_key asset_id db.assets ≡ some asset
  pub move_found : find move_key job_id db.moves ≡ some move_job
  pub belongs : job_of_asset db asset ≡ some job_id
  pub move_completed : move_job.status ≡ completed
  pub completed_in_time : (at : Instant) × (move_job.completed_at ≡ some at) × (at ≤ cutoff)
  pub deletable : is_deletable asset.status ≡ true
  pub generation : (g : _) × (asset.generation ≡ some g) × (is_clean (some g) ≡ true)

is_job-some : (j : Uuid) (o : Option Uuid) → is_job j o ≡ true → o ≡ some j
is_job-some j none h = absurd (ground arith)
is_job-some j (some k) h = ground arith

not_clean : is_clean none ≡ false
unfolding is_clean
not_clean = refl

is_completed-completed : (m : MoveJob) → is_completed m.status ≡ true → m.status ≡ completed
is_completed-completed m h = ground arith

-- If no deletion job of the asset exists and create_retention_background_job returns, then the
-- asset belongs to the move job, which was completed by the cutoff, the asset is deletable and its
-- generation known, and the new job targets the object and the generation of the asset.
pub create_retention_policy :
    (a : Ambient) (job_id media_asset_id : Uuid) (participant_id : Option Uuid) (cutoff : Instant)
    (trace_id : String) (scheduled_at : Option Instant) (db db' : Db) (x : BackgroundJobResponse)
    → find_intent media_retention_delete media_asset_id db.jobs ≡ none
    → create_retention_background_job a job_id media_asset_id participant_id cutoff trace_id
        scheduled_at db
      ≡ ok (x, db')
    → (asset : MediaAsset) × (move_job : MoveJob) × Retained job_id media_asset_id cutoff db asset
        move_job
      × (r : BackgroundJob) × (db'.jobs ≡ r ∷ db.jobs)
      × (x ≡ response r)
      × (r.target_object_key ≡ asset.object_key)
      × (some r.target_generation ≡ asset.generation)
unfolding create_retention_background_job create_media_deletion_background_job
create_retention_policy a job_id asset_id p cutoff t s db db' x fresh h =
    elim (Option-cases (find asset_key asset_id db.assets)) [
      | inl missing ↦ absurd (ground arith)
      | inr (asset, found) ↦ elim (Option-cases (find move_key job_id db.moves)) [
        | inl missing ↦ absurd (ground arith)
        | inr (move_job, found') ↦ elim (Option-cases asset.generation) [
          | inl missing ↦ absurd (ground (arith, missing, not_clean))
          | inr (g, has) ↦ elim (Option-cases move_job.completed_at) [
            | inl missing ↦ absurd (ground (arith, missing))
            | inr (at, when) ↦
                let same_id = find_key asset_key asset_id db.assets asset found in
                (
                  asset,
                  move_job,
                  record {
                    asset_found = found;
                    move_found = found';
                    belongs = is_job-some job_id (job_of_asset db asset) (ground arith);
                    move_completed = is_completed-completed move_job (ground arith);
                    completed_in_time = (at, when, ground arith);
                    deletable = ground arith;
                    generation = (g, has, ground arith);
                  },
                  new_job a job_id asset media_retention_delete g none none t s p,
                  ground (arith, same_id),
                  ground (arith, same_id),
                  refl,
                  sym has,
                )
          ]
        ]
      ]
    ]

-- A validation that was created or found, when it is requested again by anyone, is answered with
-- the same job and nothing is created.
pub create_validation_again :
    (a b : Ambient) (job_id media_asset_id first second : Uuid) (trace_id other_trace_id : String)
    (scheduled_at rescheduled_at : Option Instant) (db db' : Db) (x : BackgroundJobResponse)
    → create_media_validation_background_job a job_id media_asset_id first trace_id scheduled_at db
      ≡ ok (x, db')
    → create_media_validation_background_job b job_id media_asset_id second other_trace_id
        rescheduled_at db'
      ≡ ok (x, db')
unfolding create_media_validation_background_job
create_validation_again a b job_id asset_id p q t u s v db db' x h =
    elim (Option-cases (find asset_key asset_id db.assets)) [
      | inl missing ↦ absurd (ground arith)
      | inr (asset, found) ↦ elim (Option-cases (find_intent media_validation asset.id db.jobs)) [
        | inl fresh ↦ ground arith
        | inr (r, existing) ↦ ground arith
      ]
    ]
