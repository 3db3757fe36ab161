-- ===== src/BackgroundJob/Lifetime.antt =====
-- What stays of a job, whatever commands are committed.
use seqret_be.Prelude.{ℕ, ◌≤◌, ◌≡◌, sym, subst, ap, ◌∙◌, some, List, arith}
use native.Mathlib.Decide.{ℕ_discrete}
use seqret_be.Prelude.Clock.{Uuid}
use seqret_be.Prelude.Table.{find, find-put, find-put_ne, find_key, find-Without}
use seqret_be.BackgroundJob.Model.{BackgroundJob, Db, job_key, succeeded}
use seqret_be.BackgroundJob.Rows.{Evolves}
use seqret_be.BackgroundJob.Changes.{Change, kept, created, updated}
use seqret_be.BackgroundJob.Steps.{
  Changes, start, then, Step-Changes, Reach, here, next, IsValidJobs, Reach-IsValidJobs,
}

-- What stays of a job for good: its identity and its pinned target; attempts only grow.
pub record Persists (r r' : BackgroundJob) : Type 0 where
  pub id : r'.id ≡ r.id
  pub move_job_id : r'.move_job_id ≡ r.move_job_id
  pub media_asset_id : r'.media_asset_id ≡ r.media_asset_id
  pub job_type : r'.job_type ≡ r.job_type
  pub target_object_key : r'.target_object_key ≡ r.target_object_key
  pub target_generation : r'.target_generation ≡ r.target_generation
  pub target_content_type : r'.target_content_type ≡ r.target_content_type
  pub target_size_bytes : r'.target_size_bytes ≡ r.target_size_bytes
  pub trace_id : r'.trace_id ≡ r.trace_id
  pub attempt_count : r.attempt_count ≤ r'.attempt_count
  pub succeeded_final : r.status ≡ succeeded → r'.status ≡ succeeded

Evolves-Persists : {r r' : BackgroundJob} → Evolves r r' → Persists r r'
Evolves-Persists e = record {
  id = e.id;
  move_job_id = e.move_job_id;
  media_asset_id = e.media_asset_id;
  job_type = e.job_type;
  target_object_key = e.target_object_key;
  target_generation = e.target_generation;
  target_content_type = e.target_content_type;
  target_size_bytes = e.target_size_bytes;
  trace_id = e.trace_id;
  attempt_count = e.attempt_count;
  succeeded_final = λ p. ground (arith, e.status, p);
}

Persists-refl : (r : BackgroundJob) → Persists r r
Persists-refl r = ground arith

Persists-trans : (r s t : BackgroundJob) → Persists r s → Persists s t → Persists r t
Persists-trans r s t a b = record {
  id = b.id ∙ a.id;
  move_job_id = b.move_job_id ∙ a.move_job_id;
  media_asset_id = b.media_asset_id ∙ a.media_asset_id;
  job_type = b.job_type ∙ a.job_type;
  target_object_key = b.target_object_key ∙ a.target_object_key;
  target_generation = b.target_generation ∙ a.target_generation;
  target_content_type = b.target_content_type ∙ a.target_content_type;
  target_size_bytes = b.target_size_bytes ∙ a.target_size_bytes;
  trace_id = b.trace_id ∙ a.trace_id;
  attempt_count = omega (arith, a.attempt_count, b.attempt_count);
  succeeded_final = λ p. b.succeeded_final (a.succeeded_final p);
}

abbrev pub JobRemains : ℕ → BackgroundJob → List BackgroundJob → Type 0
JobRemains k r t = (r' : BackgroundJob) × (find job_key k t ≡ some r') × Persists r r'

Change-JobRemains :
    {j : ℕ} {t t' : List BackgroundJob} (k : ℕ) (r : BackgroundJob)
    → find job_key k t ≡ some r
    → Change j t t'
    → JobRemains k r t'
Change-JobRemains {j} {t} k r found (kept same) =
    (r, ap (find job_key k) same ∙ found, Persists-refl r)
Change-JobRemains {j} {t} k r found (created s fresh good same) = (
  r,
  ap (find job_key k) same ∙ ground (arith, found, find-Without job_key s.id t fresh),
  Persists-refl r,
)
Change-JobRemains {j} {t} k r found (updated s s' at_j e same) =
    let s'_key : s'.id ≡ j = e.id ∙ find_key job_key j t s at_j in
    elim (ℕ_discrete k j) [
      | yes same_key ↦
          let same_row : s ≡ r = cc (ap (λ i. find job_key i t) same_key) in
          (
            s',
            ap (find job_key k) same ∙ find-put job_key k s' r t found (s'_key ∙ sym same_key),
            subst (λ x. Persists x s') same_row (Evolves-Persists e),
          )
      | no ne ↦ (
        r,
        ap (find job_key k) same ∙ find-put_ne job_key k s' t (λ q. ne (q ∙ s'_key)) ∙ found,
        Persists-refl r,
      )
    ]

Changes-JobRemains :
    {t t' : List BackgroundJob} (k : ℕ) (r : BackgroundJob)
    → find job_key k t ≡ some r
    → Changes t t'
    → JobRemains k r t'
Changes-JobRemains k r found start = (r, found, Persists-refl r)
Changes-JobRemains k r found (then cs c) =
    let (s, at_mid, first) = Changes-JobRemains k r found cs in
    let (u, at_last, second) = Change-JobRemains k s at_mid c in
    (u, at_last, Persists-trans r s u first second)

-- From a valid table, whatever commands are committed, each job keeps a row with the same identity
-- and pinned object, its attempts only grow, and once it succeeded it stays so.
pub Reach-JobRemains :
    {uuid4 : ℕ → Uuid} {db db' : Db} (k : ℕ) (r : BackgroundJob)
    → IsValidJobs db.jobs
    → find job_key k db.jobs ≡ some r
    → Reach uuid4 db db'
    → JobRemains k r db'.jobs
Reach-JobRemains k r v found here = (r, found, Persists-refl r)
Reach-JobRemains k r v found (next steps step) =
    let (s, at_mid, first) = Reach-JobRemains k r v found steps in
    let (u, at_last, second) =
      Changes-JobRemains k s at_mid (Step-Changes (Reach-IsValidJobs v steps).keyed step) in
    (u, at_last, Persists-trans r s u first second)

-- From a valid table, a job that succeeded stays so, whatever commands are committed.
pub succeeded_stays :
    {uuid4 : ℕ → Uuid} {db db' : Db} (k : ℕ) (r : BackgroundJob)
    → IsValidJobs db.jobs
    → find job_key k db.jobs ≡ some r
    → r.status ≡ succeeded
    → Reach uuid4 db db'
    → (r' : BackgroundJob) × (find job_key k db'.jobs ≡ some r') × (r'.status ≡ succeeded)
succeeded_stays k r v found done steps =
    let (r', found', keeps) = Reach-JobRemains k r v found steps in
    (r', found', keeps.succeeded_final done)
