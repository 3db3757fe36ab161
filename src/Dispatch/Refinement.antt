-- ===== src/Dispatch/Refinement.antt =====
-- dispatch/service.py, seen from one job and one worker: a life cycle of four phases.
use Prim.Native.String.{String}
use seqret_be.Prelude.{
  ◌&&◌, Option, none, some, ◌∷◌, ◌==◌, ◌≡◌, sym, ap, ◌∙◌, subst, arith, inl, inr, ◌⊎◌, Bool-cases,
  Option-cases, eq_of_==,
}
use seqret_be.Prelude.Clock.{Uuid}
use seqret_be.Prelude.Table.{find}
use seqret_be.Prelude.Pointwise.{first_where}
use seqret_be.Dispatch.Model.{
  DispatchSetupCreate, DispatchSetup, DispatchConfirmCreate, DispatchPlan, FieldCheckIn, Db,
}
use seqret_be.Dispatch.Lookups.{setup_job, plan_job, setup_of, plan_of, check_in_of}
use seqret_be.Dispatch.Changes.{Change, unchanged, setup_added, plan_added, check_in_added}
use seqret_be.Dispatch.Lifecycle.{IsConsistent}
use seqret_be.Dispatch.Invariants.{Reach, here, next, Reach-IsConsistent, IsConsistent-Change}

-- What has been decided for a job and a worker, by the ids of the rows.
pub data Phase : Type 0 where
  unset : Phase
  prepared : (setup : Uuid) → Phase
  assigned : (setup plan : Uuid) → Phase
  arrived : (setup plan check_in : Uuid) → Phase

-- The specification: each phase is entered from the one before it, and never left but forwards.
pub data Next : Phase → Phase → Type 0 where
  prepare : (s : Uuid) → Next unset (prepared s)
  assign : (s p : Uuid) → Next (prepared s) (assigned s p)
  arrive : (s p c : Uuid) → Next (assigned s p) (arrived s p c)

pub data Run (x : Phase) : Phase → Type 0 where
  stay : Run x x
  then_ : {y z : Phase} → Run x y → Next y z → Run x z

-- The phase that the tables show.
abbrev pub phase_from : Option DispatchSetup → Option DispatchPlan → Option FieldCheckIn → Phase
phase_from none _ _ = unset
phase_from (some s) none _ = prepared s.id
phase_from (some s) (some p) none = assigned s.id p.id
phase_from (some s) (some p) (some c) = arrived s.id p.id c.id

abbrev pub phase : Uuid → Uuid → Db → Phase
phase job_id participant_id db =
    phase_from (setup_of job_id db) (plan_of job_id db) (check_in_of job_id participant_id db)

moves : (x y x' y' : Phase) → x ≡ x' → y ≡ y' → Next x' y' → (y ≡ x) ⊎ Next x y
moves x y x' y' e f n = inr (subst (λ z. Next z y) (sym e) (subst (λ z. Next x' z) (sym f) n))

-- The phase depends on three lookups only.
same_phase :
    (job_id participant_id : Uuid) (db db' : Db)
    → setup_of job_id db' ≡ setup_of job_id db
    → plan_of job_id db' ≡ plan_of job_id db
    → check_in_of job_id participant_id db' ≡ check_in_of job_id participant_id db
    → (phase job_id participant_id db' ≡ phase job_id participant_id db)
      ⊎ Next (phase job_id participant_id db) (phase job_id participant_id db')
same_phase job_id participant_id db db' a b c = inl (
    ap (λ z. phase_from z (plan_of job_id db') (check_in_of job_id participant_id db')) a
    ∙ ap (λ z. phase_from (setup_of job_id db) z (check_in_of job_id participant_id db')) b
    ∙ ap (λ z. phase_from (setup_of job_id db) (plan_of job_id db) z) c)

no_plan :
    (job_id : Uuid) (db : Db)
    → IsConsistent db
    → setup_of job_id db ≡ none
    → plan_of job_id db ≡ none
no_plan job_id db c h = elim (Option-cases (plan_of job_id db)) [
  | inl none_yet ↦ none_yet
  | inr (p, found) ↦
      let (s, has, names) = c.planned job_id p found in absurd (ground (arith, h, has))
]

no_check_in :
    (job_id participant_id : Uuid) (db : Db)
    → IsConsistent db
    → plan_of job_id db ≡ none
    → check_in_of job_id participant_id db ≡ none
no_check_in job_id participant_id db c h =
    elim (Option-cases (check_in_of job_id participant_id db)) [
      | inl none_yet ↦ none_yet
      | inr (r, found) ↦
          let (p, has, names) = c.checked_in job_id participant_id r found in
          absurd (ground (arith, h, has))
    ]

-- A change is a step of the specification, or leaves the phase.
pub Change-Next :
    (job_id participant_id : Uuid) (db db' : Db)
    → IsConsistent db
    → Change db db'
    → (phase job_id participant_id db' ≡ phase job_id participant_id db)
      ⊎ Next (phase job_id participant_id db) (phase job_id participant_id db')
Change-Next j q db db' c (unchanged x y z) =
    same_phase j q db db' (ap (find setup_job j) x) (ap (find plan_job j) y)
      (ap (first_where (λ r. r.job_id == j && r.participant_id == q)) z)
Change-Next j q db db' c (setup_added s fresh keyed x y z) =
    let plans : plan_of j db' ≡ plan_of j db = ap (find plan_job j) y in
    let check_ins : check_in_of j q db' ≡ check_in_of j q db =
      ap (first_where (λ r. r.job_id == j && r.participant_id == q)) z in
    let setups : setup_of j db' ≡ find setup_job j (s ∷ db.setups) = ap (find setup_job j) x in
    elim (Bool-cases (s.job_id == j)) [
      | inr other ↦ same_phase j q db db' (setups ∙ ground (arith, other)) plans check_ins
      | inl own ↦
          let same = eq_of_== s.job_id j own in
          let unset_here : setup_of j db ≡ none = subst (λ k. setup_of k db ≡ none) same fresh in
          let unplanned = no_plan j db c unset_here in
          moves _ _ unset (prepared s.id) (ground (arith, unset_here))
            (ground (arith, setups, own, plans, unplanned)) (prepare s.id)
    ]
Change-Next j q db db' c (plan_added s p fresh has names x y z) =
    let setups : setup_of j db' ≡ setup_of j db = ap (find setup_job j) x in
    let check_ins : check_in_of j q db' ≡ check_in_of j q db =
      ap (first_where (λ r. r.job_id == j && r.participant_id == q)) z in
    let plans : plan_of j db' ≡ find plan_job j (p ∷ db.plans) = ap (find plan_job j) y in
    elim (Bool-cases (p.job_id == j)) [
      | inr other ↦ same_phase j q db db' setups (plans ∙ ground (arith, other)) check_ins
      | inl own ↦
          let same = eq_of_== p.job_id j own in
          let planless : plan_of j db ≡ none = subst (λ k. plan_of k db ≡ none) same fresh in
          let set_up : setup_of j db ≡ some s = subst (λ k. setup_of k db ≡ some s) same has in
          let absent = no_check_in j q db c planless in
          moves _ _ (prepared s.id) (assigned s.id p.id) (ground (arith, set_up, planless))
            (ground (arith, setups, set_up, plans, own, check_ins, absent)) (assign s.id p.id)
    ]
Change-Next j q db db' c (check_in_added p r fresh has names x y z) =
    let setups : setup_of j db' ≡ setup_of j db = ap (find setup_job j) x in
    let plans : plan_of j db' ≡ plan_of j db = ap (find plan_job j) y in
    let check_ins : check_in_of j q db'
        ≡ first_where (λ v. v.job_id == j && v.participant_id == q) (r ∷ db.check_ins) =
      ap (first_where (λ v. v.job_id == j && v.participant_id == q)) z in
    elim (Bool-cases (r.job_id == j && r.participant_id == q)) [
      | inr other ↦ same_phase j q db db' setups plans (check_ins ∙ ground (arith, other))
      | inl own ↦
          let same_job : r.job_id ≡ j = ground (arith, own) in
          let same_worker : r.participant_id ≡ q = ground (arith, own) in
          let absent : check_in_of j q db ≡ none =
            subst (λ k. check_in_of j k db ≡ none) same_worker
              (subst (λ k. check_in_of k r.participant_id db ≡ none) same_job fresh) in
          let planned : plan_of j db ≡ some p = subst (λ k. plan_of k db ≡ some p) same_job has in
          let (s, set_up, of_plan) = c.planned j p planned in
          moves _ _ (assigned s.id p.id) (arrived s.id p.id r.id)
            (ground (arith, set_up, planned, absent))
            (ground (arith, setups, set_up, plans, planned, check_ins, own)) (arrive s.id p.id r.id)
    ]

module _ (hash : DispatchSetupCreate → String) (plan_hash : DispatchConfirmCreate → String) where
  -- From consistent tables, every sequence of commands in which no creation draws an id twice is,
  -- for each job and worker, a run of the specification: unset, prepared with one setup, assigned
  -- with one plan, arrived with one check-in, in this order, with ids that stay.
  pub Reach-Run :
      (job_id participant_id : Uuid) (db db' : Db)
      → IsConsistent db
      → Reach hash plan_hash db db'
      → Run (phase job_id participant_id db) (phase job_id participant_id db')
  Reach-Run j q db _ c here = stay
  Reach-Run j q db db' c (next {mid} r s) =
      let before = Reach-Run j q db mid c r in
      let m = Reach-IsConsistent hash plan_hash db mid r c in
      elim (Change-Next j q mid db' m (IsConsistent-Change hash plan_hash mid db' m s)) [
        | inl same ↦ subst (Run (phase j q db)) (sym same) before
        | inr moved ↦ then_ before moved
      ]
