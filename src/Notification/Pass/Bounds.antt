-- ===== src/Notification/Pass/Bounds.antt =====
-- The counters of a delivery pass, and that it ends.
use Prim.Native.String.{String}
use seqret_be.Prelude.{
  ℕ, ◌+◌, ◌-◌, ◌*◌, ◌≤◌, ◌≡◌, sym, subst, Bool, true, List, arith, length, if◌then◌else◌, inl, inr,
}
use seqret_be.Prelude.Clock.{Uuid, Instant}
use seqret_be.Prelude.Transaction.{ok, Result-cases}
use seqret_be.Contracts.Ports.{provider_error, other_error, value}
use seqret_be.Notification.Model.{Deliveries, ClaimedNotification}
use seqret_be.Notification.Delivery.{mark_sent, mark_failure, FailureOutcome, stale, retry, gave_up}
use seqret_be.Notification.Pass.{
  ProviderAnswer, accepted, raised, Tally, record_answer, failure_tally, failure_of, Run, Removes,
  first, later, workers, start_pass, Turn, take, dry, answer, Turns, here, turn, meanwhile,
}

abbrev sum : Tally → ℕ
sum t = t.sent + t.retry_scheduled + t.failed

failure_sum : (o : FailureOutcome) → sum (failure_tally o) ≤ 1
failure_sum stale = omega arith
failure_sum retry = omega arith
failure_sum gave_up = omega arith

count_failure :
    (c : ClaimedNotification) (code : String) (b : Bool) (now : Instant) (db db' : Deliveries)
    (t : Tally)
    → failure_of c code b now db ≡ ok (t, db')
    → sum t ≤ 1
count_failure c code b now db db' t h = elim (Result-cases (mark_failure c code b now db)) [
  | inl ((o, d), done) ↦
      let same : t ≡ failure_tally o = ground (arith, done) in
      subst (λ x. sum x ≤ 1) (sym same) (failure_sum o)
  | inr (x, bad) ↦ absurd (ground (arith, bad))
]

-- One answer is counted at most once.
answer_sum :
    (c : ClaimedNotification) (a : ProviderAnswer) (now : Instant) (db db' : Deliveries) (t : Tally)
    → record_answer c a now db ≡ ok (t, db')
    → sum t ≤ 1
unfolding record_answer
answer_sum c (accepted id) now db db' t h = elim (Result-cases (mark_sent c id now db)) [
  | inl ((done, d), e) ↦ ground (arith, e)
  | inr (x, bad) ↦ absurd (ground (arith, bad))
]
answer_sum c (raised (provider_error e)) now db db' t h =
    count_failure c (value e.kind) e.retryable now db db' t h
answer_sum c (raised other_error) now db db' t h = count_failure c "unavailable" true now db db' t h

length-Removes :
    {c : ClaimedNotification} {cs ds : List ClaimedNotification}
    → Removes c cs ds
    → length cs ≡ length ds + 1
length-Removes first = omega arith
length-Removes (later r) = omega (arith, length-Removes r)

-- The state of the counters between two turns.
record Counts (batch_size : ℕ) (s : Run) : Type 0 where
  claimed : s.claimed ≤ batch_size
  in_flight : length s.in_flight ≤ workers batch_size
  recorded : sum s.total + length s.in_flight ≤ s.claimed

-- How many turns are left at most.
abbrev turns_left : ℕ → Run → ℕ
turns_left batch_size s =
    2 * (batch_size - s.claimed) + length s.in_flight + (if s.exhausted then 0 else 1)

module _ (uuid4 : ℕ → Uuid) (deep_link : Uuid → String)
    (provider : ClaimedNotification → ProviderAnswer) (now : Instant)
    (batch_size lease_seconds : ℕ) where
  Turn-Counts :
      {s s' : Run}
      → Turn uuid4 deep_link provider now batch_size lease_seconds s s'
      → Counts batch_size s
      → Counts batch_size s'
  Turn-Counts {s} (take busy c db' open_ below free h) v = record {
    claimed = omega arith;
    in_flight = omega arith;
    recorded = omega (arith, v.recorded);
  }
  Turn-Counts {s} (dry busy db' open_ below free h) v = record {
    claimed = v.claimed;
    in_flight = v.in_flight;
    recorded = v.recorded;
  }
  Turn-Counts {s} (answer c rest t db' out h) v =
      let one = answer_sum c (provider c) now s.db db' t h in
      let less = length-Removes out in
      record {
        claimed = v.claimed;
        in_flight = omega (arith, v.in_flight, less);
        recorded = omega (arith, v.recorded, less, one);
      }

  one_spent :
      {s s' : Run}
      → Turn uuid4 deep_link provider now batch_size lease_seconds s s'
      → 1 + turns_left batch_size s' ≤ turns_left batch_size s
  one_spent {s} (take busy c db' open_ below free h) = omega arith
  one_spent {s} (dry busy db' open_ below free h) = ground arith
  one_spent {s} (answer c rest t db' out h) = omega (arith, length-Removes out)

  Turns-Counts :
      {s s' : Run} {n : ℕ}
      → Turns uuid4 deep_link provider now batch_size lease_seconds s n s'
      → Counts batch_size s
      → Counts batch_size s'
  Turns-Counts here v = v
  Turns-Counts (turn ts t) v = Turn-Counts t (Turns-Counts ts v)
  Turns-Counts (meanwhile ts db) v =
      let u = Turns-Counts ts v in
      record { claimed = u.claimed; in_flight = u.in_flight; recorded = u.recorded }

  all_spent :
      {s s' : Run} {n : ℕ}
      → Turns uuid4 deep_link provider now batch_size lease_seconds s n s'
      → n + turns_left batch_size s' ≤ turns_left batch_size s
  all_spent here = omega arith
  all_spent (turn ts t) = omega (arith, all_spent ts, one_spent t)
  all_spent (meanwhile ts db) = all_spent ts

  -- However the turns of the workers interleave, and whatever other processes commit between them,
  -- a delivery pass that was started claims at most its batch, has at most as many claims in flight
  -- as it has workers, counts an answer at most once, and makes at most twice the batch and one
  -- more turns.
  pub delivery_bounds :
      {s s' : Run} {n : ℕ} (timeout : ℕ) (db : Deliveries)
      → start_pass batch_size lease_seconds timeout db ≡ ok s
      → Turns uuid4 deep_link provider now batch_size lease_seconds s n s'
      → (s'.claimed ≤ batch_size)
        × (length s'.in_flight ≤ workers batch_size)
        × (s'.total.sent + s'.total.retry_scheduled + s'.total.failed + length s'.in_flight
            ≤ s'.claimed)
        × (n ≤ 2 * batch_size + 1)
  unfolding start_pass
  delivery_bounds {s} {s'} {n} timeout db h ts =
      let fresh : Counts batch_size s = record {
        claimed = ground arith;
        in_flight = ground arith;
        recorded = ground arith;
      } in
      let all : turns_left batch_size s ≡ 2 * batch_size + 1 = ground arith in
      let v = Turns-Counts ts fresh in
      (v.claimed, v.in_flight, v.recorded, omega (arith, all_spent ts, all))
