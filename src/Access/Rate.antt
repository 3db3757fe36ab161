-- ===== src/Access/Rate.antt =====
-- access/service.py: how many requests of one link `_enforce_access_rate_limit` lets through.
use seqret_be.Prelude.{
  ℕ, suc, ◌+◌, ◌-◌, ◌*◌, ◌≤◌, ◌<◌, false, Option, some, List, [], ◌∷◌, ◌≡◌, inl, inr, arith, ltb,
  All, All-map_pred, Bool-cases, Option-cases,
}
use seqret_be.Prelude.Clock.{Instant, seconds}
use seqret_be.Prelude.Table.{find, find-put, find_key}
use seqret_be.Prelude.Transaction.{
  Error, Result, ok, err, invalid_token, rate_limited, Result-cases,
}
use seqret_be.Access.Model.{AccessToken, Access, link_key}
use seqret_be.Access.Authenticate.{
  CacheAnswer, is_usable, is_window_over, counted, write_link, increment_database_rate_window,
  cache_verdict, enforce_access_rate_limit, retry_after,
}

-- A request of the link: what the cache answers it, and when it is made.
abbrev pub Request : Type 0
Request = Option CacheAnswer × Instant

-- How many of the requests pass, one after the other. One that fails is rolled back.
abbrev pub admitted : AccessToken → (limit window_seconds : ℕ) → List Request → Access → ℕ
admitted link limit window_seconds [] db = 0
admitted link limit window_seconds ((cache, now) ∷ rs) db =
    elim (enforce_access_rate_limit link cache now limit window_seconds db) [
      | err x ↦ admitted link limit window_seconds rs db
      | ok (_, db') ↦ suc (admitted link limit window_seconds rs db')
    ]

counted_start :
    (now : Instant) (window_seconds : ℕ) (l : AccessToken)
    → (s : Instant) × ((counted now window_seconds l).rate_window_started_at ≡ some s)
counted_start now window_seconds l = elim (Option-cases l.rate_window_started_at) [
  | inl never ↦ (now, ground arith)
  | inr (s, started) ↦ elim (Bool-cases (is_window_over now window_seconds l)) [
    | inl over ↦ (now, ground arith)
    | inr inside ↦ (s, ground arith)
  ]
]

-- A request passes with the window's count in bounds and written, or it fails.
pub data Enforced (l : AccessToken) (now : Instant) (limit window_seconds : ℕ) (db : Access)
    (r : Result (Unit {0} × Access)) : Type 0 where
  passed :
      (counted now window_seconds l).rate_window_count ≤ limit
      → r ≡ ok (tt, write_link (counted now window_seconds l) db)
      → Enforced l now limit window_seconds db r
  failed : (e : Error) → r ≡ err e → Enforced l now limit window_seconds db r

pub enforce_inv :
    (link : AccessToken) (cache : Option CacheAnswer) (now : Instant) (limit window_seconds : ℕ)
    (db : Access) (l : AccessToken)
    → find link_key link.id db.links ≡ some l
    → Enforced l now limit window_seconds db
        (enforce_access_rate_limit link cache now limit window_seconds db)
unfolding enforce_access_rate_limit increment_database_rate_window
enforce_inv link cache now limit window_seconds db l found =
    let c = counted now window_seconds l in
    elim (Bool-cases (is_usable link.token_hash now l)) [
      | inr unusable ↦ failed invalid_token (ground (arith, found, unusable))
      | inl usable ↦
          let (s, started) = counted_start now window_seconds l in
          elim (Bool-cases (ltb limit (c.rate_window_count))) [
            | inl over ↦
                failed (rate_limited (retry_after s window_seconds now))
                  (ground (arith, found, usable, started, over))
            | inr within ↦ elim (Result-cases (cache_verdict cache limit window_seconds)) [
              | inr (e, refused) ↦
                  failed e (ground (arith, found, usable, started, within, refused))
              | inl (_, fine) ↦
                  passed (ground arith) (ground (arith, found, usable, started, within, fine))
            ]
          ]
    ]

-- The link's row is the one that was given.
abbrev IsAt : AccessToken → AccessToken → Access → Type 0
IsAt link l db = find link_key link.id db.links ≡ some l

IsAt-counted :
    (link l : AccessToken) (now : Instant) (window_seconds : ℕ) (db : Access)
    → IsAt link l db
    → IsAt link (counted now window_seconds l) (write_link (counted now window_seconds l) db)
IsAt-counted link l now window_seconds db found =
    find-put link_key link.id (counted now window_seconds l) l db.links found
      (find_key link_key link.id db.links l found)

-- While no window ends, the requests that pass fill up the window of the row.
pub admitted_inside :
    (link : AccessToken) (limit window_seconds : ℕ) (rs : List Request) (db : Access)
    (l : AccessToken) (s : Instant)
    → IsAt link l db
    → l.rate_window_started_at ≡ some s
    → All (λ r. r.1 < s + seconds window_seconds) rs
    → l.rate_window_count ≤ limit
    → admitted link limit window_seconds rs db + l.rate_window_count ≤ limit
admitted_inside link limit window_seconds [] db l s found started early room = omega arith
admitted_inside link limit window_seconds ((cache, now) ∷ rs) db l s found started (early, rest)
      room =
    let inside : is_window_over now window_seconds l ≡ false = ground arith in
    elim (enforce_inv link cache now limit window_seconds db l found) [
      | failed e raised ↦
          let more = admitted_inside link limit window_seconds rs db l s found started rest room in
          ground (arith, raised, more)
      | passed within done ↦
          let c = counted now window_seconds l in
          let more =
            admitted_inside link limit window_seconds rs (write_link c db) c s
              (IsAt-counted link l now window_seconds db found) (ground arith) rest within in
          ground (arith, done, more, inside)
    ]

fills_two :
    (link : AccessToken) (limit window_seconds : ℕ) (rs : List Request) (db : Access)
    (l : AccessToken) (t0 : Instant)
    → IsAt link l db
    → All (λ r. (t0 ≤ r.1) × (r.1 < t0 + seconds window_seconds)) rs
    → admitted link limit window_seconds rs db ≤ (limit - l.rate_window_count) + limit
fills_two link limit window_seconds [] db l t0 found within = omega arith
fills_two link limit window_seconds ((cache, now) ∷ rs) db l t0 found ((late, early), rest) =
    let c = counted now window_seconds l in
    elim (enforce_inv link cache now limit window_seconds db l found) [
      | failed e raised ↦
          let more = fills_two link limit window_seconds rs db l t0 found rest in
          ground (arith, raised, more)
      | passed within done ↦
          let at = IsAt-counted link l now window_seconds db found in
          elim (Bool-cases (is_window_over now window_seconds l)) [
            | inr inside ↦
                let more = fills_two link limit window_seconds rs (write_link c db) c t0 at rest in
                ground (arith, done, more, inside)
            | inl over ↦
                let early_enough =
                  All-map_pred (λ r. (t0 ≤ r.1) × (r.1 < t0 + seconds window_seconds))
                    (λ r. r.1 < now + seconds window_seconds)
                    (λ r h. let (_, before) = h in omega arith) rs rest in
                let more =
                  admitted_inside link limit window_seconds rs (write_link c db) c now at
                    (ground arith) early_enough within in
                ground (arith, done, more, over)
          ]
    ]

-- Of the requests of one link that come within an interval no longer than the window, in whatever
-- order and whatever the cache answers, at most twice the limit pass, when those that fail are
-- rolled back.
pub rate_limit_bound :
    (link : AccessToken) (limit window_seconds : ℕ) (rs : List Request) (db : Access)
    (l : AccessToken) (t0 : Instant)
    → find link_key link.id db.links ≡ some l
    → All (λ r. (t0 ≤ r.1) × (r.1 < t0 + seconds window_seconds)) rs
    → admitted link limit window_seconds rs db ≤ 2 * limit
rate_limit_bound link limit window_seconds rs db l t0 found within =
    let filled = fills_two link limit window_seconds rs db l t0 found within in omega arith
