-- ===== src/Prelude/Table.antt =====
-- A database table with a primary key, as the list of its rows; reads, updates by primary key,
-- and `SELECT … WHERE … ORDER BY … LIMIT`.
use Prim.Native.Nat.{ℕ, zero, suc, ◌≤◌}
use mathlib.Core.Path.{◌≡◌, refl, ap, sym, ◌∙◌, subst}
use mathlib.Core.Logic.{◌≢◌, inl, inr}
use mathlib.Core.Bool.{Bool, true}
use mathlib.Core.Option.{Option, none, some}
use mathlib.Core.List.{List, [], ◌∷◌}
use native.Mathlib.Omega.{arith}
use seqret_be.Prelude.Tests.{◌==◌, if◌then◌else◌, keep, Bool-cases}
use seqret_be.Prelude.Lists.{
  length, take, filter, All, All-take, All-filter, filter_holds, take_all, length-take-le,
}

module _ {Row : Type 0} (key : Row → ℕ) where
  -- The row with this primary key.
  abbrev pub find : ℕ → List Row → Option Row
  find k [] = none
  find k (r ∷ t) = if key r == k then some r else find k t

  -- `UPDATE … WHERE primary_key = …`: the row with the same key is replaced; no row is added.
  abbrev pub put : Row → List Row → List Row
  put r [] = []
  put r (s ∷ t) = if key s == key r then r ∷ t else s ∷ put r t

  pub find-put_self :
      (r : Row) (t : List Row) (s : Row) → find (key r) t ≡ some s → find (key r) (put r t) ≡ some r
  find-put_self r [] s h = cc
  find-put_self r (x ∷ t) s h = ground (arith, find-put_self r t s)

  pub find-put_ne : (k : ℕ) (r : Row) (t : List Row) → k ≢ key r → find k (put r t) ≡ find k t
  find-put_ne k r [] h = refl
  find-put_ne k r (x ∷ t) h = ground (arith, find-put_ne k r t h)

  pub find-put-none : (k : ℕ) (r : Row) (t : List Row) → find k t ≡ none → find k (put r t) ≡ none
  find-put-none k r [] h = refl
  find-put-none k r (x ∷ t) h = ground (arith, find-put-none k r t)

  -- A row that is found has the key that was asked for.
  pub find_key : (k : ℕ) (t : List Row) (r : Row) → find k t ≡ some r → key r ≡ k
  find_key k [] r h = cc
  find_key k (x ∷ t) r h = ground (arith, find_key k t r)

  -- The row that is found under a key, after a row with that key was written.
  pub find-put :
      (k : ℕ) (r s : Row) (t : List Row) → find k t ≡ some s → key r ≡ k → find k (put r t) ≡ some r
  find-put k r s t h e = ground (arith, find-put_self r t s)

  pub length-put : (r : Row) (t : List Row) → length (put r t) ≡ length t
  length-put r [] = refl
  length-put r (x ∷ t) = ground (arith, length-put r t)

  abbrev pub Without : ℕ → List Row → Type 0
  Without k t = All (λ r. key r ≢ k) t

  -- No two rows share a primary key.
  abbrev pub IsKeyed : List Row → Type 0
  IsKeyed [] = Unit
  IsKeyed (r ∷ t) = Without (key r) t × IsKeyed t

  pub find-Without : (k : ℕ) (t : List Row) → Without k t → find k t ≡ none
  find-Without k [] h = refl
  find-Without k (x ∷ t) h = ground (arith, find-Without k t h.1)

  -- A key that no row has.
  pub Without-find : (k : ℕ) (t : List Row) → find k t ≡ none → Without k t
  Without-find k [] h = tt
  Without-find k (x ∷ t) h =
      (λ e. absurd (ground (arith, h, e)), Without-find k t (ground (arith, h)))

  pub All-put {κ} : (P : Row → Type κ) (r : Row) (t : List Row) → P r → All P t → All P (put r t)
  All-put P r [] p h = tt
  All-put P r (x ∷ t) p h = elim (Bool-cases (key x == key r)) [
    | inl e ↦ rw e (p, h.1)
    | inr e ↦ rw e (h.0, All-put P r t p h.1)
  ]

  pub find-All {κ} :
      (P : Row → Type κ) (k : ℕ) (t : List Row) (r : Row) → All P t → find k t ≡ some r → P r
  find-All P k [] r h e = absurd (cc)
  find-All P k (x ∷ t) r h e = elim (Bool-cases (key x == k)) [
    | inl same ↦ let found : x ≡ r = ground arith in subst P found h.0
    | inr other ↦ find-All P k t r h.1 (ground arith)
  ]

  Without-put : (k : ℕ) (r : Row) (t : List Row) → Without k t → Without k (put r t)
  Without-put k r [] h = tt
  Without-put k r (x ∷ t) h = ground (arith, Without-put k r t h.1)

  pub put-IsKeyed : (r : Row) (t : List Row) → IsKeyed t → IsKeyed (put r t)
  put-IsKeyed r [] h = tt
  put-IsKeyed r (x ∷ t) h = ground (arith, put-IsKeyed r t h.1, Without-put (key x) r t h.0)

  pub filter-IsKeyed : (p : Row → Bool) (t : List Row) → IsKeyed t → IsKeyed (filter p t)
  filter-IsKeyed p [] h = tt
  filter-IsKeyed p (x ∷ t) h = elim (Bool-cases (p x)) [
    | inl e ↦ rw e (All-filter (λ r. key r ≢ key x) p t h.0, filter-IsKeyed p t h.1)
    | inr e ↦ rw e (filter-IsKeyed p t h.1)
  ]

  pub take-IsKeyed : (n : ℕ) (t : List Row) → IsKeyed t → IsKeyed (take n t)
  take-IsKeyed zero t h = tt
  take-IsKeyed (suc n) [] h = tt
  take-IsKeyed (suc n) (x ∷ t) h = (All-take (λ r. key r ≢ key x) n t h.0, take-IsKeyed n t h.1)

  -- A filter keeps or drops the row that a key names.
  pub find-filter :
      (p : Row → Bool) (k : ℕ) (t : List Row) → IsKeyed t → find k (filter p t) ≡ keep p (find k t)
  find-filter p k [] h = refl
  find-filter p k (x ∷ t) h = ground (
    arith,
    find-filter p k t h.1,
    find-Without (key x) (filter p t) (All-filter (λ r. key r ≢ key x) p t h.0),
    find-Without (key x) t h.0,
  )

  find_past :
      (x : Row) (t l : List Row)
      → All (λ r. key r ≢ key x) l
      → All (λ r. find (key r) t ≡ some r) l
      → All (λ r. find (key r) (x ∷ t) ≡ some r) l
  find_past x t [] h e = tt
  find_past x t (y ∷ l) h e = (ground (arith, h.0, e.0), find_past x t l h.1 e.1)

  -- Every row of a keyed table is found under its key.
  pub find-IsKeyed : (t : List Row) → IsKeyed t → All (λ r. find (key r) t ≡ some r) t
  find-IsKeyed [] h = tt
  find-IsKeyed (x ∷ t) h = (ground arith, find_past x t t h.0 (find-IsKeyed t h.1))

  -- Rows that are found stay found when a row with another key is written.
  pub found-put :
      (r : Row) (rows t : List Row)
      → Without (key r) rows
      → All (λ s. find (key s) t ≡ some s) rows
      → All (λ s. find (key s) (put r t) ≡ some s) rows
  found-put r [] t w h = tt
  found-put r (s ∷ rows) t w h = (find-put_ne (key s) r t w.0 ∙ h.0, found-put r rows t w.1 h.1)

  module _ (before : Row → Row → Bool) where
    abbrev pub insert : Row → List Row → List Row
    insert r [] = r ∷ []
    insert r (s ∷ t) = if before s r then s ∷ insert r t else r ∷ s ∷ t

    -- `ORDER BY`, stable, by insertion.
    abbrev pub sort : List Row → List Row
    sort [] = []
    sort (r ∷ t) = insert r (sort t)

    -- `SELECT … WHERE p ORDER BY … LIMIT n`.
    abbrev pub select : (Row → Bool) → ℕ → List Row → List Row
    select p n t = take n (sort (filter p t))

    All-insert {κ} :
        (P : Row → Type κ) (r : Row) (t : List Row) → P r → All P t → All P (insert r t)
    All-insert P r [] p h = (p, tt)
    All-insert P r (x ∷ t) p h = elim (Bool-cases (before x r)) [
      | inl e ↦ rw e (h.0, All-insert P r t p h.1)
      | inr e ↦ rw e (p, h)
    ]

    pub All-sort {κ} : (P : Row → Type κ) (t : List Row) → All P t → All P (sort t)
    All-sort P [] h = tt
    All-sort P (x ∷ t) h = All-insert P x (sort t) h.0 (All-sort P t h.1)

    insert-IsKeyed : (r : Row) (t : List Row) → Without (key r) t → IsKeyed t → IsKeyed (insert r t)
    insert-IsKeyed r [] w h = (tt, tt)
    insert-IsKeyed r (x ∷ t) w h = elim (Bool-cases (before x r)) [
      | inl e ↦
          rw e
            (All-insert (λ s. key s ≢ key x) r t (λ q. w.0 (sym q)) h.0, insert-IsKeyed r t w.1 h.1)
      | inr e ↦ rw e (w, h)
    ]

    sort-IsKeyed : (t : List Row) → IsKeyed t → IsKeyed (sort t)
    sort-IsKeyed [] h = tt
    sort-IsKeyed (x ∷ t) h =
        insert-IsKeyed x (sort t) (All-sort (λ r. key r ≢ key x) t h.0) (sort-IsKeyed t h.1)

    find-insert :
        (k : ℕ) (r : Row) (t : List Row) → Without (key r) t → find k (insert r t) ≡ find k (r ∷ t)
    find-insert k r [] w = refl
    find-insert k r (x ∷ t) w = ground (arith, w.0, find-insert k r t w.1)

    find-sort : (k : ℕ) (t : List Row) → IsKeyed t → find k (sort t) ≡ find k t
    find-sort k [] h = refl
    find-sort k (x ∷ t) h =
        ground
          (arith, find-insert k x (sort t) (All-sort (λ r. key r ≢ key x) t h.0), find-sort k t h.1)

    length-insert : (r : Row) (t : List Row) → length (insert r t) ≡ suc (length t)
    length-insert r [] = refl
    length-insert r (x ∷ t) = ground (arith, length-insert r t)

    length-sort : (t : List Row) → length (sort t) ≡ length t
    length-sort [] = refl
    length-sort (x ∷ t) = omega (arith, length-insert x (sort t), length-sort t)

    pub length-select : (p : Row → Bool) (n : ℕ) (t : List Row) → length (select p n t) ≤ n
    length-select p n t = length-take-le n (sort (filter p t))

    pub select_holds :
        (p : Row → Bool) (n : ℕ) (t : List Row) → All (λ r. p r ≡ true) (select p n t)
    select_holds p n t =
        All-take (λ r. p r ≡ true) n (sort (filter p t))
          (All-sort (λ r. p r ≡ true) (filter p t) (filter_holds p t))

    pub All-select {κ} :
        (P : Row → Type κ) (p : Row → Bool) (n : ℕ) (t : List Row) → All P t → All P (select p n t)
    All-select P p n t h =
        All-take P n (sort (filter p t)) (All-sort P (filter p t) (All-filter P p t h))

    pub select-IsKeyed :
        (p : Row → Bool) (n : ℕ) (t : List Row) → IsKeyed t → IsKeyed (select p n t)
    select-IsKeyed p n t h =
        take-IsKeyed n (sort (filter p t)) (sort-IsKeyed (filter p t) (filter-IsKeyed p t h))

    -- With room for all that match, a row is selected exactly when it matches.
    pub find-select :
        (p : Row → Bool) (n k : ℕ) (t : List Row)
        → IsKeyed t
        → length (filter p t) ≤ n
        → find k (select p n t) ≡ keep p (find k t)
    find-select p n k t h room =
        ap (find k) (take_all n (sort (filter p t)) (omega (arith, length-sort (filter p t))))
        ∙ find-sort k (filter p t) (filter-IsKeyed p t h)
        ∙ find-filter p k t h
