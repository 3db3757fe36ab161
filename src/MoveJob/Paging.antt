-- ===== src/MoveJob/Paging.antt =====
-- move_job/service.py: a client that follows the cursors of `list_move_jobs`.
use Prim.Native.String.{String}
use seqret_be.Prelude.{
  ℕ, zero, suc, ◌+◌, ◌-◌, ◌≤◌, ◌<◌, Bool, true, false, Option, none, some, List, [], ◌∷◌, ◌++◌, leb,
  ltb, if◌then◌else◌, length, take, ◌≡◌, refl, sym, ap, ◌∙◌, inl, inr, arith, Bool-cases, take_all,
}
use seqret_be.Prelude.Transaction.{Result, ok, err, recursion_error}
use seqret_be.Access.Model.{ParticipantRole}
use seqret_be.MoveJob.Cursor.{
  encode_list_cursor, max_list_cursor_offset, decode_list_cursor-encode_list_cursor,
}
use seqret_be.MoveJob.Listing.{
  MoveJob, MoveJobList, Query, Jobs, is_refused, viewer_role, listed, drop, page_of, offset_of,
  list_move_jobs,
}

-- The jobs of a page and of all that follow it, for at most so many pages.
abbrev pub follow :
    (pages : ℕ) → (Option (List ℕ) → Result MoveJobList) → Option (List ℕ) → Result (List MoveJob)
follow zero page cursor = err recursion_error
follow (suc pages) page cursor = elim (page cursor) [
  | err e ↦ err e
  | ok r ↦ elim r.next_cursor [
    | none ↦ ok r.moves
    | some next ↦ elim (follow pages page (some next)) [
      | err e ↦ err e
      | ok rest ↦ ok (r.moves ++ rest)
    ]
  ]
]

module _ (pages : ℕ) (page : Option (List ℕ) → Result MoveJobList) (cursor : Option (List ℕ)) where
  follow_last :
      (moves : List MoveJob)
      → page cursor ≡ ok (record { moves = moves; next_cursor = none })
      → follow (suc pages) page cursor ≡ ok moves
  follow_last moves h = rw (h, follow) refl

  follow_more :
      (moves rest : List MoveJob) (next : List ℕ)
      → page cursor ≡ ok (record { moves = moves; next_cursor = some next })
      → follow pages page (some next) ≡ ok rest
      → follow (suc pages) page cursor ≡ ok (moves ++ rest)
  follow_more moves rest next h k = rw (h, follow) (rw k refl)

length-drop : (n : ℕ) (xs : List MoveJob) → length (drop n xs) ≡ length xs - n
length-drop zero xs = omega arith
length-drop (suc n) [] = omega arith
length-drop (suc n) (x ∷ xs) = omega (arith, length-drop n xs)

drop_nil : (n : ℕ) → drop n [] ≡ []
drop_nil zero = refl
drop_nil (suc n) = refl

drop-drop : (m n : ℕ) (xs : List MoveJob) → drop n (drop m xs) ≡ drop (m + n) xs
drop-drop zero n xs = ap (λ k. drop k xs) (omega arith)
drop-drop (suc m) n [] = drop_nil n ∙ sym (drop_nil (suc m + n))
drop-drop (suc m) n (x ∷ xs) =
    let next : suc (m + n) ≡ suc m + n = omega arith in
    drop-drop m n xs ∙ ap (λ k. drop k (x ∷ xs)) next

take-drop : (n : ℕ) (xs : List MoveJob) → take n xs ++ drop n xs ≡ xs
take-drop zero xs = refl
take-drop (suc n) [] = refl
take-drop (suc n) (x ∷ xs) = ap (◌∷◌ x) (take-drop n xs)

length-take : (n : ℕ) (xs : List MoveJob) → n ≤ length xs → length (take n xs) ≡ n
length-take zero xs h = refl
length-take (suc n) [] h = absurd (omega arith)
length-take (suc n) (x ∷ xs) h = omega (arith, length-take n xs (omega arith))

take-take : (n : ℕ) (xs : List MoveJob) → take n (take (suc n) xs) ≡ take n xs
take-take zero xs = refl
take-take (suc n) [] = refl
take-take (suc n) (x ∷ xs) = ap (◌∷◌ x) (take-take n xs)

same_branches : (b : Bool) (x : Option (List ℕ)) → (if b then x else x) ≡ x
same_branches true x = refl
same_branches false x = refl

-- The last page.
page_last :
    (offset limit : ℕ) (rows : List MoveJob)
    → length (drop offset rows) ≤ limit
    → page_of offset limit rows ≡ record { moves = drop offset rows; next_cursor = none }
unfolding page_of
page_last offset limit rows h =
    let ys = drop offset rows in
    let fetched = take_all (suc limit) ys (omega arith) in
    let whole = ap (take limit) fetched ∙ take_all limit ys h in
    let no_more : ltb limit (length (take (suc limit) ys)) ≡ false =
      ap (λ z. ltb limit (length z)) fetched ∙ ground arith in
    rw no_more (
      rw whole
        (ap (λ c. record { moves = ys; next_cursor = c }) (same_branches (leb (length ys) 0) none)))

-- A page that another follows.
page_more :
    (offset limit : ℕ) (rows : List MoveJob)
    → 1 ≤ limit
    → limit < length (drop offset rows)
    → page_of offset limit rows ≡ record {
      moves = take limit (drop offset rows);
      next_cursor = some (encode_list_cursor (offset + limit));
    }
unfolding page_of
page_more offset limit rows h k =
    let ys = drop offset rows in
    let fetched = length-take (suc limit) ys (omega arith) in
    let whole = length-take limit ys (omega arith) in
    let more : ltb limit (length (take (suc limit) ys)) ≡ true =
      ap (ltb limit) fetched ∙ ground arith in
    let full : leb limit 0 ≡ false = ground arith in
    rw more (rw (take-take limit ys) (rw whole (rw full refl)))

module _ (contains : String → String → Bool) (q : Query) (limit : ℕ) (db : Jobs)
    (role : ParticipantRole) where
  -- One step of the client, at a cursor that stands for an offset.
  list_move_jobs_at :
      (cursor : Option (List ℕ)) (offset : ℕ)
      → is_refused q limit ≡ false
      → viewer_role q db ≡ some role
      → offset_of cursor ≡ ok offset
      → list_move_jobs contains q limit cursor db
        ≡ ok (page_of offset limit (listed contains q role db))
  unfolding list_move_jobs
  list_move_jobs_at cursor offset fine viewer at = rw fine (rw at (rw viewer refl))

  follow_from :
      (pages offset : ℕ) (cursor : Option (List ℕ))
      → is_refused q limit ≡ false
      → 1 ≤ limit
      → viewer_role q db ≡ some role
      → length (listed contains q role db) ≤ max_list_cursor_offset
      → offset_of cursor ≡ ok offset
      → length (listed contains q role db) - offset < pages
      → follow pages (λ c. list_move_jobs contains q limit c db) cursor
        ≡ ok (drop offset (listed contains q role db))
  follow_from zero offset cursor fine some_ viewer small at enough = absurd (omega arith)
  follow_from (suc pages) offset cursor fine some_ viewer small at enough =
      let rows = listed contains q role db in
      let ask = λ (c : Option (List ℕ)). list_move_jobs contains q limit c db in
      let size = length-drop offset rows in
      let step = list_move_jobs_at cursor offset fine viewer at in
      elim (Bool-cases (ltb limit (length (drop offset rows)))) [
        | inr last ↦
            let page = page_last offset limit rows (ground arith) in
            follow_last pages ask cursor (drop offset rows) (step ∙ ap ok page)
        | inl more ↦
            let page = page_more offset limit rows some_ (ground arith) in
            let next = decode_list_cursor-encode_list_cursor (offset + limit) (ground arith) in
            let rest =
              follow_from pages (offset + limit) (some (encode_list_cursor (offset + limit))) fine
                some_ viewer small next (ground arith) in
            let joined : take limit (drop offset rows) ++ drop (offset + limit) rows
                ≡ drop offset rows =
              ap (λ z. take limit (drop offset rows) ++ z) (sym (drop-drop offset limit rows))
              ∙ take-drop limit (drop offset rows) in
            follow_more pages ask cursor (take limit (drop offset rows))
              (drop (offset + limit) rows) (encode_list_cursor (offset + limit)) (step ∙ ap ok page)
              rest
            ∙ ap ok joined
      ]

limit_positive : (q : Query) (limit : ℕ) → is_refused q limit ≡ false → 1 ≤ limit
limit_positive q limit h = elim (Bool-cases (leb 1 limit)) [
  | inl positive ↦ ground arith
  | inr none_ ↦ absurd (ground arith)
]

-- On fixed tables, for arguments that are not refused and an identity that has a role, a client
-- that follows the cursors from the first page reads all jobs that are shown, each once and in
-- order, if they are no more than the largest offset, within one page more than there are jobs.
pub pages_are_list :
    (contains : String → String → Bool) (q : Query) (limit : ℕ) (db : Jobs) (role : ParticipantRole)
    (pages : ℕ)
    → is_refused q limit ≡ false
    → viewer_role q db ≡ some role
    → length (listed contains q role db) ≤ max_list_cursor_offset
    → length (listed contains q role db) < pages
    → follow pages (λ c. list_move_jobs contains q limit c db) none ≡ ok (listed contains q role db)
pages_are_list contains q limit db role pages fine viewer small enough =
    follow_from contains q limit db role pages 0 none fine (limit_positive q limit fine) viewer
      small refl (omega arith)
