-- ===== src/Prelude/Pointwise.antt =====
-- Two tables with the same rows in the same order, each changed as a relation allows.
use mathlib.Core.Path.{◌≡◌, sym, ◌∙◌, subst}
use mathlib.Core.Logic.{◌≢◌, ◌⊎◌, inl, inr}
use mathlib.Core.Bool.{Bool, true, false}
use mathlib.Core.Option.{Option, none, some}
use mathlib.Core.List.{List, [], ◌∷◌}
use native.Mathlib.Omega.{arith}
use Prim.Native.Nat.{ℕ}
use seqret_be.Prelude.Tests.{is_none, ◌==◌, if◌then◌else◌, Bool-cases}
use seqret_be.Prelude.Lists.{All}
use seqret_be.Prelude.Table.{find, put, Without, IsKeyed, find-All}

-- The first row that satisfies a test: a `SELECT` whose `WHERE` a unique constraint makes single.
abbrev pub first_where {ℓ} : {A : Type ℓ} → (A → Bool) → List A → Option A
first_where p [] = none
first_where p (x ∷ xs) = if p x then some x else first_where p xs

-- `x` is one of the list.
abbrev pub IsIn : {A : Type 0} → A → List A → Type 0
IsIn x [] = ⊥
IsIn x (y ∷ ys) = (x ≡ y) ⊎ IsIn x ys

abbrev pub Pointwise : {Row : Type 0} → (Row → Row → Type 0) → List Row → List Row → Type 0
Pointwise R [] [] = Unit
Pointwise R (x ∷ xs) (y ∷ ys) = R x y × Pointwise R xs ys
Pointwise R _ _ = ⊥

module _ {Row : Type 0} (R : Row → Row → Type 0) where
  pub Pointwise-refl : ((x : Row) → R x x) → (t : List Row) → Pointwise R t t
  Pointwise-refl r [] = tt
  Pointwise-refl r (x ∷ t) = (r x, Pointwise-refl r t)

  pub Pointwise-trans :
      ((x y z : Row) → R x y → R y z → R x z)
      → (s t u : List Row) → Pointwise R s t
      → Pointwise R t u
      → Pointwise R s u
  Pointwise-trans tr [] [] [] h k = tt
  Pointwise-trans tr (x ∷ s) (y ∷ t) (z ∷ u) h k =
      (tr x y z h.0 k.0, Pointwise-trans tr s t u h.1 k.1)
  Pointwise-trans tr (x ∷ s) [] u h k = absurd h
  Pointwise-trans tr [] (y ∷ t) u h k = absurd h
  Pointwise-trans tr [] [] (z ∷ u) h k = absurd k
  Pointwise-trans tr (x ∷ s) (y ∷ t) [] h k = absurd k

  -- What holds of all rows still holds, where the changes of a row keep it.
  pub All-Pointwise {κ} :
      (P Q : Row → Type κ)
      → ((x y : Row) → R x y → P x → Q y)
      → (s t : List Row) → Pointwise R s t
      → All P s
      → All Q t
  All-Pointwise P Q f [] [] h p = tt
  All-Pointwise P Q f (x ∷ s) (y ∷ t) h p = (f x y h.0 p.0, All-Pointwise P Q f s t h.1 p.1)
  All-Pointwise P Q f (x ∷ s) [] h p = absurd h
  All-Pointwise P Q f [] (y ∷ t) h p = absurd h

  -- What a query finds in the changed table is the changed row that it found before.
  pub first_where-Pointwise :
      (p : Row → Bool)
      → ((x y : Row) → R x y → p y ≡ p x)
      → (s t : List Row) (x : Row) → Pointwise R s t
      → first_where p s ≡ some x
      → (y : Row) × (first_where p t ≡ some y) × R x y
  first_where-Pointwise p same [] [] x h e = absurd (ground arith)
  first_where-Pointwise p same (a ∷ s) (b ∷ t) x h e = elim (Bool-cases (p a)) [
    | inl yes_ ↦
        let is_a : a ≡ x = ground arith in
        (b, ground (arith, same a b h.0), subst (λ z. R z b) is_a h.0)
    | inr no_ ↦
        let (y, found, related) = first_where-Pointwise p same s t x h.1 (ground arith) in
        (y, ground (arith, found, same a b h.0), related)
  ]
  first_where-Pointwise p same (a ∷ s) [] x h e = absurd h
  first_where-Pointwise p same [] (b ∷ t) x h e = absurd h

  module _ (key : Row → ℕ) where
    -- A write to a found row.
    pub put-Pointwise :
        ((x : Row) → R x x)
        → (r r' : Row) (t : List Row) → find key (key r') t ≡ some r
        → R r r'
        → Pointwise R t (put key r' t)
    put-Pointwise r_refl r r' [] e h = absurd (ground arith)
    put-Pointwise r_refl r r' (x ∷ t) e h = elim (Bool-cases (key x == key r')) [
      | inl same ↦
          let is_x : r ≡ x = ground arith in
          rw same (subst (λ z. R z r') is_x h, Pointwise-refl r_refl t)
      | inr other ↦ rw other (r_refl x, put-Pointwise r_refl r r' t (ground arith) h)
    ]

    pub find-Pointwise :
        ((x y : Row) → R x y → key y ≡ key x)
        → (k : ℕ) (s t : List Row) (x : Row) → Pointwise R s t
        → find key k s ≡ some x
        → (y : Row) × (find key k t ≡ some y) × R x y
    find-Pointwise same k [] [] x h e = absurd (ground arith)
    find-Pointwise same k (a ∷ s) (b ∷ t) x h e = elim (Bool-cases (key a == k)) [
      | inl yes_ ↦
          let is_a : a ≡ x = ground arith in
          (b, ground (arith, same a b h.0), subst (λ z. R z b) is_a h.0)
      | inr no_ ↦
          let (y, found, related) = find-Pointwise same k s t x h.1 (ground arith) in
          (y, ground (arith, found, same a b h.0), related)
    ]
    find-Pointwise same k (a ∷ s) [] x h e = absurd h
    find-Pointwise same k [] (b ∷ t) x h e = absurd h

    Without-Pointwise :
        ((x y : Row) → R x y → key y ≡ key x)
        → (k : ℕ) (s t : List Row) → Pointwise R s t
        → Without key k s
        → Without key k t
    Without-Pointwise same k [] [] h w = tt
    Without-Pointwise same k (a ∷ s) (b ∷ t) h w =
        (λ e. w.0 (sym (same a b h.0) ∙ e), Without-Pointwise same k s t h.1 w.1)
    Without-Pointwise same k (a ∷ s) [] h w = absurd h
    Without-Pointwise same k [] (b ∷ t) h w = absurd h

    pub Pointwise-IsKeyed :
        ((x y : Row) → R x y → key y ≡ key x)
        → (s t : List Row) → Pointwise R s t
        → IsKeyed key s
        → IsKeyed key t
    Pointwise-IsKeyed same [] [] h w = tt
    Pointwise-IsKeyed same (a ∷ s) (b ∷ t) h w =
        let rest = Without-Pointwise same (key a) s t h.1 w.0 in
        (subst (λ k. Without key k t) (sym (same a b h.0)) rest, Pointwise-IsKeyed same s t h.1 w.1)
    Pointwise-IsKeyed same (a ∷ s) [] h w = absurd h
    Pointwise-IsKeyed same [] (b ∷ t) h w = absurd h

-- In a keyed table what a query finds is found by its key too.
pub find-first_where :
    {Row : Type 0} (key : Row → ℕ) (p : Row → Bool) (t : List Row) (x : Row)
    → IsKeyed key t
    → first_where p t ≡ some x
    → find key (key x) t ≡ some x
find-first_where key p [] x w e = absurd (ground arith)
find-first_where key p (a ∷ t) x w e = elim (Bool-cases (p a)) [
  | inl yes_ ↦ ground arith
  | inr no_ ↦
      let found = find-first_where key p t x w.1 (ground arith) in
      let other = find-All key (λ r. key r ≢ key a) (key x) t x w.0 found in
      ground (arith, found, other)
]

-- What a query finds passes its test.
pub first_where_holds :
    {A : Type 0} (p : A → Bool) (xs : List A) (x : A) → first_where p xs ≡ some x → p x ≡ true
first_where_holds p [] x h = absurd (ground (arith, h))
first_where_holds p (y ∷ xs) x h = ground (arith, h, first_where_holds p xs x)

-- What is found stands in the list.
pub first_where-IsIn :
    {A : Type 0} (p : A → Bool) (xs : List A) (x : A) → first_where p xs ≡ some x → IsIn x xs
first_where-IsIn p [] x h = absurd (ground arith)
first_where-IsIn p (y ∷ ys) x h = elim (Bool-cases (p y)) [
  | inl yes_ ↦ inl (ground arith)
  | inr no_ ↦ inr (first_where-IsIn p ys x (ground arith))
]

-- What holds of all holds of each.
pub All-IsIn : {A : Type 0} (P : A → Type 0) (x : A) (xs : List A) → All P xs → IsIn x xs → P x
All-IsIn P x [] a i = absurd i
All-IsIn P x (y ∷ ys) a (inl e) = subst P (sym e) a.0
All-IsIn P x (y ∷ ys) a (inr i) = All-IsIn P x ys a.1 i

-- A search does not miss what stands in the list.
pub first_where-some :
    {A : Type 0} (p : A → Bool) (x : A) (xs : List A)
    → IsIn x xs
    → p x ≡ true
    → is_none (first_where p xs) ≡ false
first_where-some p x [] i h = absurd i
first_where-some p x (y ∷ ys) (inl e) h =
    let holds : p y ≡ true = subst (λ z. p z ≡ true) e h in ground arith
first_where-some p x (y ∷ ys) (inr i) h = elim (Bool-cases (p y)) [
  | inl yes_ ↦ ground arith
  | inr no_ ↦ ground (arith, first_where-some p x ys i h)
]
