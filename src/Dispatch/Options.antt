-- ===== src/Dispatch/Options.antt =====
-- dispatch/service.py: the options of a snapshot have distinct ids, where `uuid4()` draws such.
use seqret_be.Prelude.{ℕ, suc, ◌<◌, List, [], ◌∷◌, ◌≡◌, arith}
use seqret_be.Prelude.Clock.{Uuid}
use seqret_be.Prelude.Table.{IsKeyed, Without}
use seqret_be.Dispatch.Model.{DispatchVehicleCreate}
use seqret_be.Dispatch.Checks.{vehicle_id}
use seqret_be.Dispatch.Commands.{snapshot_vehicles}

-- No id is drawn twice.
abbrev pub IsInjective : (ℕ → Uuid) → Type 0
IsInjective ids = (i j : ℕ) → ids i ≡ ids j → i ≡ j

module _ (ids : ℕ → Uuid) (distinct : IsInjective ids) where
  snapshot_vehicles-Without :
      (k n : ℕ) (vs : List DispatchVehicleCreate)
      → k < n
      → Without vehicle_id (ids k) (snapshot_vehicles ids n vs)
  snapshot_vehicles-Without k n [] h = tt
  snapshot_vehicles-Without k n (v ∷ vs) h =
      let below : k < suc n = omega (arith, h) in
      (
        λ e. let same = distinct n k e in absurd (omega (arith, h, same)),
        snapshot_vehicles-Without k (suc n) vs below,
      )

  pub snapshot_vehicles-IsKeyed :
      (n : ℕ) (vs : List DispatchVehicleCreate) → IsKeyed vehicle_id (snapshot_vehicles ids n vs)
  snapshot_vehicles-IsKeyed n [] = tt
  snapshot_vehicles-IsKeyed n (v ∷ vs) =
      let next_ : n < suc n = omega arith in
      (snapshot_vehicles-Without n (suc n) vs next_, snapshot_vehicles-IsKeyed (suc n) vs)
