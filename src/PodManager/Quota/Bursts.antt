-- ===== src/PodManager/Quota/Bursts.antt =====
-- The burst that a request for quota carries.
use gemini.Prelude.{ℕ, ◌≡◌, false, List, [], ◌∷◌, All, arith}
use gemini.Double.{Double, IsOrdered, max_d}
use gemini.PodManager.Quota.State.{max_burst_from}

module _ {D : Type 0} ⦃d : Double D⦄ (laws : IsOrdered D) where
  open laws use {lt_irrefl, lt_trans, lt_split}

  not_below : (x y z : D) → d.lt x y ≡ false → d.lt y z ≡ false → d.lt x z ≡ false
  not_below x y z h k = ground (arith, lt_split x y z)

  max_d-bounds : (x y : D) → (d.lt (max_d x y) x ≡ false) × (d.lt (max_d x y) y ≡ false)
  max_d-bounds x y = ground (arith, lt_irrefl x, lt_irrefl y, lt_trans x y x)

  max_burst_from-start : (x : D) (m : List (ℕ × D)) → d.lt (max_burst_from x m) x ≡ false
  unfolding max_burst_from
  max_burst_from-start x [] = lt_irrefl x
  max_burst_from-start x ((k, v) ∷ m) =
      not_below (max_burst_from (max_d v x) m) (max_d v x) x (max_burst_from-start (max_d v x) m)
        (max_d-bounds v x).1

  -- The maximum of the bursts that a request carries is below no client's burst, and not below the value
  -- that the loop starts from.
  pub max_burst_from-bounds :
      (x : D) (m : List (ℕ × D))
      → (d.lt (max_burst_from x m) x ≡ false)
        × All (λ (e : ℕ × D). d.lt (max_burst_from x m) e.1 ≡ false) m
  unfolding max_burst_from
  max_burst_from-bounds x [] = (lt_irrefl x, tt)
  max_burst_from-bounds x ((k, v) ∷ m) =
      let best = max_burst_from (max_d v x) m in
      let above = max_burst_from-start (max_d v x) m in
      (
        not_below best (max_d v x) x above (max_d-bounds v x).1,
        (
          not_below best (max_d v x) v above (max_d-bounds v x).0,
          (max_burst_from-bounds (max_d v x) m).1,
        ),
      )
