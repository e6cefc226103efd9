-- ===== src/Scheduler/Priority.antt =====
-- The scheduling policy as an order of the candidates.
use gemini.Prelude.{◌≡◌, ◌⊎◌, true, false, arith}
use gemini.Double.{Double, IsOrdered}
use gemini.Sort.{IsStrictWeak}
use gemini.Scheduler.Defs.{ValidCandidate, schd_priority, zero_d}

module _ {D : Type 0} ⦃d : Double D⦄ where
  -- Below or above its request, and not just at it.
  abbrev pub IsOff : ValidCandidate D → Type 0
  IsOff a = (d.lt zero_d a.missing ≡ true) ⊎ (d.lt a.missing zero_d ≡ true)

  module _ (laws : IsOrdered D) where
    open laws use {lt_irrefl, lt_trans, lt_split}

    abbrev ratio : ValidCandidate D → D
    ratio a = d.div a.missing (d.add a.missing a.usage)

    -- A number is not on both sides of zero.
    one_side : (x : D) → d.lt zero_d x ≡ true → d.lt x zero_d ≡ false
    one_side x h = ground (arith, lt_trans zero_d x zero_d, lt_irrefl zero_d)

    schd_priority_irrefl : (a : ValidCandidate D) → schd_priority a a ≡ false
    unfolding schd_priority
    schd_priority_irrefl a =
        ground (arith, lt_irrefl (ratio a), lt_irrefl a.usage, one_side a.missing)

    schd_priority_trans :
        (a b c : ValidCandidate D)
        → IsOff a
        → IsOff b
        → IsOff c
        → schd_priority a b ≡ true
        → schd_priority b c ≡ true
        → schd_priority a c ≡ true
    unfolding schd_priority
    schd_priority_trans a b c oa ob oc h k = ground (
      arith,
      one_side a.missing,
      one_side b.missing,
      one_side c.missing,
      lt_trans (ratio c) (ratio b) (ratio a),
      lt_trans a.usage b.usage c.usage,
    )

    schd_priority_split :
        (a b c : ValidCandidate D)
        → IsOff a
        → IsOff b
        → IsOff c
        → schd_priority a c ≡ true
        → (schd_priority a b ≡ true) ⊎ (schd_priority b c ≡ true)
    unfolding schd_priority
    schd_priority_split a b c oa ob oc h = ground (
      arith,
      one_side a.missing,
      one_side b.missing,
      one_side c.missing,
      lt_split (ratio c) (ratio b) (ratio a),
      lt_split a.usage b.usage c.usage,
    )

    -- Among candidates of which none is just at its request the policy is a strict weak order, as
    -- `std::sort` demands.
    pub schd_priority-IsStrictWeak : IsStrictWeak IsOff schd_priority
    schd_priority-IsStrictWeak = record {
      irrefl = λ a _. schd_priority_irrefl a;
      trans = schd_priority_trans;
      split = schd_priority_split;
    }

  -- It is none on all candidates: one just at its request goes before one below its request that has
  -- used more and behind one above its request that has used less, and these two are the other way
  -- round.
  pub schd_priority_cycle :
      (above at below : ValidCandidate D)
      → d.lt above.missing zero_d ≡ true
      → d.lt zero_d above.missing ≡ false
      → d.lt at.missing zero_d ≡ false
      → d.lt zero_d at.missing ≡ false
      → d.lt zero_d below.missing ≡ true
      → d.lt above.usage at.usage ≡ true
      → d.lt at.usage below.usage ≡ true
      → (schd_priority above at ≡ true)
        × (schd_priority at below ≡ true)
        × (schd_priority below above ≡ true)
  unfolding schd_priority
  schd_priority_cycle above at below a1 a2 t1 t2 b1 u1 u2 = ground arith
