-- ===== src/Scheduler/Defs.antt =====
-- The records of src/scheduler.h and the methods of `class ClientInfo`. The fields that no code uses
-- (`memory_map`) and the history that only a debug build keeps are left out.
use gemini.Prelude.{
  ℕ, Bool, true, false, Option, none, some, List, [], ◌∷◌, ◌++◌, ◌&&◌, if◌then◌else◌, Name, name_eq,
}
use gemini.Double.{Double, max_d, min_d}

-- One token that was given: to whom, from when and until when.
pub record History (D : Type 0) : Type 0 where
  pub name : Name
  pub start : D
  pub end : D

pub record ClientInfo (D : Type 0) : Type 0 where
  pub name : Name
  pub gpu_mem_limit : ℕ
  pub min_frac : D
  pub max_frac : D
  pub base_quota : D
  pub min_quota : D
  pub max_quota : D
  pub quota : D
  pub latest_overuse : D
  pub latest_actual_usage : D
  pub burst : D

-- `candidate_t`
pub record Candidate (D : Type 0) : Type 0 where
  pub socket : ℕ
  pub name : Name
  pub req_id : ℕ
  pub arrived_time : D

-- `valid_candidate_t`; `iter` is the position in the list of candidates.
pub record ValidCandidate (D : Type 0) : Type 0 where
  pub missing : D
  pub remaining : D
  pub usage : D
  pub arrived_time : D
  pub iter : ℕ

module _ {D : Type 0} ⦃d : Double D⦄ where
  -- The constructor, with the two fields that `read_resource_config` sets behind it.
  unfoldable pub client_info : Name → ℕ → (baseq minq maxq minf maxf : D) → ClientInfo D
  client_info name limit baseq minq maxq minf maxf = record {
    name = name;
    gpu_mem_limit = limit;
    min_frac = minf;
    max_frac = maxf;
    base_quota = baseq;
    min_quota = minq;
    max_quota = maxq;
    quota = baseq;
    latest_overuse = d.lit 0 1;
    latest_actual_usage = d.lit 0 1;
    burst = d.lit 0 1;
  }

  unfoldable pub set_burst : ClientInfo D → D → ClientInfo D
  set_burst c estimated_burst = record c { burst = estimated_burst }

  -- What becomes of the entry that the loop of `update_return_time` stops at.
  abbrev pub returned : D → D → History D → History D
  returned now overuse h = record h { end = min_d now (d.add h.end overuse) }

  -- The loop: from the back, the first entry of that name is changed. With it comes its length.
  unfoldable pub return_last : Name → D → D → List (History D) → Option (D × List (History D))
  return_last name now overuse [] = none
  return_last name now overuse (h ∷ hs) = elim (return_last name now overuse hs) [
    | some (used, hs') ↦ some (used, h ∷ hs')
    | none ↦
        if name_eq h.name name
        then some (
          d.sub (returned now overuse h).end (returned now overuse h).start,
          returned now overuse h ∷ hs,
        )
        else none
  ]

  unfoldable pub update_return_time :
      ClientInfo D → D → D → List (History D) → ClientInfo D × List (History D)
  unfolding return_last
  update_return_time c overuse now history = elim (return_last c.name now overuse history) [
    | some (used, history') ↦
        (record c { latest_actual_usage = used; latest_overuse = overuse }, history')
    | none ↦ (record c { latest_overuse = overuse }, history)
  ]

  -- `Record`
  unfoldable pub record_token : ClientInfo D → D → D → List (History D) → List (History D)
  record_token c quota now history =
      history ++ record { name = c.name; start = now; end = d.add now quota } ∷ []

  -- How drastically the quota changes.
  abbrev pub update_rate : D
  update_rate = d.lit 5 1

  -- `quota_` after `get_quota`.
  unfoldable pub adapted : ClientInfo D → D
  adapted c =
      let mean =
        d.add (d.mul c.burst update_rate) (d.mul c.quota (d.sub (d.lit 1 0) update_rate)) in
      min_d (max_d mean c.min_quota) c.max_quota

  unfoldable pub get_quota : ClientInfo D → D × ClientInfo D
  unfolding adapted
  get_quota c =
      let quota = if d.lt c.burst (d.lit 1 9) then c.base_quota else adapted c in
      (quota, record c { quota = quota })

  -- src/schd-priority.cpp
  abbrev pub zero_d : D
  zero_d = d.lit 0 1

  unfoldable pub schd_priority : ValidCandidate D → ValidCandidate D → Bool
  schd_priority a b =
      if d.lt zero_d a.missing && d.lt zero_d b.missing
      then d.lt (d.div b.missing (d.add b.missing b.usage))
          (d.div a.missing (d.add a.missing a.usage))
      else if d.lt zero_d a.missing && d.lt b.missing zero_d
      then true
      else if d.lt a.missing zero_d && d.lt zero_d b.missing
      then false
      else d.lt a.usage b.usage
