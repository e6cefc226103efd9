-- ===== src/Scheduler/Client.antt =====
-- `class ClientInfo`: what a returned token and a new quota are bounded by.
use gemini.Prelude.{
  ◌≡◌, refl, true, false, none, some, List, [], ◌∷◌, ◌++◌, arith, Name, name_eq, All,
}
use gemini.Double.{Double, IsOrdered, min_d}
use gemini.Scheduler.Defs.{
  History, ClientInfo, returned, return_last, update_return_time, get_quota,
}

module _ {D : Type 0} ⦃d : Double D⦄ where
  abbrev IsOther : Name → History D → Type 0
  IsOther name h = name_eq h.name name ≡ false

  return_last-none :
      (name : Name) (now overuse : D) (hs : List (History D))
      → All (IsOther name) hs
      → return_last name now overuse hs ≡ none
  unfolding return_last
  return_last-none name now overuse [] o = refl
  return_last-none name now overuse (h ∷ hs) (o, os) =
      ground (arith, return_last-none name now overuse hs os)

  return_last-append :
      (name : Name) (now overuse : D) (pre post : List (History D)) (h : History D)
      → name_eq h.name name ≡ true
      → All (IsOther name) post
      → return_last name now overuse (pre ++ h ∷ post)
        ≡ some (d.sub (returned now overuse h).end h.start, pre ++ returned now overuse h ∷ post)
  unfolding return_last
  return_last-append name now overuse [] post h e os =
      ground (arith, return_last-none name now overuse post os)
  return_last-append name now overuse (g ∷ pre) post h e os =
      rw (return_last-append name now overuse pre post h e os)

  -- When a client returns its token, the end of the last token of that name moves to the time of
  -- return or by the overuse, whichever is earlier, and no other token changes; the client's usage is
  -- the length that results. A client that was given no token changes no token.
  pub update_return_time-last :
      (c : ClientInfo D) (overuse now : D) (pre post : List (History D)) (h : History D)
      → name_eq h.name c.name ≡ true
      → All (λ (g : History D). name_eq g.name c.name ≡ false) post
      → (update_return_time c overuse now (pre ++ h ∷ post) ≡ (
        record c {
          latest_actual_usage = d.sub (min_d now (d.add h.end overuse)) h.start;
          latest_overuse = overuse;
        },
        pre ++ record h { end = min_d now (d.add h.end overuse) } ∷ post,
      ))
        × (update_return_time c overuse now post ≡ (record c { latest_overuse = overuse }, post))
  unfolding update_return_time
  update_return_time-last c overuse now pre post h e os = (
    rw (return_last-append c.name now overuse pre post h e os, update_return_time),
    rw (return_last-none c.name now overuse post os, update_return_time),
  )

  -- With a measured burst the quota never exceeds the client's maximum; it reaches the minimum quota
  -- unless the maximum is below that. Without one it is the base quota, whatever the maximum.
  pub get_quota_bounds :
      IsOrdered D
      → (c : ClientInfo D)
      → let quota = (get_quota c).0 in
        (d.lt c.burst (d.lit 1 9) ≡ false
          → (d.lt c.max_quota quota ≡ false)
            × (d.lt c.max_quota c.min_quota ≡ false → d.lt quota c.min_quota ≡ false))
        × (d.lt c.burst (d.lit 1 9) ≡ true → quota ≡ c.base_quota)
        × ((get_quota c).1 ≡ record c { quota = quota })
  unfolding get_quota
  get_quota_bounds laws c = ground (arith, laws.lt_irrefl c.max_quota, laws.lt_irrefl c.min_quota)
