-- ===== src/Scheduler/Exclusion.antt =====
-- The token over a whole pass: nobody else gets it while its holder may use it.
use gemini.Prelude.{
  ℕ, ◌≤◌, ◌≡◌, refl, sym, ap, ◌∙◌, true, false, some, List, [], ◌∷◌, ◌++◌, ◌⊎◌, arith, length,
  length-append, one_if, Name, name_eq, name_eq_refl,
}
use gemini.Counts.{count, count-append}
use gemini.Double.{Double}
use gemini.Sort.{Sort}
use gemini.Scheduler.Defs.{Candidate}
use gemini.Scheduler.Select.{Scheduler}
use gemini.Scheduler.Daemon.{Wake, gives, schedule_pass, await_return, waits_again}
use gemini.Scheduler.Queue.{knows, requests}
use gemini.Scheduler.Loop.{received}
use gemini.Scheduler.Account.{IsConserved}
use gemini.Scheduler.Conservation.{gives-Used}
use gemini.Scheduler.Waiting.{Ended, await_return-returned}

append_cancel : {A : Type 0} (xs ys zs : List A) → xs ++ zs ≡ ys ++ zs → xs ≡ ys
append_cancel [] [] zs e = refl
append_cancel [] (y ∷ ys) zs e = absurd (omega (arith, ap length e, length-append (y ∷ ys) zs))
append_cancel (x ∷ xs) [] zs e = absurd (omega (arith, ap length e, length-append (x ∷ xs) zs))
append_cancel (x ∷ xs) (y ∷ ys) zs e = ground (arith, append_cancel xs ys zs)

module _ {D : Type 0} where
  -- How many requests of a client are in a queue.
  abbrev pub requests_of : Name → List (Candidate D) → ℕ
  requests_of n cs = count (λ (c : Candidate D). name_eq c.name n) cs

  -- No client has two requests there.
  abbrev pub IsSingle : List (Candidate D) → Type 0
  IsSingle cs = (n : Name) → requests_of n cs ≤ 1

  waits_again-none :
      (n : Name) (cs : List (Candidate D)) → requests_of n cs ≡ 0 → waits_again n cs ≡ false
  unfolding waits_again
  waits_again-none n [] h = refl
  waits_again-none n (c ∷ cs) h = ground (arith, waits_again-none n cs)

module _ {D : Type 0} ⦃d : Double D⦄ where
  -- If of the requests that wait, or come before the token is given, no two are of one client, then after
  -- the token is given the pass ends only at the deadline or after its holder has asked again. A pass in which
  -- `std::sort` is given no strict weak order is undefined, and gives no token here.
  pub schedule_pass-returned :
      (sorter : Sort) (now start : D) (s s' t : Scheduler D) (ws used rest rest' : List (Wake D))
      (c : Candidate D) (quota : D)
      → schedule_pass sorter now start s ws ≡ gives c quota s' rest
      → ws ≡ used ++ rest
      → IsSingle (s.candidates ++ requests (knows s.client_info_map) (received used))
      → await_return c.name rest s' ≡ some (t, rest')
      → (end : Ended c.name s' rest t rest') × ((end.last.timed_out ≡ true)
          ⊎ (waits_again c.name
                (requests (knows s'.client_info_map) (received end.before ++ end.last.messages))
              ≡ true))
  schedule_pass-returned sorter now start s s' t ws used rest rest' c quota given split single
        ended =
      await_return-returned c.name rest rest' s' t (waits_again-none c.name s'.candidates alone)
        ended
    where
      served : IsConserved s (received used) (c ∷ []) s'
      served =
          let (used', split', h) = gives-Used sorter now start s s' ws rest c quota given in
          rw (append_cancel used used' rest (sym split ∙ split')) h

      alone : requests_of c.name s'.candidates ≡ 0
      alone = omega (
        arith,
        single c.name,
        served.served (λ (b : Candidate D). name_eq b.name c.name),
        count-append (λ (b : Candidate D). name_eq b.name c.name) s.candidates
            (requests (knows s.client_info_map) (received used)),
        ap one_if (name_eq_refl c.name),
      )
