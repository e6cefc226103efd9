-- ===== src/Scheduler/Start.antt =====
-- `main` of src/scheduler.cpp behind its options: the resource file, the socket, the thread of
-- `schedule_daemon_func`, and the connections that are accepted. What the system answers is an argument.
use gemini.Prelude.{
  ℕ, zero, suc, ◌^◌, ◌<◌, ◌≡◌, refl, ap, ◌∙◌, true, false, Option, none, some, List, [], ◌∷◌, map,
  All, length, if◌then◌else◌, Bool,
}
use gemini.Prelude.Int.{ℤ, pos, negsuc, ltb_ℤ, eqb_ℤ}
use gemini.Prelude.Numerals.{Numeral, IsNumeral, number}
use gemini.Double.{Double}
use gemini.Comm.Buffer.{◌>>=◌}
use gemini.Scheduler.Select.{Scheduler}
use gemini.Scheduler.Requests.{Line, read_resource_config}
use gemini.Scheduler.ResourceFile.{read_resource_text}
use gemini.Scheduler.ResourceText.{
  Entry, line_of, file_text, IsWritten, read_resource_text-file_text,
}

-- The text of the file, if it opens; the results of `socket`, `bind` and `pthread_create`; and what `accept`
-- gives, `none` for -1.
pub record Host : Type 0 where
  pub text : Option (List ℕ)
  pub sockfd : ℤ
  pub bind_rc : ℤ
  pub thread_rc : ℤ
  pub accepts : List (Option ℕ)

-- The descriptors for which the loop creates threads, and what `main` returns if the loop ends.
unfoldable pub accept_pods : List (Option ℕ) → List ℤ × Option ℤ
accept_pods [] = ([], none)
accept_pods (some zero ∷ rs) = ([], some (pos 0))
accept_pods (some (suc fd) ∷ rs) =
    let (threads, result) = accept_pods rs in (pos (suc fd) ∷ threads, result)
accept_pods (none ∷ rs) = let (threads, result) = accept_pods rs in (negsuc 0 ∷ threads, result)

-- The way `main` goes: it exits, or serves the threads until it returns.
pub data Run (D : Type 0) : Type 0 where
  exited : ℤ → Run D
  serves : Scheduler D → List ℤ → Option ℤ → Run D

-- The first error of the system's answers.
unfoldable pub first_failure : Host → Option ℤ
first_failure h =
    if eqb_ℤ h.sockfd (negsuc 0)
    then some (negsuc 0)
    else if ltb_ℤ h.bind_rc (pos 0)
    then some (negsuc 0)
    else if eqb_ℤ h.thread_rc (pos 0)
    then none
    else some h.thread_rc

module _ {D : Type 0} where
  unfoldable pub serve_pods : Host → Scheduler D → Run D
  serve_pods h s = elim (first_failure h) [
    | some rc ↦ exited rc
    | none ↦ let (threads, result) = accept_pods h.accepts in serves s threads result
  ]

module _ {D : Type 0} ⦃d : Double D⦄ (num_get : List ℕ → Option (D × List ℕ)) where
  -- `container_num` and `old` are what the variables of `read_resource_config` hold; `none` is an overflow there.
  unfoldable pub serve_file : ℤ → Line D → Host → Scheduler D → Option (List ℕ) → Option (Run D)
  unfolding read_resource_text serve_pods
  serve_file container_num old h s none = some (exited (pos 1))
  serve_file container_num old h s (some text) =
      read_resource_text num_get container_num old text s >>= λ t. some (serve_pods h t)

  unfoldable pub main : ℤ → Line D → Host → Scheduler D → Option (Run D)
  unfolding serve_file
  main container_num old h s = serve_file container_num old h s h.text

-- The results of `accept` in front of the first descriptor 0, and whether there is one.
unfoldable pub before_zero : List (Option ℕ) → List (Option ℕ)
before_zero [] = []
before_zero (some zero ∷ rs) = []
before_zero (some (suc fd) ∷ rs) = some (suc fd) ∷ before_zero rs
before_zero (none ∷ rs) = none ∷ before_zero rs

unfoldable pub comes_zero : List (Option ℕ) → Bool
comes_zero [] = false
comes_zero (some zero ∷ rs) = true
comes_zero (some (suc fd) ∷ rs) = comes_zero rs
comes_zero (none ∷ rs) = comes_zero rs

abbrev pub descriptor : Option ℕ → ℤ
descriptor none = negsuc 0
descriptor (some fd) = pos fd

accept_pods-before_zero :
    (rs : List (Option ℕ))
    → accept_pods rs
      ≡ (map descriptor (before_zero rs), if comes_zero rs then some (pos 0) else none)
unfolding accept_pods before_zero comes_zero
accept_pods-before_zero [] = refl
accept_pods-before_zero (some zero ∷ rs) = refl
accept_pods-before_zero (some (suc fd) ∷ rs) = rw (accept_pods-before_zero rs) refl
accept_pods-before_zero (none ∷ rs) = rw (accept_pods-before_zero rs) refl

serve_pods-fine :
    {D : Type 0} (h : Host) (s : Scheduler D)
    → first_failure h ≡ none
    → serve_pods h s
      ≡ serves s
          (map descriptor (before_zero h.accepts))
          (if comes_zero h.accepts then some (pos 0) else none)
unfolding serve_pods
serve_pods-fine h s fine = rw (serve_pods, fine, accept_pods-before_zero h.accepts) refl

-- From a resource file as it is written, and where no call of the system fails before it accepts, the scheduler
-- serves with the clients of the file, in a thread for each result of `accept` in front of the first descriptor
-- 0, -1 included, and returns 0 at that descriptor and else not at all.
pub main-accepts :
    {D : Type 0} ⦃d : Double D⦄ (num_get : List ℕ → Option (D × List ℕ)) (count : Numeral)
    (es : List (Entry D)) (container_num : ℤ) (old : Line D) (h : Host) (s : Scheduler D)
    → IsNumeral count
    → number count ≡ length es
    → number count < 2 ^ 31
    → All (IsWritten num_get) es
    → h.text ≡ some (file_text count es)
    → first_failure h ≡ none
    → main num_get container_num old h s
      ≡ some (
          serves
            (read_resource_config s (map line_of es))
            (map descriptor (before_zero h.accepts))
            (if comes_zero h.accepts then some (pos 0) else none))
unfolding main serve_file
main-accepts num_get count es container_num old h s numeral counted small written opens fine =
    ap (serve_file num_get container_num old h s) opens
    ∙ (ap (λ o. o >>= λ t. some (serve_pods h t))
          (read_resource_text-file_text num_get count es container_num old s numeral counted small
            written)
        ∙ ap some (serve_pods-fine h (read_resource_config s (map line_of es)) fine))
