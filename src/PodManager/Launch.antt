-- ===== src/PodManager/Launch.antt =====
-- `main` of src/pod-manager.cpp up to where it serves: the environment, the connection to the scheduler, the
-- memory limit, and the socket for the hook libraries. What the system answers is an argument.
use gemini.Prelude.{
  ℕ, ◌≡◌, refl, ap, ◌∙◌, Bool, Option, none, some, List, [], ◌∷◌, if◌then◌else◌, ltb, length, Name,
  Bool-cases, Option-cases, inl, inr,
}
use gemini.Prelude.Int.{ℤ, pos, negsuc, eqb_ℤ}
use gemini.Comm.Buffer.{Buffer, ◌>>=◌}
use gemini.Comm.Attempts.{Attempt, multiple_attempt}
use gemini.Comm.FiveAttempts.{
  any_succeeds, error_after, SetsErrno, multiple_attempt-any_succeeds, any_succeeds-last,
  error_of-sets,
}
use gemini.Comm.Receive.{receive_answer}
use gemini.Hook.Connection.{atoi, to_uint16}
use gemini.PodManager.Memory.{Memory}
use gemini.PodManager.Startup.{from_answer}

pub record Settings : Type 0 where
  pub pod_name : Name
  pub pod_server_port : ℕ
  pub scheduler_ip : List ℕ
  pub scheduler_port : ℕ

-- The variables of the environment, and the name of the host.
pub record Variables : Type 0 where
  pub pod_name : Option Name
  pub pod_manager_port : Option (List ℕ)
  pub scheduler_ip : Option (List ℕ)
  pub scheduler_port : Option (List ℕ)
  pub host_name : Name

-- `strcpy` into so many bytes; `none` where it writes past them.
unfoldable pub strcpy : ℕ → List ℕ → Option (List ℕ)
strcpy size text = if ltb (length text) size then some text else none

unfoldable pub text_or : ℕ → Option (List ℕ) → List ℕ → Option (List ℕ)
unfolding strcpy
text_or size none default = some default
text_or size (some text) default = strcpy size text

unfoldable pub port_or : Option (List ℕ) → ℕ → ℕ
unfolding atoi to_uint16
port_or none default = default
port_or (some text) default = to_uint16 (atoi text)

abbrev pub host_name_max : ℕ
host_name_max = 64

-- "127.0.0.1"
abbrev pub default_ip : List ℕ
default_ip = 49 ∷ 50 ∷ 55 ∷ 46 ∷ 48 ∷ 46 ∷ 48 ∷ 46 ∷ 49 ∷ []

unfoldable pub configure : Variables → Option Settings
unfolding text_or port_or
configure e = text_or host_name_max e.pod_name e.host_name >>= λ name.
    text_or 20 e.scheduler_ip default_ip >>= λ ip. some (record {
      pod_name = name;
      pod_server_port = port_or e.pod_manager_port 50052;
      scheduler_ip = ip;
      scheduler_port = port_or e.scheduler_port 50051;
    })

-- What the calls of the system give: the error of `socket`, the attempts of `connect`, of sending the request
-- and receiving `response`, and of `bind`, and whether the second `socket` succeeds.
pub record Network : Type 0 where
  pub socket_error : Option ℤ
  pub connects : ℕ → Attempt
  pub asks : ℕ → Attempt
  pub response : Buffer
  pub has_accept_socket : Bool
  pub binds : ℕ → Attempt

pub data Launched : Type 0 where
  exited : ℤ → Launched
  serving : Memory → Launched

abbrev pub net_op_max_attempt : ℕ
net_op_max_attempt = 5

-- `if (rc != 0) exit(rc);`
unfoldable pub checked : Option ℤ → Option Launched → Option Launched
checked none next = none
checked (some rc) next = if eqb_ℤ rc (pos 0) then next else some (exited rc)

-- The reads of `retrieve_mem_info`.
abbrev pub memory_of : Buffer → Option Memory
memory_of rbuf = receive_answer 1 rbuf >>= λ a. from_answer a.1

unfoldable pub serve_hooks : Network → Memory → Option Launched
unfolding checked multiple_attempt
serve_hooks n m =
    if n.has_accept_socket
    then checked (multiple_attempt n.binds net_op_max_attempt).0 (some (serving m))
    else some (exited (negsuc 0))

unfoldable pub main : Network → Option Launched
unfolding serve_hooks from_answer receive_answer
main n = elim n.socket_error [
  | some errno ↦ some (exited errno)
  | none ↦ checked (multiple_attempt n.connects net_op_max_attempt).0 (
      checked (multiple_attempt n.asks net_op_max_attempt).0
        (memory_of n.response >>= serve_hooks n))
]

unfoldable pub first_error : List (Option ℤ) → Option ℤ
first_error [] = none
first_error (none ∷ es) = first_error es
first_error (some e ∷ es) = some e

-- The errors in the order in which `main` looks for them.
unfoldable pub errors : Network → List (Option ℤ)
unfolding error_after
errors n =
    n.socket_error
    ∷ error_after n.connects
    ∷ error_after n.asks
    ∷ (if n.has_accept_socket then none else some (negsuc 0))
    ∷ error_after n.binds
    ∷ []

unfoldable pub ended : Memory → Option ℤ → Launched
ended m none = serving m
ended m (some rc) = exited rc

abbrev thrown : Option ℤ → Option Launched → Option Launched
thrown none next = next
thrown (some rc) next = some (exited rc)

thrown-first_error :
    (c a k b : Option ℤ) (m : Memory)
    → thrown c (thrown a (thrown k (thrown b (some (serving m)))))
      ≡ some (ended m (first_error (c ∷ a ∷ k ∷ b ∷ [])))
unfolding first_error ended
thrown-first_error (some rc) a k b m = refl
thrown-first_error none (some rc) k b m = refl
thrown-first_error none none (some rc) b m = refl
thrown-first_error none none none (some rc) m = refl
thrown-first_error none none none none m = refl

checked-multiple_attempt :
    (func : ℕ → Attempt) (next : Option Launched)
    → SetsErrno func
    → checked (multiple_attempt func net_op_max_attempt).0 next ≡ thrown (error_after func) next
unfolding checked error_after
checked-multiple_attempt func next sets = elim (Bool-cases (any_succeeds 5 func)) [
  | inl good ↦ rw (multiple_attempt-any_succeeds func) (rw good refl)
  | inr bad ↦
      let last_fails = any_succeeds-last func bad in
      rw (multiple_attempt-any_succeeds func)
        (rw bad (rw (error_of-sets (func 4) last_fails (sets 4 last_fails)) refl))
]

-- The Pod manager serves with the memory that it was told, or exits with the first error in the order of its
-- steps, each of which has five attempts and fails with the error of the last one, if a call that fails sets
-- `errno` and the response can be read.
pub main-first_error :
    (n : Network) (m : Memory)
    → memory_of n.response ≡ some m
    → SetsErrno n.connects
    → SetsErrno n.asks
    → SetsErrno n.binds
    → main n ≡ some (ended m (first_error (errors n)))
unfolding main serve_hooks first_error errors ended
main-first_error n m told c a b = elim (Option-cases n.socket_error) [
  | inl fine ↦
      rw (main, fine)
        (checked-multiple_attempt n.connects asked c
          ∙ ap (thrown (error_after n.connects)) (
              checked-multiple_attempt n.asks served a
              ∙ ap (thrown (error_after n.asks)) (rw told served-thrown))
          ∙ thrown-first_error (error_after n.connects) (error_after n.asks) no_socket
              (error_after n.binds) m)
  | inr (errno, failed) ↦ rw (main, failed) refl
]
  where
    served : Option Launched
    served = memory_of n.response >>= serve_hooks n

    asked : Option Launched
    asked = checked (multiple_attempt n.asks net_op_max_attempt).0 served

    no_socket : Option ℤ
    no_socket = if n.has_accept_socket then none else some (negsuc 0)

    served-thrown :
        serve_hooks n m ≡ thrown no_socket (thrown (error_after n.binds) (some (serving m)))
    served-thrown = elim (Bool-cases n.has_accept_socket) [
      | inl has ↦ rw has (checked-multiple_attempt n.binds (some (serving m)) b)
      | inr lacks ↦ rw lacks refl
    ]
