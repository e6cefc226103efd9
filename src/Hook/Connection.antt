-- ===== src/Hook/Connection.antt =====
-- `configure_connection` of src/hook.cpp, and the port that `establish_connection` connects to.
use gemini.Prelude.{
  ℕ, zero, suc, ◌+◌, ◌-◌, ◌*◌, ◌%◌, ◌^◌, Option, none, some, List, [], ◌∷◌, ◌++◌, if◌then◌else◌,
  ltb, ◌==◌, length, map,
}
use gemini.Prelude.Numerals.{is_digit, is_space}
use gemini.Prelude.Int.{ℤ, pos, negsuc, ◌-ℤ◌}

-- The globals that it sets; characters are bytes.
pub record Connection : Type 0 where
  pub pod_manager_ip : List ℕ
  pub pod_manager_port_list : List ℕ
  pub current_gpu_num : ℕ

unfoldable pub token_of : List ℕ → List (List ℕ)
token_of [] = []
token_of (c ∷ cs) = (c ∷ cs) ∷ []

-- The tokens that `strtok` gives one after the other with "," as the only delimiter, with the token that
-- has begun; it gives no empty ones.
unfoldable pub strtok : List ℕ → List ℕ → List (List ℕ)
unfolding token_of
strtok begun [] = token_of begun
strtok begun (c ∷ cs) =
    if c == 44 then token_of begun ++ strtok [] cs else strtok (begun ++ c ∷ []) cs

-- The digits at the front, behind those that make `n`.
unfoldable pub digits : ℕ → List ℕ → ℕ
digits n [] = n
digits n (c ∷ cs) = if is_digit c then digits (n * 10 + (c - 48)) cs else n

unfoldable pub signed_digits : List ℕ → ℤ
unfolding digits
signed_digits [] = pos 0
signed_digits (c ∷ cs) =
    if c == 45
    then pos 0 -ℤ pos (digits 0 cs)
    else if c == 43
    then pos (digits 0 cs)
    else pos (digits 0 (c ∷ cs))

-- `atoi`, for numbers that fit in an `int`.
unfoldable pub atoi : List ℕ → ℤ
unfolding signed_digits
atoi [] = pos 0
atoi (c ∷ cs) = if is_space c then atoi cs else signed_digits (c ∷ cs)

-- The conversion from `int` to `uint16_t`.
unfoldable pub to_uint16 : ℤ → ℕ
to_uint16 (pos n) = n % 2 ^ 16
to_uint16 (negsuc n) = 2 ^ 16 - 1 - n % 2 ^ 16

-- `strcpy` into the 20 bytes of `pod_manager_ip`: `none` where it writes past them.
unfoldable pub copy_ip : Option (List ℕ) → List ℕ → Option (List ℕ)
copy_ip none ip = some ip
copy_ip (some new) ip = if ltb (length new) 20 then some new else none

-- From the two environment variables, where they are set.
unfoldable pub configure_connection :
    Option (List ℕ) → Option (List ℕ) → Connection → Option Connection
unfolding copy_ip strtok atoi to_uint16
configure_connection ip port s = elim (copy_ip ip s.pod_manager_ip) [
  | none ↦ none
  | some new_ip ↦ elim port [
    | none ↦ some (record s { pod_manager_ip = new_ip })
    | some list ↦
        let ports =
          s.pod_manager_port_list ++ map (λ token. to_uint16 (atoi token)) (strtok [] list) in
        some (record s {
          pod_manager_ip = new_ip;
          pod_manager_port_list = ports;
          current_gpu_num = length ports;
        })
  ]
]

unfoldable pub port_at : ℕ → List ℕ → Option ℕ
port_at device [] = none
port_at zero (p ∷ ps) = some p
port_at (suc device) (p ∷ ps) = port_at device ps

-- `pod_manager_port_list[device]` in `establish_connection`; `none` where it reads past the vector.
unfoldable pub port_of : ℕ → Connection → Option ℕ
unfolding port_at
port_of device s = port_at device s.pod_manager_port_list
