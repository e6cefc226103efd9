-- ===== src/Tests/Connections.antt =====
-- The environment variables of the hook library: "50051,50052".
use gemini.Prelude.{ℕ, ◌<◌, arith, ◌≡◌, refl, none, some, List, [], ◌∷◌}
use gemini.Hook.Connection.{
  Connection, configure_connection, copy_ip, strtok, token_of, atoi, signed_digits, digits,
  to_uint16, port_of, port_at,
}
use gemini.Prelude.Numerals.{Numeral, IsNumeral}
use gemini.Hook.Ports.{connected_to, joined, configure_connection-joined}

abbrev port : ℕ → Numeral
port n = record { first = 5; others = 0 ∷ 0 ∷ 5 ∷ n ∷ [] }

abbrev initial : Connection
initial = record {
  pod_manager_ip = 49 ∷ 50 ∷ 55 ∷ 46 ∷ 48 ∷ 46 ∷ 48 ∷ 46 ∷ 49 ∷ [];
  pod_manager_port_list = [];
  current_gpu_num = 0;
}

abbrev ip : List ℕ
ip = 49 ∷ 46 ∷ 49 ∷ 46 ∷ 49 ∷ 46 ∷ 49 ∷ []

all_digits : (n : ℕ) → n < 10 → IsNumeral (port n)
all_digits n small = (omega arith, (omega arith, (omega arith, (omega arith, (small, tt)))))

configure_connection-joined_example :
    let t = connected_to ip (50_051 ∷ 50_052 ∷ []) initial in
    (configure_connection (some ip) (some (joined (port 1) (port 2 ∷ []))) initial ≡ some t)
    × (port_of 1 t ≡ some 50_052)
unfolding port_at
configure_connection-joined_example =
    configure_connection-joined ip (port 1) (port 2 ∷ []) initial 1 (omega arith)
      ((all_digits 1 (omega arith), omega arith), ((all_digits 2 (omega arith), omega arith), tt))

-- Empty entries are passed over, so the devices behind them move up: "50051,,50052".
empty_entry :
    let list : List ℕ = 53 ∷ 48 ∷ 48 ∷ 53 ∷ 49 ∷ 44 ∷ 44 ∷ 53 ∷ 48 ∷ 48 ∷ 53 ∷ 50 ∷ [] in
    configure_connection none (some list) initial
    ≡ some (record initial { pod_manager_port_list = 50_051 ∷ 50_052 ∷ []; current_gpu_num = 2 })
unfolding configure_connection copy_ip strtok token_of atoi signed_digits digits to_uint16
empty_entry = refl

-- Without the variable there is no port to connect to.
no_ports : (configure_connection none none initial ≡ some initial) × (port_of 0 initial ≡ none)
unfolding configure_connection copy_ip port_of port_at
no_ports = (refl, refl)
