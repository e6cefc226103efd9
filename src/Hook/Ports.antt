-- ===== src/Hook/Ports.antt =====
-- A list of ports, written with commas, and what `configure_connection` reads from it.
use mathlib.Core.List.{append_assoc, append-nil}
use native.Mathlib.Nat.{pow-suc, mod-eq_of_lt}
use gemini.Prelude.{
  ℕ, suc, ◌+◌, ◌*◌, ◌^◌, ◌<◌, ◌≡◌, refl, sym, ap, ◌∙◌, false, some, List, [], ◌∷◌, ◌++◌, arith,
  ◌==◌, length, length-append, map, All, All-map,
}
use gemini.Prelude.Int.{pos}
use gemini.Prelude.Numerals.{
  Numeral, AreDigits, IsNumeral, value, number, characters, written, is_digit_char, char_value,
  value_shift,
}
use gemini.Hook.Connection.{
  Connection, token_of, strtok, digits, signed_digits, atoi, to_uint16, copy_ip,
  configure_connection, port_of, port_at,
}

-- The numerals with a comma between them.
unfoldable pub joined : Numeral → List Numeral → List ℕ
joined m [] = written m
joined m (k ∷ ks) = written m ++ 44 ∷ joined k ks

digits-value :
    (n : ℕ) (ds : List ℕ) → AreDigits ds → digits n (characters ds) ≡ n * 10 ^ length ds + value ds
unfolding digits
digits-value n [] h = ground arith
digits-value n (d ∷ ds) (small, h) =
    rw (is_digit_char d small, pow-suc 10 (length ds))
      (ap (λ k. digits (n * 10 + k) (characters ds)) (char_value d)
        ∙ (digits-value (n * 10 + d) ds h ∙ value_shift n d (10 ^ length ds) (value ds)))

atoi-written : (m : Numeral) → IsNumeral m → atoi (written m) ≡ pos (number m)
unfolding atoi signed_digits
atoi-written m (small, h) = ground (arith, digits-value 0 (m.first ∷ m.others) (small, h))

not_comma : (d : ℕ) → d < 10 → ((48 + d) == 44) ≡ false
not_comma d small = ground arith

-- Digits hold no comma.
strtok-characters :
    (begun ds rest : List ℕ)
    → AreDigits ds
    → strtok begun (characters ds ++ rest) ≡ strtok (begun ++ characters ds) rest
unfolding strtok
strtok-characters begun [] rest h = ap (λ l. strtok l rest) (sym (append-nil begun))
strtok-characters begun (d ∷ ds) rest (small, h) = rw (not_comma d small) (
    strtok-characters (begun ++ (48 + d) ∷ []) ds rest h
    ∙ ap (λ l. strtok l rest) (append_assoc begun ((48 + d) ∷ []) (characters ds)))

strtok-joined :
    (m : Numeral) (ms : List Numeral)
    → IsNumeral m
    → All IsNumeral ms
    → strtok [] (joined m ms) ≡ map written (m ∷ ms)
unfolding strtok joined token_of
strtok-joined m [] h hs =
    ap (strtok []) (sym (append-nil (written m))) ∙ strtok-characters [] (m.first ∷ m.others) [] h
strtok-joined m (k ∷ ks) h (hk, hs) =
    strtok-characters [] (m.first ∷ m.others) (44 ∷ joined k ks) h
    ∙ ap (λ l. written m ∷ l) (strtok-joined k ks hk hs)

read_port :
    (m : Numeral) → IsNumeral m → number m < 2 ^ 16 → to_uint16 (atoi (written m)) ≡ number m
unfolding to_uint16
read_port m numeral small = rw (atoi-written m numeral) (mod-eq_of_lt small)

read_ports :
    (ms : List Numeral)
    → All (λ m. IsNumeral m × (number m < 2 ^ 16)) ms
    → map (λ token. to_uint16 (atoi token)) (map written ms) ≡ map number ms
read_ports [] h = refl
read_ports (m ∷ ms) ((numeral, small), hs) = rw (read_port m numeral small, read_ports ms hs) refl

copy_ip_fits : (ip old : List ℕ) → length ip < 20 → copy_ip (some ip) old ≡ some ip
unfolding copy_ip
copy_ip_fits ip old short = ground arith

port_at-append : (xs ys : List ℕ) (i : ℕ) → port_at (length xs + i) (xs ++ ys) ≡ port_at i ys
unfolding port_at
port_at-append [] ys i = ap (λ k. port_at k ys) (omega arith)
port_at-append (x ∷ xs) ys i =
    let e : suc (length xs) + i ≡ suc (length xs + i) = omega arith in rw e (port_at-append xs ys i)

-- The library with the address and the ports behind those that it has, all of them devices.
abbrev pub connected_to : List ℕ → List ℕ → Connection → Connection
connected_to ip ports s = record {
  pod_manager_ip = ip;
  pod_manager_port_list = s.pod_manager_port_list ++ ports;
  current_gpu_num = length s.pod_manager_port_list + length ports;
}

configure_connection-ports :
    (ip : List ℕ) (m : Numeral) (ms : List Numeral) (s : Connection)
    → length ip < 20
    → All (λ k. IsNumeral k × (number k < 2 ^ 16)) (m ∷ ms)
    → configure_connection (some ip) (some (joined m ms)) s
      ≡ some (connected_to ip (map number (m ∷ ms)) s)
unfolding configure_connection
configure_connection-ports ip m ms s short ports =
    let numerals =
      All-map (λ k. IsNumeral k × (number k < 2 ^ 16)) IsNumeral (λ k h. h.0) (m ∷ ms) ports in
    rw
      (
        copy_ip_fits ip s.pod_manager_ip short,
        configure_connection,
        strtok-joined m ms numerals.0 numerals.1,
        read_ports (m ∷ ms) ports,
        length-append s.pod_manager_port_list (map number (m ∷ ms)),
      )
      refl

-- From a list of ports below 2 ^ 16 in decimal digits, with commas between them, and an address of less than
-- 20 characters, the library takes just these ports, in their order, behind those it has, and counts all as
-- its devices; and each new device has the port at its place in the list.
pub configure_connection-joined :
    (ip : List ℕ) (m : Numeral) (ms : List Numeral) (s : Connection) (device : ℕ)
    → length ip < 20
    → All (λ k. IsNumeral k × (number k < 2 ^ 16)) (m ∷ ms)
    → let t = connected_to ip (map number (m ∷ ms)) s in
      (configure_connection (some ip) (some (joined m ms)) s ≡ some t)
      × (port_of (length s.pod_manager_port_list + device) t ≡ port_at device (map number (m ∷ ms)))
unfolding port_of
configure_connection-joined ip m ms s device short ports = (
  configure_connection-ports ip m ms s short ports,
  port_at-append s.pod_manager_port_list (map number (m ∷ ms)) device,
)
