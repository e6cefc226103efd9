-- ===== src/Scheduler/Config.antt =====
-- What reading the resource file does to the clients.
use gemini.Prelude.{
  ◌≡◌, refl, ◌∙◌, Option, none, some, List, [], ◌∷◌, if◌then◌else◌, Name, name_eq, Bool-cases, inl,
  inr,
}
use gemini.Double.{Double}
use gemini.Scheduler.Defs.{ClientInfo, client_info}
use gemini.Scheduler.Select.{Scheduler, find_client}
use gemini.Scheduler.Requests.{Line, read_line, read_resource_config}
use gemini.Scheduler.Safety.{find_client-put_client}

-- The last line of a client.
unfoldable pub last_line : {D : Type 0} → Name → List (Line D) → Option (Line D)
last_line n [] = none
last_line n (l ∷ ls) = elim (last_line n ls) [
  | some k ↦ some k
  | none ↦ if name_eq l.client_name n then some l else none
]

module _ {D : Type 0} ⦃d : Double D⦄ where
  -- The settings of a line, and the quota, burst and overuse of a client that is new.
  abbrev pub fresh : Scheduler D → Line D → ClientInfo D
  fresh s l =
      client_info l.client_name l.gpu_memory_size s.base_quota s.min_quota
        (d.mul l.gpu_max_fraction s.window_size) l.gpu_min_fraction l.gpu_max_fraction

  abbrev pub configured :
      Scheduler D → Option (ClientInfo D) → Option (Line D) → Option (ClientInfo D)
  configured s before none = before
  configured s before (some l) = some (fresh s l)

  -- After the file is read each client has the settings of its last line, as if it were new; a client with
  -- no line keeps all it had; and the history and the queue stay as they were.
  pub find_client-read_resource_config :
      (n : Name) (ls : List (Line D)) (s : Scheduler D)
      → (find_client n (read_resource_config s ls).client_info_map
          ≡ configured s (find_client n s.client_info_map) (last_line n ls))
        × (read_resource_config s ls
            ≡ record s { client_info_map = (read_resource_config s ls).client_info_map })
  unfolding read_resource_config last_line read_line
  find_client-read_resource_config n [] s = (refl, refl)
  find_client-read_resource_config n (l ∷ ls) s =
      let t = read_line s l in
      let (found, same) = find_client-read_resource_config n ls t in
      (found ∙ by_last (last_line n ls), same)
    where
      by_last :
          (o : Option (Line D))
          → configured (read_line s l) (find_client n (read_line s l).client_info_map) o
            ≡ configured s (find_client n s.client_info_map) (elim o [
              | some k ↦ some k
              | none ↦ if name_eq l.client_name n then some l else none
            ])
      by_last (some k) = refl
      by_last none = elim (Bool-cases (name_eq l.client_name n)) [
        | inl ours ↦
            rw (find_client-put_client l.client_name n (fresh s l) s.client_info_map, ours) refl
        | inr other ↦
            rw (find_client-put_client l.client_name n (fresh s l) s.client_info_map, other) refl
      ]
