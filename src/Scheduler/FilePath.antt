-- ===== src/Scheduler/FilePath.antt =====
-- The path of the resource file in `read_resource_config` of src/scheduler.cpp. A buffer of `path_max` bytes
-- holds it; `none` is a read or write outside of it, or of the name of the directory.
use gemini.Prelude.{
  ℕ, zero, suc, ◌+◌, ◌-◌, ◌<◌, ◌≤◌, ◌≡◌, ◌==◌, refl, true, false, Bool-cases, inl, inr, Option,
  none, some, List, [], ◌∷◌, ◌++◌, if◌then◌else◌, arith, ltb, length,
}
use gemini.Scheduler.Options.{path_max, strncpy}

-- The last character; an empty text has none.
unfoldable pub last : List ℕ → Option ℕ
last [] = none
last (c ∷ []) = some c
last (c ∷ d ∷ text) = last (d ∷ text)

-- The directory, with a "/" behind it.
unfoldable pub with_slash : ℕ → List ℕ → List ℕ
with_slash c dir = if c == 47 then dir else dir ++ 47 ∷ []

-- `strncat(path, name, PATH_MAX - strlen(path))`
unfoldable pub strncat : List ℕ → List ℕ → Option (List ℕ)
unfolding strncpy
strncat path name =
    let copied = strncpy (path_max - length path) name in
    if ltb (length path + length copied) path_max then some (path ++ copied) else none

unfoldable pub full_path : List ℕ → List ℕ → Option (List ℕ)
unfolding last with_slash strncat
full_path dir name = elim (last dir) [
  | none ↦ none
  | some c ↦
      if ltb (length (with_slash c dir)) path_max then strncat (with_slash c dir) name else none
]

strncpy-fits : (n : ℕ) (text : List ℕ) → length text ≤ n → strncpy n text ≡ text
unfolding strncpy
strncpy-fits zero [] h = refl
strncpy-fits zero (c ∷ text) h = absurd (omega arith)
strncpy-fits (suc n) [] h = refl
strncpy-fits (suc n) (c ∷ text) h = rw (strncpy-fits n text (omega arith)) refl

length-strncpy : (n : ℕ) (text : List ℕ) → n ≤ length text → length (strncpy n text) ≡ n
unfolding strncpy
length-strncpy zero text h = refl
length-strncpy (suc n) [] h = absurd (omega arith)
length-strncpy (suc n) (c ∷ text) h = omega (arith, length-strncpy n text (omega arith))

strncat-append :
    (path name : List ℕ)
    → length path < path_max
    → strncat path name
      ≡ (if ltb (length path + length name) path_max then some (path ++ name) else none)
unfolding strncat
strncat-append path name room = elim (Bool-cases (ltb (length path + length name) path_max)) [
  | inl fits ↦ rw (strncpy-fits (path_max - length path) name (ground arith)) refl
  | inr over ↦
      let full : length (strncpy (path_max - length path) name) ≡ path_max - length path =
        length-strncpy (path_max - length path) name (ground arith) in
      let past : ltb (length path + length (strncpy (path_max - length path) name)) path_max
          ≡ false =
        ground arith in
      rw (strncat, past, over) refl
]

-- The path is the directory, a "/" if it does not end with one, and the whole name, or the buffer overflows:
-- the bound that is given to `strncat` leaves no room for the last zero byte, so that no name is cut off.
pub full_path-append :
    (dir name : List ℕ) (c : ℕ)
    → last dir ≡ some c
    → length (with_slash c dir) < path_max
    → full_path dir name ≡ (
        if ltb (length (with_slash c dir) + length name) path_max
        then some (with_slash c dir ++ name)
        else none)
unfolding full_path
full_path-append dir name c ends room =
    let has_room : ltb (length (with_slash c dir)) path_max ≡ true = ground arith in
    rw (full_path, ends, has_room) (strncat-append (with_slash c dir) name room)
