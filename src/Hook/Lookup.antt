-- ===== src/Hook/Lookup.antt =====
-- What an application finds by `dlsym`.
use gemini.Prelude.{
  ◌≡◌, refl, sym, ap, ◌||◌, ◌⊎◌, Bool, true, false, some, List, [], ◌∷◌, Name, name_eq,
  name_eq_refl, name_eq_sound, Bool-cases, inl, inr, All, arith,
}
use gemini.Hook.Symbols.{
  Function, own, real, interposed, is_driver_name, first_match, dlsym, HookSymbol, hook_symbol,
  mem_alloc, Hook, no_hook, pre_hooks, post_hooks,
}

-- Names of driver functions begin with "cu", and no two are the same.
pub record AreNames (symbol_name : Function → Name) : Type 0 where
  pub driver : (f : Function) → is_driver_name (symbol_name f) ≡ true
  pub apart : (f g : Function) → symbol_name f ≡ symbol_name g → f ≡ g

-- Whether a function is in a list.
abbrev pub IsIn : Function → List Function → Type 0
IsIn f [] = ⊥
IsIn f (g ∷ gs) = (f ≡ g) ⊎ IsIn f gs

is_hook : Hook → Bool
is_hook no_hook = false
is_hook _ = true

-- Whether `initialize` places a hook there.
unfoldable pub has_hook : HookSymbol → Bool
unfolding is_hook pre_hooks post_hooks
has_hook s = is_hook (pre_hooks s) || is_hook (post_hooks s)

-- The functions with hooks are in the list.
hooked-IsIn :
    (f : Function) (s : HookSymbol) → hook_symbol f ≡ some s → has_hook s ≡ true → IsIn f interposed
unfolding hook_symbol has_hook
hooked-IsIn mem_alloc s e h = inl refl
hooked-IsIn f s e h = ground arith

module _ (symbol_name : Function → Name) where
  first_match-real :
      (symbol : Name) (fs : List Function)
      → All (λ f. name_eq symbol (symbol_name f) ≡ false) fs
      → first_match symbol_name symbol fs ≡ real symbol
  unfolding first_match
  first_match-real symbol [] h = refl
  first_match-real symbol (f ∷ fs) (h, hs) = rw h (first_match-real symbol fs hs)

  -- A name that none of the interposed functions has is looked up in the libraries behind.
  pub dlsym-real :
      (symbol : Name)
      → All (λ f. name_eq symbol (symbol_name f) ≡ false) interposed
      → dlsym symbol_name symbol ≡ real symbol
  unfolding dlsym
  dlsym-real symbol h = elim (Bool-cases (is_driver_name symbol)) [
    | inl driver_name ↦ rw driver_name (first_match-real symbol interposed h)
    | inr other ↦ rw other refl
  ]

module _ (symbol_name : Function → Name) (names : AreNames symbol_name) where
  open names use {driver, apart}

  -- A function that is not the first one is a further one.
  further :
      (f g : Function) (fs : List Function)
      → name_eq (symbol_name f) (symbol_name g) ≡ false
      → IsIn f (g ∷ fs)
      → IsIn f fs
  further f g fs other (inl e) = absurd (
      ground
        (arith, name_eq_refl (symbol_name f), ap (λ k. name_eq (symbol_name f) (symbol_name k)) e))
  further f g fs other (inr h) = h

  first_match-own :
      (f : Function) (fs : List Function)
      → IsIn f fs
      → first_match symbol_name (symbol_name f) fs ≡ own f
  unfolding first_match
  first_match-own f [] h = elim h [ ]
  first_match-own f (g ∷ fs) h = elim (Bool-cases (name_eq (symbol_name f) (symbol_name g))) [
    | inl same ↦
        rw same (ap own (sym (apart f g (name_eq_sound (symbol_name f) (symbol_name g) same))))
    | inr other ↦ rw other (first_match-own f fs (further f g fs other h))
  ]

  dlsym-own : (f : Function) → IsIn f interposed → dlsym symbol_name (symbol_name f) ≡ own f
  unfolding dlsym
  dlsym-own f h = rw (driver f) (first_match-own f interposed h)

  -- Every function whose symbol has a hook is found: an application that looks it up by its name gets
  -- this library's, so that the hook runs.
  pub dlsym-hooked :
      (f : Function) (s : HookSymbol)
      → hook_symbol f ≡ some s
      → has_hook s ≡ true
      → dlsym symbol_name (symbol_name f) ≡ own f
  dlsym-hooked f s e h = dlsym-own f (hooked-IsIn f s e h)
