-- ===== src/Hook/Symbols.antt =====
-- `dlsym`, `HookSymbolsEnum` of src/hook.h, the functions that `CU_HOOK_GENERATE_INTERCEPT` makes and the
-- table of hooks that `initialize` fills.
use gemini.Prelude.{
  Bool, false, ◌&&◌, Option, none, some, List, [], ◌∷◌, if◌then◌else◌, ◌==◌, Name, name_eq,
}

-- The functions of the CUDA driver that the library defines, and `cuMemcpyDtoHAsync`, of which it gives
-- the address only.
pub data Function : Type 0 where
  mem_alloc mem_alloc_managed mem_alloc_pitch mem_free : Function
  array_create array3d_create array_destroy mipmapped_array_create mipmapped_array_destroy :
      Function
  launch_kernel launch_cooperative_kernel mem_get_info ctx_synchronize : Function
  memcpy_a_to_h memcpy_d_to_h memcpy_d_to_h_async memcpy_h_to_a memcpy_h_to_d : Function
  ctx_get_current ctx_set_current ctx_destroy ctx_create ctx_pop_current ctx_push_current : Function
  device_primary_ctx_retain device_primary_ctx_reset device_primary_ctx_release : Function
  device_total_mem : Function

-- What `dlsym` gives: a function of this library, or what the real one finds for that name.
pub data Resolved : Type 0 where
  own : Function → Resolved
  real : Name → Resolved

-- The tests of `dlsym`, in order.
abbrev pub interposed : List Function
interposed =
    mem_alloc ∷ mem_alloc_managed ∷ mem_alloc_pitch ∷ mem_free ∷ array_create ∷ array3d_create
    ∷ array_destroy ∷ mipmapped_array_create ∷ mipmapped_array_destroy ∷ launch_kernel
    ∷ launch_cooperative_kernel ∷ mem_get_info ∷ ctx_synchronize ∷ memcpy_a_to_h ∷ memcpy_d_to_h
    ∷ memcpy_d_to_h_async ∷ memcpy_h_to_a ∷ memcpy_h_to_d ∷ ctx_set_current ∷ ctx_destroy
    ∷ ctx_create ∷ device_primary_ctx_reset ∷ device_primary_ctx_release ∷ ctx_pop_current
    ∷ ctx_push_current ∷ []

-- `strncmp(symbol, "cu", 2) == 0`
unfoldable pub is_driver_name : Name → Bool
is_driver_name (a ∷ b ∷ rest) = (a == 99) && (b == 117)
is_driver_name _ = false

module _ (symbol_name : Function → Name) where
  unfoldable pub first_match : Name → List Function → Resolved
  first_match symbol [] = real symbol
  first_match symbol (f ∷ fs) =
      if name_eq symbol (symbol_name f) then own f else first_match symbol fs

  -- The names are what `CUDA_SYMBOL_STRING` makes of the macros of cuda.h.
  unfoldable pub dlsym : Name → Resolved
  unfolding is_driver_name first_match
  dlsym symbol = if is_driver_name symbol then first_match symbol interposed else real symbol

-- `HookSymbols`
pub data HookSymbol : Type 0 where
  hook_mem_alloc hook_mem_alloc_managed hook_mem_alloc_pitch hook_mem_free : HookSymbol
  hook_array_create hook_array3d_create hook_mipmapped_array_create : HookSymbol
  hook_array_destroy hook_mipmapped_array_destroy : HookSymbol
  hook_ctx_get_current hook_ctx_set_current hook_ctx_create hook_ctx_destroy : HookSymbol
  hook_ctx_pop_current hook_ctx_push_current : HookSymbol
  hook_device_primary_ctx_retain hook_device_primary_ctx_reset : HookSymbol
  hook_device_primary_ctx_release hook_launch_kernel hook_launch_cooperative_kernel : HookSymbol
  hook_device_total_mem hook_mem_info hook_ctx_sync : HookSymbol
  hook_memcpy_atoh hook_memcpy_dtoh hook_memcpy_htoa hook_memcpy_htod : HookSymbol

-- The symbol under which an intercepted function looks up its hooks.
unfoldable pub hook_symbol : Function → Option HookSymbol
hook_symbol memcpy_a_to_h = some hook_memcpy_atoh
hook_symbol memcpy_d_to_h = some hook_memcpy_dtoh
hook_symbol memcpy_h_to_a = some hook_memcpy_htoa
hook_symbol memcpy_h_to_d = some hook_memcpy_htod
hook_symbol ctx_synchronize = some hook_ctx_sync
hook_symbol ctx_get_current = some hook_ctx_get_current
hook_symbol ctx_set_current = some hook_ctx_set_current
hook_symbol ctx_destroy = some hook_ctx_destroy
hook_symbol ctx_create = some hook_ctx_create
hook_symbol ctx_pop_current = some hook_ctx_pop_current
hook_symbol ctx_push_current = some hook_ctx_push_current
hook_symbol device_primary_ctx_retain = some hook_device_primary_ctx_retain
hook_symbol device_primary_ctx_reset = some hook_device_primary_ctx_reset
hook_symbol device_primary_ctx_release = some hook_device_primary_ctx_release
hook_symbol mem_alloc = some hook_mem_alloc
hook_symbol mem_alloc_managed = some hook_mem_alloc_managed
hook_symbol mem_alloc_pitch = some hook_mem_alloc_pitch
hook_symbol mem_free = some hook_mem_free
hook_symbol array_create = some hook_array_create
hook_symbol array3d_create = some hook_array3d_create
hook_symbol mipmapped_array_create = some hook_mipmapped_array_create
hook_symbol array_destroy = some hook_array_destroy
hook_symbol mipmapped_array_destroy = some hook_mipmapped_array_destroy
hook_symbol launch_kernel = some hook_launch_kernel
hook_symbol launch_cooperative_kernel = some hook_launch_cooperative_kernel
hook_symbol _ = none

-- The functions that `initialize` puts in the table.
pub data Hook : Type 0 where
  no_hook : Hook
  mem_alloc_hook mem_alloc_managed_hook mem_alloc_pitch_hook mem_free_hook : Hook
  array_create_hook array3d_create_hook mipmapped_array_create_hook : Hook
  array_destroy_hook mipmapped_array_destroy_hook : Hook
  launch_kernel_hook launch_cooperative_kernel_hook : Hook
  memcpy_atoh_hook memcpy_dtoh_hook memcpy_htoa_hook memcpy_htod_hook ctx_synchronize_hook : Hook

unfoldable pub pre_hooks : HookSymbol → Hook
pre_hooks hook_mem_free = mem_free_hook
pre_hooks hook_array_destroy = array_destroy_hook
pre_hooks hook_mipmapped_array_destroy = mipmapped_array_destroy_hook
pre_hooks hook_launch_kernel = launch_kernel_hook
pre_hooks hook_launch_cooperative_kernel = launch_cooperative_kernel_hook
pre_hooks hook_mem_alloc = mem_alloc_hook
pre_hooks hook_mem_alloc_managed = mem_alloc_managed_hook
pre_hooks hook_mem_alloc_pitch = mem_alloc_pitch_hook
pre_hooks hook_array_create = array_create_hook
pre_hooks hook_array3d_create = array3d_create_hook
pre_hooks hook_mipmapped_array_create = mipmapped_array_create_hook
pre_hooks _ = no_hook

unfoldable pub post_hooks : HookSymbol → Hook
post_hooks hook_memcpy_atoh = memcpy_atoh_hook
post_hooks hook_memcpy_dtoh = memcpy_dtoh_hook
post_hooks hook_memcpy_htoa = memcpy_htoa_hook
post_hooks hook_memcpy_htod = memcpy_htod_hook
post_hooks hook_ctx_sync = ctx_synchronize_hook
post_hooks hook_mem_alloc = mem_alloc_hook
post_hooks hook_mem_alloc_managed = mem_alloc_managed_hook
post_hooks hook_mem_alloc_pitch = mem_alloc_pitch_hook
post_hooks hook_array_create = array_create_hook
post_hooks hook_array3d_create = array3d_create_hook
post_hooks hook_mipmapped_array_create = mipmapped_array_create_hook
post_hooks _ = no_hook
