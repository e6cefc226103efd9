-- ===== src/Tests/Symbols.antt =====
-- A naming of the functions: "cu" and a number.
use gemini.Prelude.{ℕ, zero, suc, ◌≡◌, refl, sym, ap, ◌∙◌, List, [], ◌∷◌, Name, name_eq}
use gemini.Hook.Symbols.{
  Function, own, real, is_driver_name, dlsym, hook_symbol, hook_mem_free, mem_alloc,
  mem_alloc_managed, mem_alloc_pitch, mem_free, array_create, array3d_create, array_destroy,
  mipmapped_array_create, mipmapped_array_destroy, launch_kernel, launch_cooperative_kernel,
  mem_get_info, ctx_synchronize, memcpy_a_to_h, memcpy_d_to_h, memcpy_d_to_h_async, memcpy_h_to_a,
  memcpy_h_to_d, ctx_get_current, ctx_set_current, ctx_destroy, ctx_create, ctx_pop_current,
  ctx_push_current, device_primary_ctx_retain, device_primary_ctx_reset, device_primary_ctx_release,
  device_total_mem,
}
use gemini.Hook.Lookup.{AreNames, has_hook, dlsym-real, dlsym-hooked}

abbrev functions : List Function
functions =
    mem_alloc ∷ mem_alloc_managed ∷ mem_alloc_pitch ∷ mem_free ∷ array_create ∷ array3d_create
    ∷ array_destroy ∷ mipmapped_array_create ∷ mipmapped_array_destroy ∷ launch_kernel
    ∷ launch_cooperative_kernel ∷ mem_get_info ∷ ctx_synchronize ∷ memcpy_a_to_h ∷ memcpy_d_to_h
    ∷ memcpy_d_to_h_async ∷ memcpy_h_to_a ∷ memcpy_h_to_d ∷ ctx_get_current ∷ ctx_set_current
    ∷ ctx_destroy ∷ ctx_create ∷ ctx_pop_current ∷ ctx_push_current ∷ device_primary_ctx_retain
    ∷ device_primary_ctx_reset ∷ device_primary_ctx_release ∷ device_total_mem ∷ []

abbrev nth : ℕ → List Function → Function
nth i [] = mem_alloc
nth zero (f ∷ fs) = f
nth (suc i) (f ∷ fs) = nth i fs

abbrev number : Function → ℕ
number mem_alloc = 0
number mem_alloc_managed = 1
number mem_alloc_pitch = 2
number mem_free = 3
number array_create = 4
number array3d_create = 5
number array_destroy = 6
number mipmapped_array_create = 7
number mipmapped_array_destroy = 8
number launch_kernel = 9
number launch_cooperative_kernel = 10
number mem_get_info = 11
number ctx_synchronize = 12
number memcpy_a_to_h = 13
number memcpy_d_to_h = 14
number memcpy_d_to_h_async = 15
number memcpy_h_to_a = 16
number memcpy_h_to_d = 17
number ctx_get_current = 18
number ctx_set_current = 19
number ctx_destroy = 20
number ctx_create = 21
number ctx_pop_current = 22
number ctx_push_current = 23
number device_primary_ctx_retain = 24
number device_primary_ctx_reset = 25
number device_primary_ctx_release = 26
number device_total_mem = 27

nth-number : (f : Function) → nth (number f) functions ≡ f
nth-number mem_alloc = refl
nth-number f = refl

abbrev numbered : Function → Name
numbered f = 99 ∷ 117 ∷ number f ∷ []

abbrev third : Name → ℕ
third (a ∷ b ∷ c ∷ rest) = c
third _ = 0

numbered-AreNames : AreNames numbered
unfolding is_driver_name
numbered-AreNames = record {
  driver = λ f. refl;
  apart = λ f g e. sym (nth-number f) ∙ (ap (λ n. nth (third n) functions) e ∙ nth-number g);
}

dlsym-hooked_example : dlsym numbered (99 ∷ 117 ∷ 3 ∷ []) ≡ own mem_free
unfolding hook_symbol has_hook
dlsym-hooked_example = dlsym-hooked numbered numbered-AreNames mem_free hook_mem_free refl refl

unknown_name : dlsym numbered (99 ∷ 117 ∷ 200 ∷ []) ≡ real (99 ∷ 117 ∷ 200 ∷ [])
unfolding name_eq
unknown_name = dlsym-real numbered (99 ∷ 117 ∷ 200 ∷ []) (
    (
      refl,
      (
        refl,
        (
          refl,
          (
            refl,
            (
              refl,
              (
                refl,
                (
                  refl,
                  (
                    refl,
                    (
                      refl,
                      (
                        refl,
                        (
                          refl,
                          (
                            refl,
                            (
                              refl,
                              (
                                refl,
                                (
                                  refl,
                                  (
                                    refl,
                                    (
                                      refl,
                                      (
                                        refl,
                                        (refl, (refl, (refl, (refl, (refl, (refl, (refl, tt))))))),
                                      ),
                                    ),
                                  ),
                                ),
                              ),
                            ),
                          ),
                        ),
                      ),
                    ),
                  ),
                ),
              ),
            ),
          ),
        ),
      ),
    ))
