-- ===== src/Memory/Tests.antt =====
-- Runs of the byte routines.
use uami_os.Base.{◌≡◌, refl, some, [], ◌∷◌}
use uami_os.Memory.{memcpy, memcpy_loop, memset, memset_loop, memcmp, memcmp_loop}

memset_two : memset (1 ∷ 2 ∷ 3 ∷ []) 0x1ff 2 ≡ some (0xff ∷ 0xff ∷ 3 ∷ [])
unfolding memset memset_loop
memset_two = refl

memcpy_two : memcpy (1 ∷ 2 ∷ 3 ∷ []) (7 ∷ 8 ∷ []) 2 ≡ some (7 ∷ 8 ∷ 3 ∷ [])
unfolding memcpy memcpy_loop
memcpy_two = refl

memcmp_differs : memcmp (1 ∷ 2 ∷ []) (1 ∷ 3 ∷ []) 2 ≡ some 1
unfolding memcmp memcmp_loop
memcmp_differs = refl
