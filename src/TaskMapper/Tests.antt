-- ===== src/TaskMapper/Tests.antt =====
-- The theorems on include/bsp_cpp/TaskMapper.h at five processors on two nodes.
use bsponmpi.Base.{ℕ, ◌≡◌, refl, Array, some, [], ◌∷◌}
use bsponmpi.TaskMapper.{
  make, place, place_all, invert, where_is, local_to_global_pid, context_pids,
}

abbrev fresh : Array ℕ
fresh _ = 77

contexts_of_second : context_pids 1 (make fresh 2 1 5) ≡ some 3 ∷ some 4 ∷ []
unfolding context_pids local_to_global_pid make place_all place invert where_is
contexts_of_second = refl
