-- ===== src/Www/Guarded.antt =====
-- Threads that use the C interface: which calls are safe, and what becomes of the others.
use bsponmpi.Base.{
  ℕ, false, some, ◌>>=◌, ◌∙◌, ◌≡◌, ◌≢◌, ap, ok, List, [], ◌∷◌, ◌++◌, ◌==◌, if◌then◌else◌,
}
use bsponmpi.GlobalDrma.{next_handle, alloc_at, global_alloc}
use bsponmpi.Threads.{Op, System, start, Step, Reach, run_all}
use bsponmpi.Threads.Atomic.{IsGuarded}
use bsponmpi.Threads.Safety.{atomic_lem, progress_lem, lost_lem}
use bsponmpi.Www.{
  Env, Machine, World, Program, finish, bsp_nprocs, bsp_pid, bsp_sync, bsp_reset_buffers,
  bsp_push_reg, bsp_pop_reg, bsp_put, bsp_get, bsp_send, bsp_qsize, bsp_get_tag, bsp_move,
  bsp_set_tagsize, bsp_hpmove, bsp_hpput, bsp_hpget, alloc_op, bsp_global_alloc, bsp_global_free,
  bsp_global_get, bsp_global_put, bsp_global_hpget, bsp_global_hpput,
}

-- The calls of the interface.
pub data Call : Type 0 where
  call_nprocs : Call
  call_pid : Call
  call_sync : Call
  call_reset_buffers : Call
  call_push_reg : ℕ → Call
  call_pop_reg : ℕ → Call
  call_put : ℕ → ℕ → ℕ → ℕ → ℕ → Call
  call_get : ℕ → ℕ → ℕ → ℕ → ℕ → Call
  call_send : ℕ → ℕ → ℕ → ℕ → Call
  call_qsize : Call
  call_get_tag : ℕ → Call
  call_move : ℕ → ℕ → Call
  call_set_tagsize : ℕ → Call
  call_hpmove : Call
  call_hpput : ℕ → ℕ → ℕ → ℕ → ℕ → Call
  call_hpget : ℕ → ℕ → ℕ → ℕ → ℕ → Call
  call_global_alloc : ℕ → ℕ → Call
  call_global_free : ℕ → Call
  call_global_get : ℕ → ℕ → ℕ → ℕ → Call
  call_global_put : ℕ → ℕ → ℕ → ℕ → Call
  call_global_hpget : ℕ → ℕ → ℕ → ℕ → Call
  call_global_hpput : ℕ → ℕ → ℕ → ℕ → Call

unfoldable pub instructions : Env → Call → Program
unfolding bsp_nprocs bsp_pid bsp_sync bsp_reset_buffers bsp_push_reg bsp_pop_reg bsp_put bsp_get
    bsp_send bsp_qsize bsp_get_tag bsp_move bsp_set_tagsize bsp_hpmove bsp_hpput bsp_hpget
    bsp_global_alloc bsp_global_free bsp_global_get bsp_global_put bsp_global_hpget bsp_global_hpput
instructions env call_nprocs = bsp_nprocs env
instructions env call_pid = bsp_pid env
instructions env call_sync = bsp_sync env
instructions env call_reset_buffers = bsp_reset_buffers env
instructions env (call_push_reg ident) = bsp_push_reg env ident
instructions env (call_pop_reg ident) = bsp_pop_reg env ident
instructions env (call_put pid src dst offset nbytes) = bsp_put env pid src dst offset nbytes
instructions env (call_get pid src offset dst nbytes) = bsp_get env pid src offset dst nbytes
instructions env (call_send pid tag payload nbytes) = bsp_send env pid tag payload nbytes
instructions env call_qsize = bsp_qsize env
instructions env (call_get_tag tag) = bsp_get_tag env tag
instructions env (call_move payload nbytes) = bsp_move env payload nbytes
instructions env (call_set_tagsize nbytes) = bsp_set_tagsize env nbytes
instructions env call_hpmove = bsp_hpmove env
instructions env (call_hpput pid src dst offset nbytes) = bsp_hpput env pid src dst offset nbytes
instructions env (call_hpget pid src offset dst nbytes) = bsp_hpget env pid src offset dst nbytes
instructions env (call_global_alloc array_size slice) = bsp_global_alloc env array_size slice
instructions env (call_global_free handle) = bsp_global_free env handle
instructions env (call_global_get src offset dst nbytes) = bsp_global_get env src offset dst nbytes
instructions env (call_global_put src dst offset nbytes) = bsp_global_put env src dst offset nbytes
instructions env (call_global_hpget src offset dst nbytes) =
    bsp_global_hpget env src offset dst nbytes
instructions env (call_global_hpput src dst offset nbytes) =
    bsp_global_hpput env src dst offset nbytes

-- What a thread does that makes calls one after the other.
unfoldable pub thread : Env → List Call → Program
unfolding instructions
thread env [] = []
thread env (c ∷ l) = instructions env c ++ thread env l

-- The two calls that take no lock are those that make and free arrays.
abbrev pub IsLocked : Call → Type 0
IsLocked call_nprocs = Unit
IsLocked call_pid = Unit
IsLocked call_sync = Unit
IsLocked call_reset_buffers = Unit
IsLocked (call_push_reg _) = Unit
IsLocked (call_pop_reg _) = Unit
IsLocked (call_put _ _ _ _ _) = Unit
IsLocked (call_get _ _ _ _ _) = Unit
IsLocked (call_send _ _ _ _) = Unit
IsLocked call_qsize = Unit
IsLocked (call_get_tag _) = Unit
IsLocked (call_move _ _) = Unit
IsLocked (call_set_tagsize _) = Unit
IsLocked call_hpmove = Unit
IsLocked (call_hpput _ _ _ _ _) = Unit
IsLocked (call_hpget _ _ _ _ _) = Unit
IsLocked (call_global_alloc _ _) = ⊥
IsLocked (call_global_free _) = ⊥
IsLocked (call_global_get _ _ _ _) = Unit
IsLocked (call_global_put _ _ _ _) = Unit
IsLocked (call_global_hpget _ _ _ _) = Unit
IsLocked (call_global_hpput _ _ _ _) = Unit

pub data AllLocked : List Call → Type 0 where
  none_left : AllLocked []
  one_more : {c : Call} {l : List Call} → IsLocked c → AllLocked l → AllLocked (c ∷ l)

instructions-IsGuarded :
    (env : Env) (c : Call) (l : Program)
    → IsLocked c
    → IsGuarded false l
    → IsGuarded false (instructions env c ++ l)
unfolding instructions bsp_nprocs bsp_pid bsp_sync bsp_reset_buffers bsp_push_reg bsp_pop_reg
    bsp_put bsp_get bsp_send bsp_qsize bsp_get_tag bsp_move bsp_set_tagsize bsp_hpmove bsp_hpput
    bsp_hpget bsp_global_alloc bsp_global_free bsp_global_get bsp_global_put bsp_global_hpget
    bsp_global_hpput
instructions-IsGuarded env call_nprocs l h g = g
instructions-IsGuarded env call_pid l h g = g
instructions-IsGuarded env call_sync l h g = g
instructions-IsGuarded env call_reset_buffers l h g = g
instructions-IsGuarded env (call_push_reg _) l h g = g
instructions-IsGuarded env (call_pop_reg _) l h g = g
instructions-IsGuarded env (call_put _ _ _ _ _) l h g = g
instructions-IsGuarded env (call_get _ _ _ _ _) l h g = g
instructions-IsGuarded env (call_send _ _ _ _) l h g = g
instructions-IsGuarded env call_qsize l h g = g
instructions-IsGuarded env (call_get_tag _) l h g = g
instructions-IsGuarded env (call_move _ _) l h g = g
instructions-IsGuarded env (call_set_tagsize _) l h g = g
instructions-IsGuarded env call_hpmove l h g = g
instructions-IsGuarded env (call_hpput _ _ _ _ _) l h g = g
instructions-IsGuarded env (call_hpget _ _ _ _ _) l h g = g
instructions-IsGuarded env (call_global_alloc _ _) l h g = absurd h
instructions-IsGuarded env (call_global_free _) l h g = absurd h
instructions-IsGuarded env (call_global_get _ _ _ _) l h g = g
instructions-IsGuarded env (call_global_put _ _ _ _) l h g = g
instructions-IsGuarded env (call_global_hpget _ _ _ _) l h g = g
instructions-IsGuarded env (call_global_hpput _ _ _ _) l h g = g

pub thread-IsGuarded : (env : Env) (l : List Call) → AllLocked l → IsGuarded false (thread env l)
unfolding thread
thread-IsGuarded env _ none_left = tt
thread-IsGuarded env _ (one_more {c} {l} h rest) =
    instructions-IsGuarded env c (thread env l) h (thread-IsGuarded env l rest)

module _ (env : Env) (m : Machine) (calls : ℕ → List Call) (ops : List (Op World))
    (s : System World) (safe : (i : ℕ) → AllLocked (calls i))
    (r : Reach (start (ok m) (λ i. thread env (calls i))) ops s) where
  guarded : (i : ℕ) → IsGuarded false (thread env (calls i))
  guarded i = thread-IsGuarded env (calls i) (safe i)

  -- Where each thread of a processor makes any calls of the C interface one after the other, except
  -- those that allocate or free a global array, in every state that the threads reach, in which
  -- loading and storing the shared state are separate steps, the shared state is what the completed
  -- operations make of the first state one after the other, in the order of their completion; and a
  -- thread that has loaded the state has the present one and the lock.
  pub interface_lem :
      (s.state ≡ run_all ops (ok m))
      × ((i : ℕ) (w : World) → (s.threads i).loaded ≡ some w → (w ≡ s.state) × (s.lock ≡ some i))
  interface_lem = atomic_lem (ok m) (λ i. thread env (calls i)) ops s guarded r

  -- Where each thread of a processor makes any calls of the C interface one after the other, except
  -- those that allocate or free a global array, in every state that the threads reach in which some
  -- thread has not finished, some thread can take a step: the lock is never left taken.
  pub interface_live_lem :
      (i : ℕ)
      → (s.threads i).todo ≢ []
      → (j : ℕ) × (more : List (Op World)) × (u : System World) × Step s j more u
  interface_live_lem = progress_lem (ok m) (λ i. thread env (calls i)) ops s guarded r

module _ (env : Env) (m : Machine) (h : ℕ) (e : next_handle m.bsp ≡ ok h) where
  -- What one allocation does, alone.
  alloc-once :
      (n slice : ℕ)
      → alloc_op env n slice (ok m)
        ≡ (ok (record m { bsp = (alloc_at env.blocks.slots env.stale m.bsp n slice h).1 }), h ∷ [])
  unfolding alloc_op global_alloc alloc_at
  alloc-once n slice =
      ap
        (λ o. finish (
          (o >>= λ handle. ok (alloc_at env.blocks.slots env.stale m.bsp n slice handle)) >>= λ r.
          ok (r.0 ∷ [], record m { bsp = r.1 })))
        e

  -- Where the search for a handle returns one, two threads that each allocate a global array can
  -- both complete and both be given that handle, in a state that the second allocation alone would
  -- have made.
  pub handles_race_lem :
      (n slice n' slice' : ℕ)
      → (ops : List (Op World)) × (s : System World) × Reach
          (start
            (ok m)
            (λ i. if i == 0 then bsp_global_alloc env n slice else bsp_global_alloc env n' slice'))
          ops
          s
        × (s.state
            ≡ ok (record m { bsp = (alloc_at env.blocks.slots env.stale m.bsp n' slice' h).1 }))
        × ((s.threads 0).answers ≡ (h ∷ []) ∷ [])
        × ((s.threads 1).answers ≡ (h ∷ []) ∷ [])
  unfolding bsp_global_alloc
  handles_race_lem n slice n' slice' =
      let (s, r, q, a, b) = lost_lem (ok m) (alloc_op env n slice) (alloc_op env n' slice') in
      (
        alloc_op env n slice ∷ alloc_op env n' slice' ∷ [],
        s,
        r,
        q ∙ ap (λ x. x.0) (alloc-once n' slice'),
        a ∙ ap (λ x. x.1 ∷ []) (alloc-once n slice),
        b ∙ ap (λ x. x.1 ∷ []) (alloc-once n' slice'),
      )
