-- ===== src/Www.antt =====
-- src/bsp_www.c: the calls of the C interface, as the instructions of the thread that calls them.
-- The lock macros of bsp_threadsafe.h do what they do with BSP_THREADSAFE defined. The object `g_bsp`
-- and the memory of the processor are the state that the threads share.
pub mod Guarded
mod Tests
use bsponmpi.Base.{ℕ, Option, none, some, Run, ok, abort, fault, ◌>>=◌, Array, List, [], ◌∷◌}
use bsponmpi.Delivtable.{Slot, DelivElement}
use bsponmpi.Private.{BspObject}
use bsponmpi.Bspx
use bsponmpi.Bspx.{Blocks, resetbuffers}
use bsponmpi.Bsmp
use bsponmpi.GlobalDrma
use bsponmpi.Sync.{Network, sync}
use bsponmpi.Threads.{Op, Instr, look, locked, unlocked}

-- What the calls find: allocated blocks, unassigned variables, and the other processors.
pub record Env : Type 0 where
  pub blocks : Blocks
  pub stale : DelivElement
  pub network : Network

pub record Machine : Type 0 where
  pub bsp : BspObject
  pub memory : Array ℕ

-- What the threads of a processor do; a call that aborts ends them all.
abbrev pub World : Type 0
World = Run Machine

abbrev pub Program : Type 0
Program = List (Instr World)

abbrev pub finish : Run (List ℕ × Machine) → World × List ℕ
finish (ok (answer, m)) = (ok m, answer)
finish (abort e) = (abort e, [])
finish fault = (fault, [])

-- A call, with what it returns and what it writes through its pointers to results.
abbrev pub call : (Machine → Run (List ℕ × Machine)) → Op World
call f (ok m) = finish (f m)
call f (abort e) = (abort e, [])
call f fault = (fault, [])

-- A call that only changes the object.
abbrev pub on_bsp : (Machine → Run BspObject) → Op World
on_bsp f = call (λ m. f m >>= λ b. ok ([], record m { bsp = b }))

-- A read of a field of the object.
abbrev pub field : (BspObject → ℕ) → World → List ℕ
field f (ok m) = f m.bsp ∷ []
field f (abort e) = []
field f fault = []

-- The numbers that an optional result stands for; -1 is none.
abbrev pub status : Option ℕ → List ℕ
status none = []
status (some n) = n ∷ []

abbrev pub moved : Option (ℕ × ℕ × ℕ) → List ℕ
moved none = []
moved (some (size, tag, payload)) = size ∷ tag ∷ payload ∷ []

module _ (env : Env) where
  abbrev slots : Array Slot
  slots = env.blocks.slots

  unfoldable pub bsp_nprocs : Program
  bsp_nprocs = look (field (λ b. b.nprocs)) ∷ []

  unfoldable pub bsp_pid : Program
  bsp_pid = look (field (λ b. b.rank)) ∷ []

  unfoldable pub bsp_sync : Program
  unfolding sync
  bsp_sync = locked (
      call (λ m. sync env.blocks env.stale env.network m.bsp m.memory >>= λ r.
      ok ([], record { bsp = r.0; memory = r.1 })))

  unfoldable pub bsp_reset_buffers : Program
  unfolding resetbuffers
  bsp_reset_buffers = locked (on_bsp (λ m. ok (resetbuffers env.blocks m.bsp)))

  unfoldable pub bsp_push_reg : ℕ → Program
  unfolding Bspx.push_reg
  bsp_push_reg ident = locked (on_bsp (λ m. ok (Bspx.push_reg slots env.stale m.bsp ident)))

  unfoldable pub bsp_pop_reg : ℕ → Program
  unfolding Bspx.pop_reg
  bsp_pop_reg ident = locked (on_bsp (λ m. ok (Bspx.pop_reg slots env.stale m.bsp ident)))

  unfoldable pub bsp_put : ℕ → ℕ → ℕ → ℕ → ℕ → Program
  unfolding Bspx.put
  bsp_put pid src dst offset nbytes =
      locked (on_bsp (λ m. Bspx.put slots env.stale m.memory m.bsp pid src dst offset nbytes))

  unfoldable pub bsp_get : ℕ → ℕ → ℕ → ℕ → ℕ → Program
  unfolding Bspx.get
  bsp_get pid src offset dst nbytes =
      locked (on_bsp (λ m. Bspx.get env.blocks.requests m.bsp pid src offset dst nbytes))

  unfoldable pub bsp_send : ℕ → ℕ → ℕ → ℕ → Program
  unfolding Bsmp.send
  bsp_send pid tag payload payload_nbytes =
      locked
        (on_bsp (λ m. ok (Bsmp.send slots env.stale m.memory m.bsp pid tag payload payload_nbytes)))

  unfoldable pub bsp_qsize : Program
  unfolding Bsmp.qsize
  bsp_qsize = locked (call (λ m. let (n, accum) = Bsmp.qsize m.bsp in ok (n ∷ accum ∷ [], m)))

  unfoldable pub bsp_get_tag : ℕ → Program
  unfolding Bsmp.get_tag
  bsp_get_tag tag = locked (
      call
        (λ m. Bsmp.get_tag m.memory m.bsp tag >>= λ r. ok (status r.0, record m { memory = r.1 })))

  unfoldable pub bsp_move : ℕ → ℕ → Program
  unfolding Bsmp.move
  bsp_move payload reception_nbytes = locked (
      call (λ m. Bsmp.move m.memory m.bsp payload reception_nbytes >>= λ r.
      ok ([], record { bsp = r.1; memory = r.0 })))

  unfoldable pub bsp_set_tagsize : ℕ → Program
  unfolding Bsmp.set_tagsize
  bsp_set_tagsize tag_nbytes = locked (
      call (λ m.
        let (old, b) = Bsmp.set_tagsize slots env.stale m.bsp tag_nbytes in
        ok (old ∷ [], record m { bsp = b })))

  unfoldable pub bsp_hpmove : Program
  unfolding Bsmp.hpmove
  bsp_hpmove =
      locked (call (λ m. Bsmp.hpmove m.bsp >>= λ r. ok (moved r.0, record m { bsp = r.1 })))

  unfoldable pub bsp_hpput : ℕ → ℕ → ℕ → ℕ → ℕ → Program
  unfolding Bspx.hpput
  bsp_hpput pid src dst offset nbytes =
      locked (on_bsp (λ m. Bspx.hpput slots env.stale m.memory m.bsp pid src dst offset nbytes))

  unfoldable pub bsp_hpget : ℕ → ℕ → ℕ → ℕ → ℕ → Program
  unfolding Bspx.hpget
  bsp_hpget pid src offset dst nbytes =
      locked (on_bsp (λ m. Bspx.hpget env.blocks.requests m.bsp pid src offset dst nbytes))

  -- Not locked; `slice` is the block that malloc returns.
  unfoldable pub alloc_op : ℕ → ℕ → Op World
  unfolding GlobalDrma.global_alloc
  alloc_op array_size slice = call (λ m.
      GlobalDrma.global_alloc slots env.stale m.bsp array_size slice >>= λ r.
      ok (r.0 ∷ [], record m { bsp = r.1 }))

  unfoldable pub bsp_global_alloc : ℕ → ℕ → Program
  unfolding alloc_op
  bsp_global_alloc array_size slice = unlocked (alloc_op array_size slice)

  unfoldable pub bsp_global_free : ℕ → Program
  unfolding GlobalDrma.global_free
  bsp_global_free ptr =
      unlocked (on_bsp (λ m. ok (GlobalDrma.global_free slots env.stale m.bsp ptr)))

  unfoldable pub bsp_global_get : ℕ → ℕ → ℕ → ℕ → Program
  unfolding GlobalDrma.global_get
  bsp_global_get src offset dest size =
      locked (on_bsp (λ m. GlobalDrma.global_get env.blocks.requests m.bsp src offset dest size))

  unfoldable pub bsp_global_put : ℕ → ℕ → ℕ → ℕ → Program
  unfolding GlobalDrma.global_put
  bsp_global_put src dest offset size =
      locked
        (on_bsp (λ m. GlobalDrma.global_put slots env.stale m.memory m.bsp src dest offset size))

  unfoldable pub bsp_global_hpget : ℕ → ℕ → ℕ → ℕ → Program
  unfolding GlobalDrma.global_hpget
  bsp_global_hpget src offset dest size =
      locked (on_bsp (λ m. GlobalDrma.global_hpget env.blocks.requests m.bsp src offset dest size))

  unfoldable pub bsp_global_hpput : ℕ → ℕ → ℕ → ℕ → Program
  unfolding GlobalDrma.global_hpput
  bsp_global_hpput src dest offset size =
      locked
        (on_bsp (λ m. GlobalDrma.global_hpput slots env.stale m.memory m.bsp src dest offset size))
