-- ===== src/Www/Tests.antt =====
-- The theorems on the calls of src/bsp_www.c at two threads of a processor.
use bsponmpi.Base.{
  ℕ, ◌+◌, ap, ◌≡◌, refl, arith, ok, some, List, [], ◌∷◌, ◌==◌, if◌then◌else◌, length,
}
use bsponmpi.Bspx.Fixture
use bsponmpi.GlobalDrma.{next_handle, find_handle, alloc_at}
use bsponmpi.Threads.{Op, System, start, Step, Reach, here, later, take, load, view, run_all}
use bsponmpi.Www.{Env, Machine, World, bsp_push_reg, bsp_pid, bsp_global_alloc}
use bsponmpi.Www.Guarded.{
  Call, call_push_reg, call_pid, AllLocked, none_left, one_more, instructions, thread,
  interface_lem, interface_live_lem, handles_race_lem,
}

abbrev env : Env
env = record {
  blocks = record {
    slots = Fixture.fresh;
    pointers = record { start = λ _. 0; count = λ _. 0; end_ = λ _. 0 };
    requests = λ _. Fixture.request;
    addresses = λ _. 0;
  };
  stale = Fixture.unset;
  network = record {
    infocomm = λ _ _ r _. r;
    requests = λ _ _ _ r _ _. r;
    deliveries = λ _ _ _ r _ _. r;
    index = λ _. 0;
  };
}

abbrev machine : Machine
machine = record { bsp = Fixture.bsp; memory = Fixture.memory }

-- Each thread asks for its rank and registers an address.
abbrev calls : ℕ → List Call
calls i = call_pid ∷ call_push_reg (1000 + i) ∷ []

calls-AllLocked : (i : ℕ) → AllLocked (calls i)
calls-AllLocked i = one_more tt (one_more tt none_left)

-- Thread 1 has the lock, and has loaded the state.
abbrev Reached : Type 0
Reached =
    (ops : List (Op World)) × (s : System World) × Reach
      (start (ok machine) (λ i. thread env (calls i))) ops s
    × ((s.threads 1).loaded ≡ some (ok machine))
    × (length (s.threads 0).todo ≡ 4)

reached : Reached
unfolding thread instructions bsp_pid bsp_push_reg
reached = (
  _,
  _,
  later 1 (later 1 (later 1 here (view refl)) (take refl refl)) (load refl refl),
  refl,
  refl,
)

interface_lem_example :
    let s = reached.1 in
    (s.state ≡ run_all reached.0 (ok machine))
    × ((i : ℕ) (w : World) → (s.threads i).loaded ≡ some w → (w ≡ s.state) × (s.lock ≡ some i))
interface_lem_example =
    interface_lem env machine calls reached.0 reached.1 calls-AllLocked reached.2

interface_live_lem_example :
    let s = reached.1 in (j : ℕ) × (more : List (Op World)) × (u : System World) × Step s j more u
interface_live_lem_example =
    interface_live_lem env machine calls reached.0 reached.1 calls-AllLocked reached.2 0
      (λ e. absurd (omega (arith, reached.4, ap length e)))

first_free : next_handle machine.bsp ≡ ok 0
unfolding next_handle find_handle
first_free = refl

handles_race_lem_example :
    (ops : List (Op World)) × (s : System World) × Reach
      (start
        (ok machine)
        (λ i. if i == 0 then bsp_global_alloc env 100 4000 else bsp_global_alloc env 200 5000))
      ops
      s
    × (s.state
        ≡ ok (record machine {
          bsp = (alloc_at env.blocks.slots env.stale machine.bsp 200 5000 0).1;
        }))
    × ((s.threads 0).answers ≡ (0 ∷ []) ∷ [])
    × ((s.threads 1).answers ≡ (0 ∷ []) ∷ [])
handles_race_lem_example = handles_race_lem env machine 0 first_free 100 4000 200 5000
