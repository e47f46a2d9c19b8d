-- ===== src/Threads.antt =====
-- src/bsp_threadsafe.h, src/bsp_mutex.c: threads that share an object under a lock.
-- A thread runs a list of instructions. An operation on the shared state is not atomic: the state is
-- loaded in one step, and the result is stored in a later one; what only reads is one step. The mutex is that of the operating
-- system: locking waits until no thread holds it.
pub mod Atomic
pub mod Safety
use bsponmpi.Base.{
  ℕ, Bool, true, false, Option, none, some, ◌≡◌, Array, update, List, [], ◌∷◌, ◌++◌,
}

-- An operation makes the next state, and what the call returns.
abbrev pub Op : Type 0 → Type 0
Op W = W → W × List ℕ

pub data Instr (W : Type 0) : Type 0 where
  ts_lock : Instr W
  ts_unlock : Instr W
  run : Op W → Instr W
  look : (W → List ℕ) → Instr W

-- `BSP_TS_LOCK (); op; BSP_TS_UNLOCK ();`, and the operation alone.
abbrev pub locked : {W : Type 0} → Op W → List (Instr W)
locked op = ts_lock ∷ run op ∷ ts_unlock ∷ []

abbrev pub unlocked : {W : Type 0} → Op W → List (Instr W)
unlocked op = run op ∷ []

pub record Thread (W : Type 0) : Type 0 where
  pub todo : List (Instr W)
  pub loaded : Option W
  pub answers : List (List ℕ)

pub record System (W : Type 0) : Type 0 where
  pub lock : Option ℕ
  pub state : W
  pub threads : Array (Thread W)

-- The threads at the start, with their programs.
abbrev pub start : {W : Type 0} → W → (ℕ → List (Instr W)) → System W
start w programs = record {
  lock = none;
  state = w;
  threads = λ i. record { todo = programs i; loaded = none; answers = [] };
}

abbrev pub with_thread : {W : Type 0} → System W → ℕ → Thread W → System W
with_thread s i t = record s { threads = update s.threads i t }

-- A step of thread `i`; the list is the operations that it completes.
pub data Step {W : Type 0} (s : System W) (i : ℕ) : List (Op W) → System W → Type 0 where
  take :
      {rest : List (Instr W)}
      → (s.threads i).todo ≡ ts_lock ∷ rest
      → s.lock ≡ none
      → Step s i []
          (record (with_thread s i (record (s.threads i) { todo = rest })) { lock = some i })
  leave :
      {rest : List (Instr W)}
      → (s.threads i).todo ≡ ts_unlock ∷ rest
      → Step s i []
          (record (with_thread s i (record (s.threads i) { todo = rest })) { lock = none })
  load :
      {op : Op W} {rest : List (Instr W)}
      → (s.threads i).todo ≡ run op ∷ rest
      → (s.threads i).loaded ≡ none
      → Step s i [] (with_thread s i (record (s.threads i) { loaded = some s.state }))
  store :
      {op : Op W} {rest : List (Instr W)} {w : W}
      → (s.threads i).todo ≡ run op ∷ rest
      → (s.threads i).loaded ≡ some w
      → Step s i
          (op ∷ [])
          (record (with_thread s i (record {
            todo = rest;
            loaded = none;
            answers = (s.threads i).answers ++ (op w).1 ∷ [];
          })) { state = (op w).0 })
  view :
      {f : W → List ℕ} {rest : List (Instr W)}
      → (s.threads i).todo ≡ look f ∷ rest
      → Step s i [] (
          with_thread s i (record (s.threads i) {
            todo = rest;
            answers = (s.threads i).answers ++ f s.state ∷ [];
          }))

-- The states that are reached, with the operations in the order of their completion.
pub data Reach {W : Type 0} (s : System W) : List (Op W) → System W → Type 0 where
  here : Reach s [] s
  later :
      {t u : System W} {ops more : List (Op W)} (i : ℕ)
      → Reach s ops t
      → Step t i more u
      → Reach s (ops ++ more) u

-- The operations one after the other.
unfoldable pub run_all : {W : Type 0} → List (Op W) → W → W
run_all [] w = w
run_all (op ∷ l) w = run_all l (op w).0
