-- ===== src/TaskMapper.antt =====
-- include/bsp_cpp/TaskMapper.h: the map from the logical processors to the nodes.
-- `nodes` and `me` are bsp_nprocs () and bsp_pid (). The `int` -1 is none. The contexts are made by
-- a factory that the user of the class supplies: `context_store` holds the processors it is asked for.
-- What a new array holds is an argument (`fresh`).
pub mod Inverse
mod Tests
use bsponmpi.Base.{
  ℕ, zero, suc, ◌+◌, ◌-◌, ◌*◌, ◌/◌, Option, none, some, Array, update, max_of, List, [], ◌∷◌, slice,
  ◌==◌, if◌then◌else◌,
}

-- The macro ICD, the quotient rounded up.
abbrev pub icd : ℕ → ℕ → ℕ
icd x y = (x + y - 1) / y

-- The node and the local number of a processor.
unfoldable pub where_is : ℕ → ℕ → ℕ → ℕ × ℕ
where_is nodes processors global_pid =
    let mppn = icd processors nodes in
    let node = global_pid / mppn in (node, global_pid - node * mppn)

pub record TaskMapper : Type 0 where
  pub processors : ℕ
  pub where_is_node : Array ℕ
  pub where_is_local : Array ℕ
  pub where_is_local_here : Array (Option ℕ)
  pub procs_on_node : Array ℕ
  pub which_global : Array (Option ℕ)
  pub procs_on_this_node : ℕ
  pub max_procs_per_node : ℕ

-- One round of the first loop of the constructor, and the rounds for the processors below `n`.
unfoldable pub place : ℕ → ℕ → ℕ → TaskMapper → TaskMapper
unfolding where_is
place nodes me p t =
    let (n, lp) = where_is nodes t.processors p in
    let on_node = update t.procs_on_node n (t.procs_on_node n + 1) in
    record t {
      where_is_node = update t.where_is_node p n;
      where_is_local = update t.where_is_local p lp;
      procs_on_node = on_node;
      max_procs_per_node = max_of t.max_procs_per_node (on_node n);
      where_is_local_here = update t.where_is_local_here p (if n == me then some lp else none);
      procs_on_this_node = if n == me then t.procs_on_this_node + 1 else t.procs_on_this_node;
    }

unfoldable pub place_all : ℕ → ℕ → ℕ → TaskMapper → TaskMapper
unfolding place
place_all zero nodes me t = t
place_all (suc p) nodes me t = place nodes me p (place_all p nodes me t)

-- The second loop, for the processors below `n`.
unfoldable pub invert : ℕ → TaskMapper → Array (Option ℕ) → Array (Option ℕ)
invert zero t which = which
invert (suc p) t which =
    update (invert p t which) (t.where_is_node p * t.max_procs_per_node + t.where_is_local p)
      (some p)

-- A local number on a node, as the logical processor.
unfoldable pub local_to_global_at : TaskMapper → ℕ → ℕ → Option ℕ
local_to_global_at t node local_pid = t.which_global (t.max_procs_per_node * node + local_pid)

unfoldable pub local_to_global_pid : ℕ → TaskMapper → ℕ → Option ℕ
local_to_global_pid me t local_pid = t.which_global (t.max_procs_per_node * me + local_pid)

-- None if the processor runs on a different node.
unfoldable pub global_to_local_pid : TaskMapper → ℕ → Option ℕ
global_to_local_pid t global_pid = t.where_is_local_here global_pid

unfoldable pub global_to_node : TaskMapper → ℕ → ℕ
global_to_node t global_pid = t.where_is_node global_pid

unfoldable pub global_to_local : TaskMapper → ℕ → ℕ
global_to_local t global_pid = t.where_is_local global_pid

-- The constructor up to the contexts.
unfoldable pub make : Array ℕ → ℕ → ℕ → ℕ → TaskMapper
unfolding place_all invert
make fresh nodes me processors =
    let t = place_all processors nodes me (record {
      processors = processors;
      where_is_node = fresh;
      where_is_local = fresh;
      where_is_local_here = λ _. none;
      procs_on_node = λ _. 0;
      which_global = λ _. none;
      procs_on_this_node = 0;
      max_procs_per_node = 0;
    }) in
    record t { which_global = invert processors t (λ _. none) }

-- The processors that the constructor makes contexts for.
unfoldable pub context_pids : ℕ → TaskMapper → List (Option ℕ)
unfolding local_to_global_pid
context_pids me t = slice (local_to_global_pid me t) 0 t.procs_on_this_node
