-- ===== src/TaskMapper/Inverse.antt =====
-- The two directions of the map are inverse.
use bsponmpi.Base.{ℕ, ◌+◌, ◌-◌, ◌*◌, ◌/◌, ◌<◌, ◌≡◌, none, some, Array, min_of, ◌==◌, if◌then◌else◌}
use bsponmpi.TaskMapper.{TaskMapper, icd, place_all}

-- What the first loop has set after the processors below `k`, at `m` processors for each node.
record IsPlaced (m me k processors : ℕ) (t : TaskMapper) : Type 0 where
  same : t.processors ≡ processors
  node : (p : ℕ) → p < k → t.where_is_node p ≡ p / m
  local : (p : ℕ) → p < k → t.where_is_local p ≡ p - p / m * m
  here :
      (p : ℕ)
      → p < k
      → t.where_is_local_here p ≡ (if p / m == me then some (p - p / m * m) else none)
  count : (n : ℕ) → t.procs_on_node n ≡ min_of (k - n * m) m
  most : (p : ℕ) → p < k → p - p / m * m < t.max_procs_per_node
  mine : t.procs_on_this_node ≡ t.procs_on_node me

-- Where the second loop has put the processors below `k`, if different ones have different places.
module _ (t : TaskMapper) (processors : ℕ) where
  abbrev index : ℕ → ℕ
  index p = t.where_is_node p * t.max_procs_per_node + t.where_is_local p

module _ (fresh : Array ℕ) (nodes me processors : ℕ) (some_nodes : 0 < nodes) where
  abbrev m : ℕ
  m = icd processors nodes

  abbrev start : TaskMapper
  start = record {
    processors = processors;
    where_is_node = fresh;
    where_is_local = fresh;
    where_is_local_here = λ _. none;
    procs_on_node = λ _. 0;
    which_global = λ _. none;
    procs_on_this_node = 0;
    max_procs_per_node = 0;
  }

  abbrev mapped : TaskMapper
  mapped = place_all processors nodes me start
