-- ===== src/RegChecks/Collective.antt =====
-- The exchange of the requests and the checks of a round, together.
use bsponmpi.Base.{ℕ, ◌+◌, ◌*◌, ◌≤◌, ◌<◌, ◌≡◌, Array, slice, List}
use bsponmpi.TaskMapper.{TaskMapper, global_to_node, global_to_local}
use bsponmpi.RegChecks.{RegRequest}
use bsponmpi.RegChecks.Exchange.{fill_requests}

-- What the nodes have, and what the communicator does: `requests n lp` are the requests of the process
-- `lp` of node `n`, `here n` the number of its processes, and this node, `me`, receives from each node
-- the part of its buffer for this one.
pub record IsExchange (mapper : TaskMapper) (nodes me count ppn : ℕ)
    (requests : ℕ → ℕ → Array RegRequest) (here : Array ℕ) (queues : ℕ → Array (List RegRequest))
    (fresh : ℕ → Array RegRequest) (received : Array RegRequest) : Type 0 where
  pub queued : (n lp : ℕ) → n < nodes → lp < here n → queues n lp ≡ slice (requests n lp) 0 count
  pub few : (n : ℕ) → n < nodes → here n ≤ ppn
  pub member : me < nodes
  pub delivered :
      (n c : ℕ)
      → n < nodes
      → c < count * ppn
      → received (n * count * ppn + c)
        ≡ fill_requests (here n) (queues n) nodes count ppn (fresh n) (me * count * ppn + c)
  pub placed :
      (gp : ℕ)
      → gp < mapper.processors
      → (global_to_node mapper gp < nodes)
        × (global_to_local mapper gp < here (global_to_node mapper gp))

module _ (mapper : TaskMapper) (nodes me count ppn : ℕ) (requests : ℕ → ℕ → Array RegRequest)
    (here : Array ℕ) (queues : ℕ → Array (List RegRequest)) (fresh : ℕ → Array RegRequest)
    (received : Array RegRequest) where
  -- Request number `req` of the process `gp`.
  abbrev pub asked : ℕ → ℕ → RegRequest
  asked req gp = requests (global_to_node mapper gp) (global_to_local mapper gp) req
