-- ===== src/Context/Tests.antt =====
-- The theorems on the processes of a node, at one process on each of two nodes.
use bsponmpi.Base.{
  ℕ, ◌<◌, ◌+◌, ◌≡◌, ◌≢◌, ◌⊎◌, refl, ap, arith, Array, ◌*◌, ◌-◌, ltb, if◌then◌else◌, some, none, ok,
  [], ◌∷◌, ◌++◌,
}
use bsponmpi.Delivtable.{DeliveryTable, it_put, it_send, zero_slot, tag_size, byte}
use bsponmpi.Delivtable.Deliver.{Delivered}
use bsponmpi.HeaderQueue.Fifo.{items}
use bsponmpi.LocalDelivery
use bsponmpi.LocalDelivery.{LocalDeliveryQueue}
use bsponmpi.LocalDelivery.Fixture as LocalFixture
use bsponmpi.LocalDelivery.Fixture.{empty-IsPending, empty-IsMail, room, grows, nothing_sent}
use bsponmpi.LocalDelivery.Puts.{IsPending, writes}
use bsponmpi.LocalDelivery.Messages.{IsMail, sent, received}
use bsponmpi.Mesgqueue.{MessageQueue}
use bsponmpi.Bspx.{put_element}
use bsponmpi.Bspx.Fixture as BspxFixture
use bsponmpi.Bspx.Fixture.{
  memory, no_actions, no_actions-IsDelivery, no_actions-nprocs, no_actions-rows, registered,
}
use bsponmpi.Private.{with_delivery}
use bsponmpi.TaskMapper
use bsponmpi.TaskMapper.{TaskMapper, place_all, place, where_is, global_to_node, global_to_local}
use bsponmpi.Context.{Supply, Node, with_local, send_element, bsp_put, bsp_send, bsp_hpsend}
use bsponmpi.RegChecks.{done, throws, number_mismatch}
use bsponmpi.Context.Local.{
  execute_locals, sync_locals, number, agreed, IsExecutedBelow, locals_lem,
}
use bsponmpi.Context.Local.Mail.{sync_locals_lem}
use bsponmpi.Context.Put.{put_lem}
use bsponmpi.Context.Send.{addressed, send_lem, hpsend_lem}
use bsponmpi.Context.Split.{dispatch, dispatch_lem, split}
use bsponmpi.Context.Split.Loop.{with_queue, upcoming, dispatch_all, split_lem}

abbrev supply : Supply
supply = record {
  local = LocalFixture.fresh;
  blocks = record {
    slots = BspxFixture.fresh;
    pointers = record { start = λ _. 0; count = λ _. 0; end_ = λ _. 0 };
    requests = λ _. BspxFixture.request;
    addresses = λ _. 0;
  };
  stale = BspxFixture.unset;
}

abbrev queue : MessageQueue
queue = record { recv_tag_size = 2; send_tag_size = 2; n_mesg = 0; accum_size = 0; head = none }

abbrev node : Node
node = record {
  bsp = record BspxFixture.bsp { message_queue = queue };
  mapper = TaskMapper.make (λ _. 0) 2 0 2;
  contexts = λ i. record {
    global_pid = i;
    local_pid = i;
    memory_register = BspxFixture.one_registered;
    reg_requests = [];
    local_deliveries = LocalDelivery.make LocalFixture.fresh;
  };
  memory = memory;
}

on_second : (global_to_node node.mapper 1 ≡ 1) × (global_to_local node.mapper 1 ≡ 0)
unfolding TaskMapper.make place_all place where_is global_to_node global_to_local
on_second = (refl, refl)

on_first : (global_to_node node.mapper 0 ≡ 0) × (global_to_local node.mapper 0 ≡ 0)
unfolding TaskMapper.make place_all place where_is global_to_node global_to_local
on_first = (refl, refl)

abbrev local : LocalDeliveryQueue
local = (node.contexts 0).local_deliveries

-- Three bytes, put at offset 5 of the area that process 1 registered.
put_lem_example :
    ((0 ≡ global_to_node node.mapper 1)
      × (q : LocalDeliveryQueue) × (bsp_put supply node 0 1 40 1000 5 3 ≡ ok (with_local node 0 q))
      × IsPending q
      × (writes q.put_buffer (items q.puts)
          ≡ writes local.put_buffer (items local.puts)
            ++ record { dst = 2005; content = 41 ∷ 42 ∷ 43 ∷ [] } ∷ []))
    ⊎ ((0 ≢ global_to_node node.mapper 1)
        × (t : DeliveryTable) × (bsp_put supply node 0 1 40 1000 5 3
            ≡ ok (record node { bsp = with_delivery node.bsp t }))
        × Delivered no_actions
            (global_to_node node.mapper 1)
            (put_element supply.stale 2005 3)
            it_put
            (41 ∷ 42 ∷ 43 ∷ [])
            t)
put_lem_example =
    put_lem supply node 0 1 40 1000 5 3 2000 registered empty-IsPending grows.0
      (omega (arith, room)) no_actions-IsDelivery (omega (arith, no_actions-nprocs, on_second))
      (rw (no_actions-nprocs, no_actions-rows) (omega arith))

-- A tag of two bytes and three bytes, sent to process 0 of the same node.
send_lem_example :
    ((0 ≡ global_to_node node.mapper 0)
      × (q : LocalDeliveryQueue) × (bsp_send supply node 0 10 40 3
          ≡ with_local node (global_to_local node.mapper 0) q)
      × IsMail 2 q
      × ((later : Array ℕ)
          → sent 2 later q
            ≡ sent 2 later local
              ++ record { tag = 11 ∷ 12 ∷ []; payload = 41 ∷ 42 ∷ 43 ∷ [] } ∷ []))
    ⊎ ((0 ≢ global_to_node node.mapper 0)
        × (t : DeliveryTable) × (bsp_send supply node 0 10 40 3
            ≡ record node { bsp = with_delivery node.bsp t })
        × Delivered no_actions
            (global_to_node node.mapper 0)
            (send_element supply.stale 2 3)
            it_send
            (addressed memory (global_to_local node.mapper 0) 10 2 40 3)
            t)
send_lem_example =
    send_lem supply node 0 10 40 3 empty-IsMail grows.1 (omega (arith, nothing_sent))
      (omega (arith, room)) no_actions-IsDelivery (omega (arith, no_actions-nprocs, on_first))
      (rw (no_actions-nprocs, no_actions-rows) (omega arith))

hpsend_lem_example :
    (t : DeliveryTable) × (bsp_hpsend supply node 1 10 40 3
      ≡ record node { bsp = with_delivery node.bsp t })
    × Delivered no_actions 1
        (send_element supply.stale 2 3)
        it_send
        (addressed memory (global_to_local node.mapper 1) 10 2 40 3)
        t
hpsend_lem_example =
    hpsend_lem supply node 1 10 40 3 (omega (arith, on_second)) no_actions-IsDelivery
      (omega (arith, no_actions-nprocs)) (rw (no_actions-nprocs, no_actions-rows) (omega arith))

-- Such a message has arrived in slot 9 of the table of the node.
abbrev at : ℕ
at = 8 * (9 + tag_size)

abbrev arrived : Array ℕ
arrived a =
    if ltb a (at + 2)
    then memory (10 + (a - at))
    else if ltb a (at + 6)
    then 0
    else memory (40 + (a - (at + 6)))

abbrev arrived_table : DeliveryTable
arrived_table = record {
  nprocs = 2;
  rows = 29;
  used_slot_count = λ _. 16;
  slot_size = 8;
  info = record { start = λ _. 0; count = λ _. 0; end_ = λ _. 0 };
  data_block = λ i. record zero_slot {
    tag = record zero_slot.tag { size = 9; info = record zero_slot.tag.info { payload_size = 7 } };
    bytes = λ k. arrived (8 * i + k);
  };
  offset = λ _. 0;
  bytes = λ _. 0;
}

abbrev receiving : Node
receiving = record node {
  bsp = record node.bsp {
    delivery_received_table = arrived_table;
    message_queue = record queue { n_mesg = 1; accum_size = 7; head = some 9 };
  };
}

dispatch_lem_example :
    (q : LocalDeliveryQueue) × (dispatch supply 0 (7, at, at + 2) receiving
      ≡ with_local receiving 0 q)
    × IsMail 2 q
    × (sent 2 (byte arrived_table.data_block) q
        ≡ sent 2 (byte arrived_table.data_block) local
          ++ record { tag = 11 ∷ 12 ∷ []; payload = 41 ∷ 42 ∷ 43 ∷ [] } ∷ [])
dispatch_lem_example =
    dispatch_lem supply 0 receiving at 2 0 3 memory 10 40 (omega arith) refl empty-IsMail grows.1
      (omega (arith, nothing_sent)) (byte arrived_table.data_block)
      (λ k h. ap (byte arrived_table.data_block) {x = 0 + (at + k)} {y = at + k} (omega arith))

split_lem_example :
    (q : MessageQueue) × (split 2 supply 0 receiving
      ≡ ok (
          with_queue (dispatch_all supply 0 (upcoming arrived_table.data_block 2 9 1) receiving) q))
    × (q.n_mesg ≡ 0)
split_lem_example = split_lem supply 0 1 receiving 9 refl (omega arith) refl

-- The loops at the start and the end of bsp_sync, with one process on the node.
locals_lem_example :
    (((lp : ℕ) → lp < 1 → number supply node lp ≡ number supply node 0)
      × (node' : Node) × (execute_locals 1 supply node ≡ done (agreed supply node 1, node'))
      × IsExecutedBelow supply node 1 node')
    ⊎ ((q : ℕ) × (q < 1)
        × (number supply node q ≢ number supply node 0)
        × ((lp : ℕ) → lp < q → number supply node lp ≡ number supply node 0)
        × (execute_locals 1 supply node ≡ throws number_mismatch))
locals_lem_example = locals_lem supply node 1 (λ lp h. empty-IsPending)

sync_locals_lem_example :
    let q' = ((sync_locals 1 supply node).contexts 0).local_deliveries in
    IsMail 2 q'
    × ((memory : Array ℕ) → received 2 memory q' ≡ sent 2 memory local)
    × ((memory : Array ℕ) → sent 2 memory q' ≡ [])
sync_locals_lem_example = sync_locals_lem supply node 1 2 0 (omega arith) empty-IsMail
