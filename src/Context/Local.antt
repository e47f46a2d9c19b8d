-- ===== src/Context/Local.antt =====
-- src/bsp_cpp/bsp_contextimpl.cpp: the loops over the processes of the node at the start and at the end
-- of bsp_sync. The number of registration requests is an `int` there, and none for -1; `any_hp`, which
-- nothing reads, is left out.
pub mod Mail
use bsponmpi.Base.{
  ℕ, zero, suc, ◌<◌, ◌≤◌, ◌≡◌, ◌≢◌, ◌∙◌, refl, sym, ap, ap₂, arith, Option, none, some, Array,
  update, update_self, update_ne, length, true, false, ◌==◌, if◌then◌else◌, ◌⊎◌, inl, inr, List, [],
}
use mathlib.Core.Path.{subst}
use native.Mathlib.Decide.{ℕ_discrete}
use bsponmpi.HeaderQueue.Fifo.{items}
use bsponmpi.LocalDelivery
use bsponmpi.LocalDelivery.{LocalDeliveryQueue, bsmp_messagequeue_sync}
use bsponmpi.LocalDelivery.Puts.{IsPending, writes, write_all, copy_all, execute_local_lem}
use bsponmpi.RegChecks.{Checked, done, throws, number_mismatch, ◌>>>◌}
use bsponmpi.Context.{Supply, Context, Node, with_local}

-- The local deliveries of one process, and the comparison of its number of requests.
abbrev pub compare_number : ℕ → Node → Option ℕ → Checked (Option ℕ × Node)
compare_number n node none = done (some n, node)
compare_number n node (some m) = if m == n then done (some m, node) else throws number_mismatch

unfoldable pub execute_one : Supply → ℕ → Option ℕ × Node → Checked (Option ℕ × Node)
unfolding LocalDelivery.execute
execute_one f lp (reg_req_size, node) =
    let (q, memory) =
      LocalDelivery.execute f.local (node.contexts lp).local_deliveries node.memory in
    compare_number (length (node.contexts lp).reg_requests)
      (record (with_local node lp q) { memory = memory }) reg_req_size

unfoldable pub execute_locals : ℕ → Supply → Node → Checked (Option ℕ × Node)
unfolding execute_one
execute_locals zero f node = done (none, node)
execute_locals (suc lp) f node = execute_locals lp f node >>> execute_one f lp

unfoldable pub sync_locals : ℕ → Supply → Node → Node
unfolding bsmp_messagequeue_sync
sync_locals zero f node = node
sync_locals (suc lp) f node =
    let node' = sync_locals lp f node in
    with_local node' lp (bsmp_messagequeue_sync f.local (node'.contexts lp).local_deliveries)

module _ (f : Supply) (node : Node) where
  abbrev pub local : ℕ → LocalDeliveryQueue
  local lp = (node.contexts lp).local_deliveries

  abbrev pub number : ℕ → ℕ
  number lp = length (node.contexts lp).reg_requests

  -- The memory once the processes below `n` have done their copies and writes.
  unfoldable pub memory_after : ℕ → Array ℕ
  memory_after zero = node.memory
  memory_after (suc lp) =
      write_all (writes (local lp).put_buffer (items (local lp).puts))
        (copy_all (items (local lp).hpputs) (memory_after lp))

  -- What is left of the queue of a process: the messages, their buffers and their byte counts are
  -- those from before.
  pub record IsExecuted (lp : ℕ) (q : LocalDeliveryQueue) : Type 0 where
    pub pending : IsPending q
    pub no_puts : items q.puts ≡ []
    pub no_hpputs : items q.hpputs ≡ []
    pub mail : q ≡ record (local lp) { puts = q.puts; hpputs = q.hpputs; put_buffer = q.put_buffer }

  pub record IsExecutedBelow (n : ℕ) (node' : Node) : Type 0 where
    pub memory : node'.memory ≡ memory_after n
    pub bsp : node'.bsp ≡ node.bsp
    pub below : (lp : ℕ) → lp < n → IsExecuted lp (node'.contexts lp).local_deliveries
    pub above : (lp : ℕ) → n ≤ lp → node'.contexts lp ≡ node.contexts lp

  next-IsExecutedBelow :
      (n : ℕ) (node' : Node)
      → IsExecutedBelow n node'
      → IsPending (local n)
      → let r = LocalDelivery.execute f.local (node'.contexts n).local_deliveries node'.memory in
        IsExecutedBelow (suc n) (record (with_local node' n r.0) { memory = r.1 })
  unfolding memory_after
  next-IsExecutedBelow n node' v pending =
      let run = LocalDelivery.execute f.local in
      let q = (node'.contexts n).local_deliveries in
      let r = run q node'.memory in
      let (q', e, left, no_puts, no_hpputs, mail) =
        execute_local_lem f.local (local n) (memory_after n) pending in
      let ran : r ≡ (q', memory_after (suc n)) =
        ap₂ run (ap (λ (c : Context). c.local_deliveries) (v.above n (omega arith))) v.memory ∙ e in
      let own : IsExecuted n q' = record {
        pending = left;
        no_puts = no_puts;
        no_hpputs = no_hpputs;
        mail = mail;
      } in
      let c : Context = record (node'.contexts n) { local_deliveries = r.0 } in
      let after = update node'.contexts n c in
      record {
        memory = ap (λ x. x.1) ran;
        bsp = v.bsp;
        below = λ lp h. elim (ℕ_discrete lp n) [
          | yes same ↦
              subst (λ k. IsExecuted k (after k).local_deliveries) (sym same)
                (subst (λ (x : Context). IsExecuted n x.local_deliveries)
                  (sym (update_self node'.contexts n c))
                  (subst (IsExecuted n) (sym (ap (λ x. x.0) ran)) own))
          | no ne ↦
              subst (λ (x : Context). IsExecuted lp x.local_deliveries)
                (sym (update_ne node'.contexts n c lp ne)) (v.below lp (omega (arith, h, ne)))
        ];
        above = λ lp h.
            update_ne node'.contexts n c lp (omega (arith, h)) ∙ v.above lp (omega (arith, h));
      }

  -- The number of requests that the processes below `n` agree on.
  abbrev pub agreed : ℕ → Option ℕ
  agreed zero = none
  agreed (suc n) = some (number 0)

  abbrev Passes : ℕ → Type 0
  Passes n =
      ((lp : ℕ) → lp < n → number lp ≡ number 0)
      × (node' : Node) × (execute_locals n f node ≡ done (agreed n, node'))
      × IsExecutedBelow n node'

  abbrev Fails : ℕ → Type 0
  Fails n =
      (q : ℕ) × (q < n)
      × (number q ≢ number 0)
      × ((lp : ℕ) → lp < q → number lp ≡ number 0)
      × (execute_locals n f node ≡ throws number_mismatch)

  -- One process more, after processes that agree.
  next_lem : (n : ℕ) → IsPending (local n) → Passes n → Passes (suc n) ⊎ Fails (suc n)
  unfolding execute_locals execute_one
  next_lem n pending (same, node', e, v) =
      let r = LocalDelivery.execute f.local (node'.contexts n).local_deliveries node'.memory in
      let after : Node = record (with_local node' n r.0) { memory = r.1 } in
      let ran : execute_locals (suc n) f node ≡ compare_number (number n) after (agreed n) =
        ap (λ o. o >>> execute_one f n) e
        ∙ ap (λ (c : Context). compare_number (length c.reg_requests) after (agreed n))
            (v.above n (omega arith)) in
      elim (ℕ_discrete (number n) (number 0)) [
        | yes equal ↦ inl (
          λ lp h. elim (ℕ_discrete lp n) [
            | yes own ↦ ap number own ∙ equal
            | no ne ↦ same lp (omega (arith, h, ne))
          ],
          after,
          ran ∙ passes n equal after,
          next-IsExecutedBelow n node' v pending,
        )
        | no ne ↦ inr (n, omega arith, ne, same, ran ∙ fails n ne after)
      ]
    where
      passes :
          (k : ℕ)
          → number k ≡ number 0
          → (after : Node)
          → compare_number (number k) after (agreed k) ≡ done (agreed (suc k), after)
      passes zero equal after = refl
      passes (suc k) equal after =
          let equals : (number 0 == number (suc k)) ≡ true = ground (arith, equal) in rw equals refl

      fails :
          (k : ℕ)
          → number k ≢ number 0
          → (after : Node) → compare_number (number k) after (agreed k) ≡ throws number_mismatch
      fails zero ne after = absurd (ne refl)
      fails (suc k) ne after =
          let differs : (number 0 == number (suc k)) ≡ false = ground (arith, ne) in rw differs refl

  -- Where the local deliveries of the first `n` processes of a node are in order, the first loop at
  -- the end of a superstep either finds as many registration requests at each of them as at the
  -- first: then for each process in turn it does the unbuffered copies in their order and then the
  -- buffered writes in theirs, on the memory that the process before it left, leaves none of them
  -- pending, the queues in order and the object of the node, the messages, their buffers and their
  -- byte counts as they are, and passes on that number of requests; or there is a first process
  -- with another number, and the loop throws.
  pub locals_lem :
      (n : ℕ)
      → ((lp : ℕ) → lp < n → IsPending (local lp))
      → (((lp : ℕ) → lp < n → number lp ≡ number 0)
          × (node' : Node) × (execute_locals n f node ≡ done (agreed n, node'))
          × IsExecutedBelow n node')
        ⊎ ((q : ℕ) × (q < n)
            × (number q ≢ number 0)
            × ((lp : ℕ) → lp < q → number lp ≡ number 0)
            × (execute_locals n f node ≡ throws number_mismatch))
  unfolding execute_locals memory_after
  locals_lem zero pending = inl (
    λ lp h. absurd (omega (arith, h)),
    node,
    refl,
    record {
      memory = refl;
      bsp = refl;
      below = λ lp h. absurd (omega (arith, h));
      above = λ lp h. refl;
    },
  )
  locals_lem (suc n) pending = elim (locals_lem n (λ lp h. pending lp (omega (arith, h)))) [
    | inl v ↦ next_lem n (pending n (omega arith)) v
    | inr (q, h, ne, same, e) ↦
        inr (q, omega (arith, h), ne, same, ap (λ o. o >>> execute_one f n) e)
  ]
