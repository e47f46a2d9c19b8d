-- ===== src/Delivtable/Queue.antt =====
-- deliveryTable_push as an operation on the six queues of every column.
use bsponmpi.Base.{
  ℕ, slice, ◌+◌, ◌*◌, ◌<◌, ◌≡◌, ◌∙◌, ap, arith, [], ◌∷◌, ◌++◌, ◌&&◌, ◌==◌, if◌then◌else◌, eq_if,
}
use native.Mathlib.Decide.{ℕ_discrete}
use bsponmpi.Exptable.{column}
use bsponmpi.Delivtable.{byte, DelivElement, DeliveryTable, ItemType, code, tag_size}
use bsponmpi.Delivtable.Index.{code-injective}
use bsponmpi.Delivtable.Column.{Action, action_at, queue, IsDelivery, same-IsColumn, same_queue}
use bsponmpi.Delivtable.Extends.{Extends}
use bsponmpi.Delivtable.Grow.{grown-IsColumn, queue_self, queue_other}

-- An extended table is in order, and the one queue has grown by the new action.
module _ (t t' : DeliveryTable) (d : IsDelivery t) (proc : ℕ) (hp : proc < t.nprocs)
    (element : DelivElement) (type : ItemType) (e : Extends t t' proc element type) where
  pub extended-IsDelivery : IsDelivery t'
  extended-IsDelivery = record {
    valid = e.valid;
    aligned = e.same_size ∙ d.aligned;
    columns = λ p h. elim (ℕ_discrete p proc) [
      | yes s ↦ rw s (grown-IsColumn t t' proc element type (d.columns proc hp) e.own)
      | no ne ↦ let q = rw e.nprocs at h in same-IsColumn t t' p (d.columns p q) (e.others p q ne)
    ];
  }

  -- The new object as its receiver will see it.
  abbrev pub new_action : Action
  new_action = record {
    size = element.size;
    info = element.info;
    payload =
        slice (byte t'.data_block) (8 * (column t'.rows proc + t.used_slot_count proc + tag_size))
          element.size;
  }

  new_action_lem : action_at t' proc (t.used_slot_count proc) ≡ new_action
  new_action_lem =
      ap
        (λ (x : DelivElement). record {
          size = x.size;
          info = x.info;
          payload =
              slice (byte t'.data_block)
                (8 * (column t'.rows proc + t.used_slot_count proc + tag_size)) x.size;
        })
        e.own.tag_new

  pub queue-extended :
      (q : ℕ) (other : ItemType)
      → q < t.nprocs
      → queue t' q other ≡ (
          if (q == proc) && (code other == code type)
          then queue t q other ++ new_action ∷ []
          else queue t q other)
  queue-extended q other hq =
      eq_if ((q == proc) && (code other == code type))
        (λ b.
          let at : q ≡ proc = ground arith in
          let of : other ≡ type = code-injective other type (ground arith) in
          rw (at, of, ← new_action_lem)
            (queue_self t t' proc element type (d.columns proc hp) e.own))
        (λ b. elim (ℕ_discrete q proc) [
          | yes s ↦ rw s (
              queue_other t t' proc element type (d.columns proc hp) e.own other
                (λ o. let same = ap code o in ground arith))
          | no ne ↦ same_queue t t' q (d.columns q hq) (e.others q hq ne) other
        ])
