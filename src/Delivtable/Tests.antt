-- ===== src/Delivtable/Tests.antt =====
-- The theorems on the table of src/bsp_delivtable.h at a new table of two columns.
use bsponmpi.Base.{ℕ, ◌*◌, ◌<◌, ◌≡◌, refl, arith, Array, [], ◌∷◌, ◌++◌, slice, true}
use bsponmpi.Exptable
use bsponmpi.Delivtable.{
  Slot, DelivInfo, DelivElement, DeliveryTable, ItemType, it_put, zero_slot, byte, initialize,
  index_columns, push, reset, empty, empty_loop,
}
use bsponmpi.Delivtable.Column.{queue, IsDelivery}
use bsponmpi.Delivtable.Push.{push-IsDelivery, queue-push}
use bsponmpi.Delivtable.Clear.{initialize-IsDelivery, reset-IsDelivery}

abbrev fresh : Array Slot
fresh _ = zero_slot

abbrev pointers : DelivInfo
pointers = record { start = λ _. 7; count = λ _. 7; end_ = λ _. 7 }

abbrev new_table : DeliveryTable
new_table = initialize fresh pointers 2 20

new_table-IsDelivery : IsDelivery new_table
new_table-IsDelivery = (initialize-IsDelivery fresh pointers 2 20 (omega arith)).0

new_table-nprocs : new_table.nprocs ≡ 2
unfolding initialize index_columns Exptable.initialize
new_table-nprocs = refl

new_table-rows : new_table.rows ≡ 29
unfolding initialize index_columns Exptable.initialize
new_table-rows = refl

-- A put of 12 bytes.
abbrev element : DelivElement
element = record zero_slot.tag { size = 12 }

new_table-empty : empty new_table ≡ true
unfolding initialize index_columns Exptable.initialize empty empty_loop
new_table-empty = refl

push-IsDelivery_example : IsDelivery (push fresh new_table 1 element it_put).1
push-IsDelivery_example =
    push-IsDelivery fresh new_table new_table-IsDelivery 1 (omega (arith, new_table-nprocs)) element
      it_put (rw (new_table-nprocs, new_table-rows) (omega arith))

queue-push_example :
    let (pointer, t') = push fresh new_table 1 element it_put in
    queue t' 1 it_put
    ≡ queue new_table 1 it_put
      ++ record {
        size = 12;
        info = element.info;
        payload = slice (byte t'.data_block) (8 * pointer) 12;
      }
        ∷ []
queue-push_example =
    queue-push fresh new_table new_table-IsDelivery 1 (omega (arith, new_table-nprocs)) element
      it_put (rw (new_table-nprocs, new_table-rows) (omega arith)) 1 it_put
      (omega (arith, new_table-nprocs))

reset-IsDelivery_example :
    let t = reset new_table in
    IsDelivery t
    × ((p : ℕ) (type : ItemType) → p < t.nprocs → queue t p type ≡ [])
    × (t.nprocs ≡ new_table.nprocs)
    × (t.rows ≡ new_table.rows)
reset-IsDelivery_example =
    reset-IsDelivery new_table new_table-IsDelivery (omega (arith, new_table-nprocs))
