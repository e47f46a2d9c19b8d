-- ===== src/Context/Split.antt =====
-- src/bsp_cpp/bsp_contextimpl.cpp: at the end of a superstep, the messages of the node are handed to
-- its processes. `base` is the address of the received table's block in the memory. The loop ends
-- when no message is left, so that their number and one is enough fuel.
pub mod Loop
use mathlib.Core.List.{head-eq_of_cons-eq, tail-eq_of_cons-eq}
use native.Mathlib.Decide.{ℕ_discrete}
use bsponmpi.Base.{
  ℕ, zero, suc, ◌+◌, ◌-◌, ◌*◌, ◌/◌, ◌%◌, ◌^◌, ◌<◌, ◌≤◌, ◌≡◌, ◌≢◌, ◌∙◌, refl, sym, ap, ap₂, arith,
  Option, none, some, Run, ok, fault, ◌>>=◌, Array, slice, slice_split, slice_ext, length,
  length-slice, update_self, update_ne, List, [], ◌∷◌, ◌++◌,
}
use bsponmpi.Delivtable.{byte, tag_size}
use bsponmpi.HeaderQueue.Fifo.{Grows}
use bsponmpi.LocalDelivery.{LocalDeliveryQueue, hpsend}
use bsponmpi.LocalDelivery.Messages.{IsMail, Mail, sent, hpsend_local_lem}
use bsponmpi.Private.{BspObject}
use bsponmpi.Bsmp.{hpmove}
use bsponmpi.Context.{Supply, Context, Node, with_local, int_bytes, int_size}
use bsponmpi.Context.Send.{addressed}

-- `*((int *) message)`
abbrev pub int_at : Array ℕ → ℕ → ℕ
int_at bytes a = bytes a + 256 * bytes (a + 1) + 256 ^ 2 * bytes (a + 2) + 256 ^ 3 * bytes (a + 3)

-- The body of the loop, for a message of `size` bytes with its tag.
unfoldable pub dispatch : Supply → ℕ → ℕ × ℕ × ℕ → Node → Node
unfolding hpsend
dispatch f base (size, tag, message) node =
    let lp = int_at (byte node.bsp.delivery_received_table.data_block) message in
    with_local node lp (
      hpsend f.local (node.contexts lp).local_deliveries (base + tag) (base + (message + int_size))
        ((size + (2 ^ 64 - int_size)) % 2 ^ 64))

-- What follows a look for the next message.
abbrev pub continue_with : Option (ℕ × ℕ × ℕ) → (ℕ × ℕ × ℕ → Run Node) → Node → Run Node
continue_with none rest last = ok last
continue_with (some m) rest last = rest m

unfoldable pub split : ℕ → Supply → ℕ → Node → Run Node
unfolding hpmove dispatch
split zero f base node = fault
split (suc fuel) f base node = hpmove node.bsp >>= λ moved.
    let node' = record node { bsp = moved.1 } in
    continue_with moved.0 (λ m. split fuel f base (dispatch f base m node')) node'

append_injective :
    (xs xs' ys ys' : List ℕ)
    → length xs ≡ length xs'
    → xs ++ ys ≡ xs' ++ ys'
    → (xs ≡ xs') × (ys ≡ ys')
append_injective [] [] ys ys' l e = (refl, e)
append_injective [] (x ∷ xs') ys ys' l e = absurd (omega (arith, l))
append_injective (x ∷ xs) [] ys ys' l e = absurd (omega (arith, l))
append_injective (x ∷ xs) (x' ∷ xs') ys ys' l e =
    let (rest, more) = append_injective xs xs' ys ys' (omega (arith, l)) (tail-eq_of_cons-eq e) in
    (ap₂ ◌∷◌ (head-eq_of_cons-eq e) rest, more)

-- The number that was put into the message is read again.
int_at-int_bytes :
    (bytes : Array ℕ) (a lp : ℕ)
    → lp < 2 ^ 32
    → slice bytes a int_size ≡ slice (int_bytes lp) 0 int_size
    → int_at bytes a ≡ lp
int_at-int_bytes bytes a lp small e =
    let b0 = head-eq_of_cons-eq e in
    let r1 = tail-eq_of_cons-eq e in
    let b1 = head-eq_of_cons-eq r1 in
    let r2 = tail-eq_of_cons-eq r1 in
    let b2 = head-eq_of_cons-eq r2 in
    let b3 = head-eq_of_cons-eq (tail-eq_of_cons-eq r2) in
    let second : a + 1 ≡ suc a = omega arith in
    let third : a + 2 ≡ suc (suc a) = omega arith in
    let fourth : a + 3 ≡ suc (suc (suc a)) = omega arith in
    rw (second, third, fourth, b0, b1, b2, b3) (omega arith)

module _ (f : Supply) (base : ℕ) (node : Node) (at tagsize lp nbytes : ℕ) (memory : Array ℕ)
    (tag payload : ℕ) where
  abbrev pub block : Array ℕ
  block = byte node.bsp.delivery_received_table.data_block

  abbrev pub local : LocalDeliveryQueue
  local = (node.contexts lp).local_deliveries

  module _ (small : lp < 2 ^ 31)
      (content : slice block at (tagsize + (int_size + nbytes))
        ≡ addressed memory lp tag tagsize payload nbytes) where
    -- The three parts of the message.
    parts :
        (slice block at tagsize ≡ slice memory tag tagsize)
        × (slice block (at + tagsize) int_size ≡ slice (int_bytes lp) 0 int_size)
        × (slice block (at + tagsize + int_size) nbytes ≡ slice memory payload nbytes)
    parts =
        let (first, rest) =
          append_injective (slice block at tagsize) (slice memory tag tagsize) _ _
            (length-slice block at tagsize ∙ sym (length-slice memory tag tagsize))
            (sym (slice_split block at tagsize (int_size + nbytes)) ∙ content) in
        let (second, third) =
          append_injective (slice block (at + tagsize) int_size) (slice (int_bytes lp) 0 int_size) _
            _ refl (sym (slice_split block (at + tagsize) int_size nbytes) ∙ rest) in
        (first, second, third)

    -- If a received message holds what a process of another node sent with the local number of the
    -- receiver, which fits `int`, and the mail of the receiver is in order with room for one more
    -- header and a byte count below 2^64, handing it over adds to the receiver's mail, behind the
    -- earlier messages, one with the tag and the payload that were sent, for any memory that holds
    -- the message at the address of the received table.
    pub dispatch_lem :
        IsMail tagsize local
        → Grows local.message_send_queue
        → local.bytes_sent + nbytes < 2 ^ 64
        → (later : Array ℕ)
        → ((k : ℕ) → k < tagsize + (int_size + nbytes) → later (base + (at + k)) ≡ block (at + k))
        → (q : LocalDeliveryQueue) × (dispatch f base (int_size + nbytes, at, at + tagsize) node
            ≡ with_local node lp q)
          × IsMail tagsize q
          × (sent tagsize later q
              ≡ sent tagsize later local
                ++ record { tag = slice memory tag tagsize; payload = slice memory payload nbytes }
                  ∷ [])
    unfolding dispatch
    dispatch_lem mail grows few later holds =
        let number = int_at-int_bytes block (at + tagsize) lp (omega (arith, small)) parts.1 in
        let size : (int_size + nbytes + (2 ^ 64 - int_size)) % 2 ^ 64 ≡ nbytes = omega arith in
        let (q, run, mail', more, _) =
          hpsend_local_lem f.local local tagsize mail (base + at) (base + (at + tagsize + int_size))
            nbytes grows few in
        let tag_lem : slice later (base + at) tagsize ≡ slice memory tag tagsize =
          slice_ext later block (base + at) at tagsize
            (λ k h. ap later (omega arith) ∙ holds k (omega arith))
          ∙ parts.0 in
        let payload_lem : slice later (base + (at + tagsize + int_size)) nbytes
            ≡ slice memory payload nbytes =
          slice_ext later block _ (at + tagsize + int_size) nbytes (λ k h.
            ap later (omega arith)
            ∙ holds (tagsize + int_size + k) (omega arith)
            ∙ ap block (omega arith))
          ∙ parts.2 in
        (
          q,
          rw (number, size, run) refl,
          mail',
          more later
              ∙ ap₂ (λ x y. sent tagsize later local ++ record { tag = x; payload = y } ∷ [])
                  tag_lem payload_lem,
        )
