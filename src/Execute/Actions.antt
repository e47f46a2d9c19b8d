-- ===== src/Execute/Actions.antt =====
-- The loops of deliveryTable_execute over the list of a type, against the queue of that type.
use bsponmpi.Base.{
  ℕ, zero, suc, ◌+◌, ◌^◌, ◌<◌, ◌≡◌, ◌∙◌, refl, ap, ap₂, fun_ext, arith, Option, some, Run, ok,
  ◌>>=◌, Array, update, memcpy, slice, u32, List, [], ◌∷◌,
}
use bsponmpi.Exptable.{column, cell}
use bsponmpi.Memreg
use bsponmpi.Memreg.{MemoryRegister}
use bsponmpi.Delivtable.{Slot, DeliveryTable, byte}
use bsponmpi.Delivtable.Chain.{hop, positions}
use bsponmpi.Delivtable.Column.{Action, next_in, actions_at}
use bsponmpi.Mesgqueue.{MessageQueue}
use bsponmpi.Execute.{do_puts, do_push_regs, do_pop_regs, do_set_tags, gather}

-- Writing bytes from address `d` on.
unfoldable pub write_list : Array ℕ → ℕ → List ℕ → Array ℕ
write_list memory d [] = memory
write_list memory d (x ∷ l) = write_list (update memory d x) (d + 1) l

-- What actions mean, oldest first.
unfoldable pub put_all : List Action → Array ℕ → Array ℕ
unfolding write_list
put_all [] memory = memory
put_all (a ∷ l) memory = put_all l (write_list memory a.info.put_dst a.payload)

unfoldable pub push_all : Array ℕ → ℕ → List Action → MemoryRegister → MemoryRegister
unfolding Memreg.push
push_all fresh p [] r = r
push_all fresh p (a ∷ l) r = push_all fresh p l (Memreg.push fresh r p a.info.push_address)

unfoldable pub pop_all : ℕ → List Action → MemoryRegister → Run MemoryRegister
unfolding Memreg.pop
pop_all rank [] r = ok r
pop_all rank (a ∷ l) r = Memreg.pop r rank a.info.pop_address >>= pop_all rank l

-- The tag size after some changes of it.
unfoldable pub last_tag_size : List Action → ℕ → ℕ
last_tag_size [] n = n
last_tag_size (a ∷ l) n = last_tag_size l a.info.tag_size

-- The bytes of messages, tags included.
unfoldable pub sizes : List Action → ℕ
sizes [] = 0
sizes (a ∷ l) = a.size + sizes l

memcpy-suc :
    (a b : Array ℕ) (d s n : ℕ)
    → memcpy a d b s (suc n) ≡ memcpy (update a d (b s)) (d + 1) b (s + 1) n
memcpy-suc a b d s n = fun_ext (λ k. ground arith)

pub memcpy_lem : (a b : Array ℕ) (d s n : ℕ) → memcpy a d b s n ≡ write_list a d (slice b s n)
unfolding write_list
memcpy_lem a b d s zero = fun_ext (λ k. ground arith)
memcpy_lem a b d s (suc n) =
    let next : s + 1 ≡ suc s = omega arith in
    memcpy-suc a b d s n
    ∙ memcpy_lem (update a d (b s)) b (d + 1) (s + 1) n
    ∙ ap (λ i. write_list (update a d (b s)) (d + 1) (slice b i n)) next

module _ (t : DeliveryTable) (p : ℕ) where
  abbrev block : Array Slot
  block = t.data_block

  abbrev base : ℕ
  base = column t.rows p

  -- The actions from place `s` of the column on.
  abbrev from : ℕ → ℕ → List Action
  from s n = actions_at t p (positions (next_in t p) s n)

  onward : (s : ℕ) → base + s + next_in t p s ≡ base + (s + next_in t p s)
  onward s = omega arith

  pub do_puts_lem :
      (n s : ℕ) (memory : Array ℕ) → do_puts n block (base + s) memory ≡ put_all (from s n) memory
  unfolding do_puts put_all positions
  do_puts_lem zero s memory = refl
  do_puts_lem (suc n) s memory =
      ap₂ (do_puts n block) (onward s) (memcpy_lem memory (byte block) _ _ _)
      ∙ do_puts_lem n (s + next_in t p s) _

  pub do_push_regs_lem :
      (n s : ℕ) (fresh : Array ℕ) (r : MemoryRegister)
      → do_push_regs n fresh block (base + s) p r ≡ push_all fresh p (from s n) r
  unfolding do_push_regs push_all positions
  do_push_regs_lem zero s fresh r = refl
  do_push_regs_lem (suc n) s fresh r =
      ap
        (λ i.
          do_push_regs n fresh block i p (Memreg.push fresh r p (cell t p s).tag.info.push_address))
        (onward s)
      ∙ do_push_regs_lem n (s + next_in t p s) fresh _

  pub do_pop_regs_lem :
      (n s : ℕ) (r : MemoryRegister) → do_pop_regs n block (base + s) p r ≡ pop_all p (from s n) r
  unfolding do_pop_regs pop_all positions
  do_pop_regs_lem zero s r = refl
  do_pop_regs_lem (suc n) s r = ap (◌>>=◌ (Memreg.pop r p (cell t p s).tag.info.pop_address)) (
      fun_ext (λ r'.
        ap (λ i. do_pop_regs n block i p r') (onward s) ∙ do_pop_regs_lem n (s + next_in t p s) r'))

  pub do_set_tags_lem :
      (n s : ℕ) (q : MessageQueue)
      → do_set_tags n block (base + s) q
        ≡ record q { send_tag_size = last_tag_size (from s n) q.send_tag_size }
  unfolding do_set_tags last_tag_size positions
  do_set_tags_lem zero s q = refl
  do_set_tags_lem (suc n) s q =
      ap (λ i. do_set_tags n block i (record q { send_tag_size = (cell t p s).tag.info.tag_size }))
        (onward s)
      ∙ do_set_tags_lem n (s + next_in t p s) _

  -- The queue after one message more, at place `s`.
  abbrev counted : ℕ → MessageQueue → MessageQueue
  counted s q = record q {
    accum_size = u32 (q.accum_size + (cell t p s).tag.size);
    n_mesg = u32 (q.n_mesg + 1);
  }

  -- Gathering counts the messages and their bytes, and ends at the last message, if there is one.
  pub gather_lem :
      (n s : ℕ) (message : Option ℕ) (q : MessageQueue)
      → q.n_mesg < 2 ^ 32
      → q.accum_size < 2 ^ 32
      → (gather n block (base + s) message q).1 ≡ record q {
        n_mesg = u32 (q.n_mesg + n);
        accum_size = u32 (q.accum_size + sizes (from s n));
      }
  unfolding gather sizes positions
  gather_lem zero s message q h g =
      ap₂ (λ a b. record q { n_mesg = a; accum_size = b }) (omega arith) (omega arith)
  gather_lem (suc n) s message q h g =
      ap (λ i. (gather n block i (some (base + s)) (counted s q)).1) (onward s)
      ∙ gather_lem n (s + next_in t p s) (some (base + s)) (counted s q) (omega arith) (omega arith)
      ∙ ap₂ (λ a b. record q { n_mesg = a; accum_size = b }) (omega arith) (omega arith)

  pub gather-last :
      (n s : ℕ) (message : Option ℕ) (q : MessageQueue)
      → (gather (suc n) block (base + s) message q).0 ≡ some (base + hop (next_in t p) s n)
  unfolding gather hop
  gather-last zero s message q = refl
  gather-last (suc n) s message q =
      ap (λ i. (gather (suc n) block i (some (base + s)) (counted s q)).0) (onward s)
      ∙ gather-last n (s + next_in t p s) (some (base + s)) (counted s q)
