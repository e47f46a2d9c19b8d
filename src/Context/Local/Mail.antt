-- ===== src/Context/Local/Mail.antt =====
-- The last loop of bsp_sync: the mail of the processes of the node.
use bsponmpi.Base.{
  ℕ, zero, suc, ◌<◌, ◌≤◌, ◌≡◌, ◌∙◌, refl, sym, ap, arith, Array, update, update_self, update_ne, [],
}
use mathlib.Core.Path.{subst}
use native.Mathlib.Decide.{ℕ_discrete}
use bsponmpi.LocalDelivery.{bsmp_messagequeue_sync}
use bsponmpi.LocalDelivery.Messages.{IsMail, sent, received, sync_local_lem}
use bsponmpi.Context.{Supply, Context, Node}
use bsponmpi.Context.Local.{sync_locals, local}

module _ (f : Supply) (node : Node) where
  synced_lem :
      (n : ℕ)
      → ((lp : ℕ)
          → lp < n
          → ((sync_locals n f node).contexts lp).local_deliveries
            ≡ bsmp_messagequeue_sync f.local (local f node lp))
        × ((lp : ℕ) → n ≤ lp → (sync_locals n f node).contexts lp ≡ node.contexts lp)
        × ((sync_locals n f node).memory ≡ node.memory)
  unfolding sync_locals
  synced_lem zero = (λ lp h. absurd (omega (arith, h)), λ lp h. refl, refl)
  synced_lem (suc n) =
      let node' = sync_locals n f node in
      let (below, above, memory) = synced_lem n in
      let q = bsmp_messagequeue_sync f.local (node'.contexts n).local_deliveries in
      let c : Context = record (node'.contexts n) { local_deliveries = q } in
      let queue_of = λ (x : Context). x.local_deliveries in
      (
        λ lp h. elim (ℕ_discrete lp n) [
          | yes same ↦
              ap (λ k. queue_of (update node'.contexts n c k)) same
              ∙ ap queue_of (update_self node'.contexts n c)
              ∙ ap (λ x. bsmp_messagequeue_sync f.local (queue_of x)) (above n (omega arith))
              ∙ ap (λ k. bsmp_messagequeue_sync f.local (local f node k)) (sym same)
          | no ne ↦
              ap queue_of (update_ne node'.contexts n c lp ne) ∙ below lp (omega (arith, h, ne))
        ],
        λ lp h. update_ne node'.contexts n c lp (omega (arith, h)) ∙ above lp (omega (arith, h)),
        memory,
      )

  -- Where the mail of one of the first `n` processes of a node is in order, the last loop at the
  -- end of a superstep keeps it in order and makes the messages that were sent to that process
  -- those to be received, in their order; the messages received before are dropped and none is left
  -- to be sent.
  pub sync_locals_lem :
      (n tagsize lp : ℕ)
      → lp < n
      → IsMail tagsize (local f node lp)
      → let q' = ((sync_locals n f node).contexts lp).local_deliveries in
        IsMail tagsize q'
        × ((memory : Array ℕ) → received tagsize memory q' ≡ sent tagsize memory (local f node lp))
        × ((memory : Array ℕ) → sent tagsize memory q' ≡ [])
  sync_locals_lem n tagsize lp h mail =
      let (ordered, moved, none_left, _) = sync_local_lem f.local (local f node lp) tagsize mail in
      subst
        (λ q.
          IsMail tagsize q
          × ((memory : Array ℕ) → received tagsize memory q ≡ sent tagsize memory (local f node lp))
          × ((memory : Array ℕ) → sent tagsize memory q ≡ []))
        (sym ((synced_lem n).0 lp h)) (ordered, moved, none_left)
