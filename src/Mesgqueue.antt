-- ===== src/Mesgqueue.antt =====
-- src/bsp_mesgqueue.h: the MessageQueue, which tells where the received messages are in a
-- DeliveryTable. `head` is the slot of the first one, or none for NULL.
use bsponmpi.Base.{ℕ, Option, none}

pub record MessageQueue : Type 0 where
  pub recv_tag_size : ℕ
  pub send_tag_size : ℕ
  pub n_mesg : ℕ
  pub accum_size : ℕ
  pub head : Option ℕ

unfoldable pub initialize : MessageQueue
initialize = record {
  recv_tag_size = 0;
  send_tag_size = 0;
  n_mesg = 0;
  accum_size = 0;
  head = none;
}

unfoldable pub sync : MessageQueue → MessageQueue
sync q = record q { recv_tag_size = q.send_tag_size; n_mesg = 0; accum_size = 0; head = none }
