-- ===== src/LocalDelivery/Fixture.antt =====
-- A new queue of local deliveries, that the tests share.
use bsponmpi.Base.{◌≤◌, ℕ, ◌<◌, ◌≡◌, refl, arith, Array, false}
use bsponmpi.Exptable
use bsponmpi.HeaderQueue
use bsponmpi.HeaderQueue.{HeaderQueue}
use bsponmpi.HeaderQueue.Fifo.{Grows, IsQueue}
use bsponmpi.LocalDelivery.{Fresh, make}
use bsponmpi.LocalDelivery.Puts.{IsPending}
use bsponmpi.LocalDelivery.Messages.{IsMail, IsMailbox, payload_size}

abbrev pub fresh : Fresh
fresh = record {
  deliveries = λ _. record { src = 0; dst = 0; nbytes = 0 };
  buffered_deliveries = λ _. record { offset = 0; dst = 0; nbytes = 0 };
  messages = λ _. record { buffered = false; tag = 0; src = 0; nbytes = 0 };
  words = λ _ _. 0;
  info = record { data_sizes = λ _. 0 };
}

abbrev pub memory : Array ℕ
memory a = a

pub new-IsQueue :
    {A : Type 0} (block : Array A) (n : ℕ)
    → 0 < n
    → n ≤ 32
    → IsQueue (HeaderQueue.make block n fresh.info)
unfolding HeaderQueue.make Exptable.initialize
new-IsQueue block n h k = record {
  valid = record {
    has_rows = omega arith;
    has_size = h;
    fits = omega arith;
    within = λ p q. omega arith;
  };
  one = refl;
  header = k;
  behind = omega arith;
}

pub empty-IsPending : IsPending (make fresh)
unfolding make HeaderQueue.make Exptable.initialize
empty-IsPending = record {
  puts = new-IsQueue fresh.buffered_deliveries 24 (omega arith) (omega arith);
  hpputs = new-IsQueue fresh.deliveries 24 (omega arith) (omega arith);
  put_buffer = record { mine = refl; fits = omega arith; small = omega arith };
  inside = tt;
}

pub new-IsMailbox :
    IsMailbox 2 (HeaderQueue.make fresh.messages 32 fresh.info) (make fresh).message_send_buffer 0
unfolding make HeaderQueue.make Exptable.initialize payload_size
new-IsMailbox = record {
  headers = new-IsQueue fresh.messages 32 (omega arith) (omega arith);
  blocks = record { mine = refl; fits = omega arith; small = omega arith };
  inside = tt;
  counted = refl;
  small = omega arith;
}

pub empty-IsMail : IsMail 2 (make fresh)
unfolding make
empty-IsMail = record { sending = new-IsMailbox; moving = new-IsMailbox }

pub room :
    ((make fresh).put_buffer.storage_end ≡ 0) × ((make fresh).message_send_buffer.storage_end ≡ 0)
unfolding make
room = (refl, refl)

pub grows : Grows (make fresh).puts × Grows (make fresh).message_send_queue
unfolding make HeaderQueue.make Exptable.initialize
grows = (omega arith, omega arith)

pub nothing_sent : (make fresh).bytes_sent ≡ 0
unfolding make
nothing_sent = refl
