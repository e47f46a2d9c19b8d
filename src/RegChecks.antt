-- ===== src/RegChecks.antt =====
-- src/bsp_cpp/bsp_contextimpl_memreg.cpp: the requests to register memory that are exchanged between
-- the processes, and the checks of one round of requests. A `size_t` of -1 is 2 ^ 64 - 1; the `int`
-- push_or_pop is none for -1. An exception is an outcome.
pub mod Agree
pub mod Exchange
pub mod Collective
mod Tests
use bsponmpi.Base.{
  ℕ, zero, suc, ◌+◌, ◌-◌, ◌*◌, ◌^◌, Bool, true, false, Option, none, some, Array, update, ◌==◌,
  if◌then◌else◌,
}
use bsponmpi.TaskMapper.{TaskMapper, global_to_node, global_to_local}

pub record RegRequest : Type 0 where
  pub address : ℕ
  pub size : ℕ
  pub serial : ℕ
  pub is_push : Bool

-- The exceptions; the last is that of bsp_sync.
pub data RegError : Type 0 where
  sequence_mismatch : RegError
  size_mismatch : RegError
  push_pop_mismatch : RegError
  number_mismatch : RegError

pub data Checked (A : Type 0) : Type 0 where
  done : A → Checked A
  throws : RegError → Checked A

infixl 5 ◌>>>◌
abbrev pub ◌>>>◌ : {A B : Type 0} → Checked A → (A → Checked B) → Checked B
done a >>> f = f a
throws e >>> f = throws e

abbrev pub unset : ℕ
unset = 2 ^ 64 - 1

-- The variables of a round, and the pointers of the register that is made.
pub record Round : Type 0 where
  pub serial : ℕ
  pub size : ℕ
  pub push_or_pop : Option Bool
  pub pointers : Array ℕ

unfoldable pub check_serial : RegRequest → Round → Checked Round
check_serial r s =
    if s.serial == unset
    then done (record s { serial = r.serial })
    else if s.serial == r.serial
    then done s
    else throws sequence_mismatch

unfoldable pub check_size : RegRequest → Round → Checked Round
check_size r s =
    if s.size == unset
    then done (record s { size = r.size })
    else if s.size == r.size
    then done s
    else throws size_mismatch

-- The comparison of the last check.
abbrev pub same_kind : Bool → Bool → Bool
same_kind true b = b
same_kind false true = false
same_kind false false = true

unfoldable pub check_kind : RegRequest → Round → Checked Round
check_kind r s = elim s.push_or_pop [
  | none ↦ done (record s { push_or_pop = some r.is_push })
  | some b ↦ if same_kind r.is_push b then done s else throws push_pop_mismatch
]

-- One process of a round: the three checks, and the pointer.
unfoldable pub check_one : ℕ → RegRequest → Round → Checked Round
unfolding check_serial check_size check_kind
check_one gp r s = check_serial r s >>> check_size r >>> check_kind r >>> λ s'.
    done (record s' { pointers = update s'.pointers gp r.address })

-- The loop over the processes below `n`, in their order.
unfoldable pub check_all : ℕ → Array RegRequest → Round → Checked Round
unfolding check_one
check_all zero requests s = done s
check_all (suc gp) requests s = check_all gp requests s >>> check_one gp (requests gp)

-- The request number `req` of each process, in the receive buffer, which has `count` requests for each
-- process of each node.
unfoldable pub request_at : TaskMapper → Array RegRequest → ℕ → ℕ → ℕ → Array RegRequest
unfolding global_to_node global_to_local
request_at mapper received ppn count req gp =
    received (global_to_node mapper gp * count * ppn + global_to_local mapper gp * count + req)

-- The checks of a round; `fresh` is what the new array of pointers holds.
unfoldable pub check_round : TaskMapper → Array RegRequest → ℕ → ℕ → ℕ → Array ℕ → Checked Round
unfolding check_all request_at
check_round mapper received ppn count req fresh =
    check_all mapper.processors (request_at mapper received ppn count req)
      (record { serial = unset; size = unset; push_or_pop = none; pointers = fresh })
