-- ===== src/RegChecks/Tests.antt =====
-- Rounds of requests of five processes on two nodes.
use bsponmpi.Base.{
  ℕ, ◌*◌, ◌/◌, ◌%◌, ◌==◌, List, slice, ◌+◌, ◌≡◌, refl, Array, true, false, ltb, if◌then◌else◌,
}
use bsponmpi.TaskMapper.{
  TaskMapper, make, place, place_all, invert, where_is, global_to_node, global_to_local,
}
use bsponmpi.RegChecks.{
  RegRequest, size_mismatch, throws, request_at, check_round, check_all, check_one, check_serial,
  check_size, check_kind,
}
use bsponmpi.RegChecks.Exchange.{fill_requests}

abbrev mapper : TaskMapper
mapper = make (λ _. 0) 2 0 5

-- Each process pushes its own block, two of them with a different size; three for each node.
abbrev received : Array RegRequest
received i = record { address = 1000 + i; size = 8; serial = 3; is_push = true }

abbrev uneven : Array RegRequest
uneven i = record (received i) { size = if ltb i 3 then 8 else 16 }

-- The first process of the second node is the first that does not agree.
uneven_sizes : check_round mapper uneven 3 1 0 (λ _. 0) ≡ throws size_mismatch
unfolding check_round check_all check_one check_serial check_size check_kind request_at make
    place_all place invert where_is global_to_node global_to_local
uneven_sizes = refl

-- Three processes of the first node and two of the second, with one request each.
abbrev requests : ℕ → ℕ → Array RegRequest
requests n lp _ = record { address = 1000 + 10 * n + lp; size = 8; serial = 3; is_push = true }

abbrev here : Array ℕ
here n = if n == 0 then 3 else 2

abbrev queues : ℕ → Array (List RegRequest)
queues n lp = slice (requests n lp) 0 1

abbrev unfilled : ℕ → Array RegRequest
unfilled _ _ = record { address = 0; size = 0; serial = 0; is_push = false }

-- What the first node receives.
exchanged : Array RegRequest
exchanged i = fill_requests (here (i / 3)) (queues (i / 3)) 2 1 3 (unfilled (i / 3)) (i % 3)
