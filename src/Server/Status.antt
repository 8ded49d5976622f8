-- ===== src/Server/Status.antt =====
-- internal/grpcserver/server.go: `mapError`. A status has the error in place of its text.
use grael.Result.{
  Error, run_not_found, task_not_found, worker_unavailable, attempt_mismatch, lease_expired,
  checkpoint_not_waiting, run_cancelled, capacity_exceeded, in_node, in_field,
}

-- The constants of google.golang.org/grpc/codes that the server uses.
pub data Code : Type 0 where
  invalid_argument not_found failed_precondition resource_exhausted internal : Code

pub record Status : Type 0 where
  pub code : Code
  pub cause : Error

-- The code, by `errors.Is`, which looks through what `fmt.Errorf` has wrapped.
unfoldable pub code_of : Error → Code
code_of run_not_found = Code.not_found
code_of task_not_found = Code.not_found
code_of worker_unavailable = Code.failed_precondition
code_of attempt_mismatch = Code.failed_precondition
code_of lease_expired = Code.failed_precondition
code_of checkpoint_not_waiting = Code.failed_precondition
code_of run_cancelled = Code.failed_precondition
code_of capacity_exceeded = Code.resource_exhausted
code_of (in_node id e) = code_of e
code_of (in_field name e) = code_of e
code_of _ = Code.internal

unfoldable pub map_error : Error → Status
unfolding code_of
map_error e = record { code = code_of e; cause = e }

-- `status.Error(codes.InvalidArgument, ...)`
abbrev pub invalid : Error → Status
invalid e = record { code = Code.invalid_argument; cause = e }
