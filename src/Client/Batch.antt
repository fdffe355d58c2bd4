-- ===== src/Client/Batch.antt =====
-- `read` and `write` of src/pymod/client.py: the planner over `execute`. The transport is the
-- parameter `send`: the outcome of an attempt at the request number `k` of the batch.
use pymod.Prelude.{ℕ, Option, none, some, List}
use pymod.Errors.{Result}
use pymod.Types.{ReadItem, WriteItem, ReadResult, WriteResult}
use pymod.Bytes.{Bytes}
use pymod.Codec.Float.{FloatOps}
use pymod.Planner.Read.{Executor, plan_and_execute_reads}
use pymod.Planner.Write.{plan_and_execute_writes}
use pymod.Client.{Backoff, RetryPolicy, execute}

module _ (times : Backoff) (ops : FloatOps) (send : ℕ → Bytes → ℕ → Result Bytes) where
  -- `retry if retry is not None else self._default_retry`
  unfoldable pub effective_policy :
      Option (RetryPolicy times) → RetryPolicy times → RetryPolicy times
  effective_policy none default_retry = default_retry
  effective_policy (some retry) default_retry = retry

  unfoldable pub make_pdu_executor : RetryPolicy times → Executor
  unfolding execute
  make_pdu_executor policy k pdu = (execute times policy (send k pdu)).outcome

  unfoldable pub read :
      Option (RetryPolicy times)
      → RetryPolicy times
      → List ReadItem
      → Result (List (ReadResult ops.Float))
  unfolding effective_policy make_pdu_executor
  read retry default_retry items =
      plan_and_execute_reads ops items (make_pdu_executor (effective_policy retry default_retry))

  unfoldable pub write :
      Option (RetryPolicy times)
      → RetryPolicy times
      → List (WriteItem ops.Float)
      → Result (List (WriteResult ops.Float))
  unfolding effective_policy make_pdu_executor
  write retry default_retry items =
      plan_and_execute_writes ops items (make_pdu_executor (effective_policy retry default_retry))
