-- ===== src/Client/Sync.antt =====
-- `_BackgroundLoop` and the synchronous `Client` of src/pymod/client.py. A coroutine is its outcome; the
-- thread is whether its loop runs. On a closed loop `run_coroutine_threadsafe` raises RuntimeError.
use pymod.Prelude.{Bool, true, false, Option, List, if◌then◌else◌}
use pymod.Prelude.Int.{ℤ}
use pymod.Text.{Text}
use pymod.Errors.{Result, err, python_error}
use pymod.Bytes.{Bytes}
use pymod.Types.{Number, ReadResult, WriteResult}
use pymod.Client.{Backoff, RetryPolicy}
use pymod.Client.Factory.{Parity, AsyncClient, tcp, rtu, rtu_over_tcp}

-- `run_coroutine(coro).result()`
unfoldable pub run_coroutine : {A : Type 0} → Bool → Result A → Result A
run_coroutine is_alive outcome = if is_alive then outcome else err python_error

module _ (times : Backoff) (F : Type 0) where
  pub record SyncClient : Type 0 where
    pub async_client : AsyncClient times F
    pub is_alive : Bool

  -- `Client.__init__`, with a loop that was just started.
  unfoldable pub new_sync_client : AsyncClient times F → SyncClient
  new_sync_client async_client = record { async_client = async_client; is_alive = true }

  -- The factories make the asynchronous client with the same arguments.
  unfoldable pub sync_tcp :
      RetryPolicy times → Text → ℤ → ℤ → F → Option (RetryPolicy times) → Bool → F → SyncClient
  unfolding tcp new_sync_client
  sync_tcp default_retry host port unit_id timeout_s retry pipeline connect_timeout_s =
      new_sync_client
        (tcp times F default_retry host port unit_id timeout_s retry pipeline connect_timeout_s)

  unfoldable pub sync_rtu :
      RetryPolicy times
      → Text
      → ℤ
      → ℤ
      → Parity
      → Number F
      → ℤ
      → F
      → Option (RetryPolicy times)
      → Option F
      → SyncClient
  unfolding rtu new_sync_client
  sync_rtu default_retry port baudrate bytesize parity stopbits unit_id timeout_s retry gap =
      new_sync_client (
        rtu times F default_retry port baudrate bytesize parity stopbits unit_id timeout_s retry
          gap)

  unfoldable pub sync_rtu_over_tcp :
      RetryPolicy times → Text → ℤ → ℤ → F → Option (RetryPolicy times) → F → SyncClient
  unfolding rtu_over_tcp new_sync_client
  sync_rtu_over_tcp default_retry host port unit_id timeout_s retry connect_timeout_s =
      new_sync_client
        (rtu_over_tcp times F default_retry host port unit_id timeout_s retry connect_timeout_s)

  -- `Client.connect`; `outcome` is what the asynchronous call comes to.
  unfoldable pub sync_connect : Result (Unit {0}) → SyncClient → Result (Unit {0})
  unfolding run_coroutine
  sync_connect outcome c = run_coroutine c.is_alive outcome

  -- `Client.close`: what the asynchronous `close` raises is dropped, and the loop is stopped.
  unfoldable pub sync_close : SyncClient → SyncClient
  sync_close c = record { async_client = c.async_client; is_alive = false }

  unfoldable pub sync_execute : Result Bytes → SyncClient → Result Bytes
  unfolding run_coroutine
  sync_execute outcome c = run_coroutine c.is_alive outcome

  unfoldable pub sync_read :
      Result (List (ReadResult F)) → SyncClient → Result (List (ReadResult F))
  unfolding run_coroutine
  sync_read outcome c = run_coroutine c.is_alive outcome

  unfoldable pub sync_write :
      Result (List (WriteResult F)) → SyncClient → Result (List (WriteResult F))
  unfolding run_coroutine
  sync_write outcome c = run_coroutine c.is_alive outcome
