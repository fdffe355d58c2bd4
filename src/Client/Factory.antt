-- ===== src/Client/Factory.antt =====
-- The constructor and the factories of `AsyncClient` of src/pymod/client.py, and which transport with
-- which settings each one makes. Floats are the type `F`, `Number F` where the source passes an int.
use pymod.Prelude.{Option, none, some, Bool}
use pymod.Prelude.Int.{ℤ}
use pymod.Text.{Text}
use pymod.Types.{Number}
use pymod.Client.{Backoff, RetryPolicy}

pub data Parity : Type 0 where
  parity_none parity_even parity_odd : Parity

-- The arguments of the transports' constructors.
pub data TransportSpec (F : Type 0) : Type 0 where
  tcp_transport : Text → ℤ → Bool → F → TransportSpec F
  serial_transport : Text → ℤ → ℤ → Parity → Number F → Option F → TransportSpec F
  rtu_over_tcp_transport : Text → ℤ → F → TransportSpec F

module _ (times : Backoff) (F : Type 0) where
  pub record AsyncClient : Type 0 where
    pub transport : TransportSpec F
    pub default_unit_id : ℤ
    pub default_timeout_s : F
    pub default_retry : RetryPolicy times

  -- `AsyncClient.__init__`; `default_retry` is `_DEFAULT_RETRY`.
  unfoldable pub new_client :
      RetryPolicy times → TransportSpec F → ℤ → F → Option (RetryPolicy times) → AsyncClient
  new_client default_retry spec unit_id timeout_s retry = record {
    transport = spec;
    default_unit_id = unit_id;
    default_timeout_s = timeout_s;
    default_retry = elim retry [ none ↦ default_retry | some policy ↦ policy ];
  }

  unfoldable pub tcp :
      RetryPolicy times → Text → ℤ → ℤ → F → Option (RetryPolicy times) → Bool → F → AsyncClient
  unfolding new_client
  tcp default_retry host port unit_id timeout_s retry pipeline connect_timeout_s =
      new_client default_retry (tcp_transport host port pipeline connect_timeout_s) unit_id
        timeout_s retry

  -- `bytesize`, `parity`, `stopbits` and `inter_frame_delay_s` after the baud rate.
  unfoldable pub rtu :
      RetryPolicy times
      → Text
      → ℤ
      → ℤ
      → Parity
      → Number F
      → ℤ
      → F
      → Option (RetryPolicy times)
      → Option F
      → AsyncClient
  unfolding new_client
  rtu default_retry port baudrate bytesize parity stopbits unit_id timeout_s retry gap =
      new_client default_retry (serial_transport port baudrate bytesize parity stopbits gap) unit_id
        timeout_s retry

  unfoldable pub rtu_over_tcp :
      RetryPolicy times → Text → ℤ → ℤ → F → Option (RetryPolicy times) → F → AsyncClient
  unfolding new_client
  rtu_over_tcp default_retry host port unit_id timeout_s retry connect_timeout_s =
      new_client default_retry (rtu_over_tcp_transport host port connect_timeout_s) unit_id
        timeout_s retry
