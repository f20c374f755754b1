-- ===== src/Transport.antt =====
-- jetblack_fixengine/transports/types.py and state_transitions.py: the states, events and messages of
-- the transport, and its table of transitions.
use jetblack_fixengine.Prelude.{Option, [], none, some}
use jetblack_fixengine.Bytes.{Bytes}

pub data TransportState : Type 0 where
  disconnected connected fix timeout : TransportState

pub data TransportEvent : Type 0 where
  connection_received fix_received fix_handled : TransportEvent
  timeout_received timeout_handled disconnect_received : TransportEvent

pub record TransportMessage : Type 0 where
  pub event : TransportEvent
  pub buffer : Bytes

-- `TransportMessage(event)`
abbrev pub notice : TransportEvent → TransportMessage
notice event = record { event = event; buffer = [] }

-- `TransportStateTransitions.TRANSITIONS`
abbrev pub transport_transitions : TransportState → TransportEvent → Option TransportState
transport_transitions disconnected connection_received = some connected
transport_transitions connected fix_received = some fix
transport_transitions connected timeout_received = some timeout
transport_transitions connected disconnect_received = some disconnected
transport_transitions fix fix_handled = some connected
transport_transitions timeout timeout_handled = some connected
transport_transitions _ _ = none
