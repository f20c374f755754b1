-- ===== src/Admin.antt =====
-- jetblack_fixengine/admin/types.py: the states, events and messages of the admin state machines.

use text.Mathlib.Text.{◌==◌}
use jetblack_fixengine.Prelude.{
  Bool, List, Option, String, [], false, if◌then◌else◌, none, some, true, ℕ, ◌∷◌,
}

pub data AdminState : Type 0 where
  disconnected logon_requested logon_expected authenticating authenticated reject_logon : AdminState
  logged_out acknowledge_logout acknowledge_heartbeat test_heartbeat send_test_heartbeat :
      AdminState
  validate_test_heartbeat test_request_requested send_sequence_reset : AdminState
  sequence_reset_requested sequence_reset_received set_incoming_seqnum : AdminState

pub data AdminEvent : Type 0 where
  connected logon_sent logon_received logon_accepted logon_rejected logout_acknowledged : AdminEvent
  reject_received send_logout logout_received heartbeat_received heartbeat_acknowledged : AdminEvent
  test_request_received test_request_sent resend_request_received : AdminEvent
  sequence_reset_received sequence_reset_sent incoming_seqnum_set : AdminEvent
  test_heartbeat_required test_heartbeat_sent test_heartbeat_valid : AdminEvent
  test_heartbeat_invalid xml_message_received : AdminEvent

-- `state == AdminState.AUTHENTICATED`
abbrev pub is_authenticated : AdminState → Bool
is_authenticated authenticated = true
is_authenticated _ = false

-- `Mapping[str, Any]`: a decoded FIX message has integer fields, text fields and Boolean fields.
pub record Fields : Type 0 where
  pub ints : List (String × ℕ)
  pub texts : List (String × String)
  pub flags : List (String × Bool)

abbrev pub no_fields : Fields
no_fields = record { ints = []; texts = []; flags = [] }

-- `fields[key]`; `none` is the KeyError, or the answer of `key in fields`.
unfoldable pub lookup : {V : Type 0} → String → List (String × V) → Option V
lookup k [] = none
lookup k ((j, v) ∷ rest) = if j == k then some v else lookup k rest

pub record AdminMessage : Type 0 where
  pub event : AdminEvent
  pub fix : Fields

-- `AdminMessage(event)`
abbrev pub signal : AdminEvent → AdminMessage
signal event = record { event = event; fix = no_fields }

-- `none` is the ValueError of a type that is no admin message's.
unfoldable pub from_msg_type : String → Option AdminEvent
from_msg_type msg_type =
    if msg_type == "LOGON"
    then some logon_received
    else if msg_type == "LOGOUT"
    then some logout_received
    else if msg_type == "REJECT"
    then some reject_received
    else if msg_type == "HEARTBEAT"
    then some heartbeat_received
    else if msg_type == "TEST_REQUEST"
    then some test_request_received
    else if msg_type == "RESEND_REQUEST"
    then some resend_request_received
    else if msg_type == "SEQUENCE_RESET"
    then some AdminEvent.sequence_reset_received
    else if msg_type == "XML_MESSAGE"
    then some xml_message_received
    else none
