-- ===== src/TransportMachine/Settles.antt =====
-- The protocol of the transport, as its state machine carries it out.
use text.Mathlib.Text.{◌==◌}
use jetblack_fixengine.Prelude.{
  Bool-cases, Option, String, ap, arith, inl, inr, none, refl, some, sym, ℕ, ◌<◌, ◌≡◌,
}
use jetblack_fixengine.Bytes.{Bytes}
use jetblack_fixengine.Exceptions.{M, pure, ◌>>=◌, ◌>>◌}
use jetblack_fixengine.Exceptions.Ensures.{
  Ensures, Ensures-answer, Ensures-bind, Ensures-then, Holds,
}
use jetblack_fixengine.Machine.Settles.{Answers, Fits, Settled, process_settles}
use jetblack_fixengine.Admin.{
  AdminEvent, AdminMessage, AdminState, Fields, from_msg_type, is_authenticated, lookup, signal,
  test_heartbeat_required,
}
use jetblack_fixengine.Transport.{
  TransportEvent, TransportMessage, TransportState, connection_received, disconnect_received, fix,
  fix_handled, fix_received, notice, timeout_handled, timeout_received, transport_transitions,
}
use jetblack_fixengine.Engine.{
  Engine, Environment, FixApplication, FixMessage, SessionOps, now, save_message,
}
use jetblack_fixengine.TransportMachine.{
  handle_admin_message, handle_connected, handle_decoded, handle_disconnect, handle_fix,
  handle_message, handle_timeout, is_silent, probe, process_event, process_transport, record_seqnum,
  transport_handlers, transport_machine, with_type,
}

-- Where an event of the transport leaves it: handling is no state to stay in.
unfoldable pub transport_protocol : TransportState → TransportEvent → Option TransportState
transport_protocol TransportState.disconnected connection_received = some TransportState.connected
transport_protocol TransportState.connected fix_received = some TransportState.connected
transport_protocol TransportState.connected timeout_received = some TransportState.connected
transport_protocol TransportState.connected disconnect_received = some TransportState.disconnected
transport_protocol fix fix_handled = some TransportState.connected
transport_protocol TransportState.timeout timeout_handled = some TransportState.connected
transport_protocol _ _ = none

abbrev pub Protocol : TransportState → TransportEvent → TransportState → Type 0
Protocol s x t = transport_protocol s x ≡ some t

-- The rounds that follow the first.
abbrev pub rounds_left : TransportState → ℕ
rounds_left TransportState.connected = 1
rounds_left _ = 0

rounds_left_bound : (s : TransportState) → rounds_left s < 2
rounds_left_bound s = ground arith

-- A method that, from the transport's state `t`, leaves it in `t` if it returns, and never runs out of
-- fuel.
abbrev pub StaysUp : {S A : Type 0} → TransportState → M (Engine S) A → Type 0
StaysUp t m = Ensures (λ e. e.transport_state ≡ t) m (λ _ e. e.transport_state ≡ t)

module _ {S : Type 0} (env : Environment) (ops : SessionOps S) (app : FixApplication S)
    (admin : AdminMessage → M (Engine S) AdminState) where
  -- What the session, the application and the admin state machine must do to the transport's state:
  -- nothing.
  pub record PartsStay : Type 0 where
    pub saving : (t : TransportState) (buffer : Bytes) → StaysUp t (save_message ops buffer)
    pub admin_message : (t : TransportState) (f : Fields) → StaysUp t (app.on_admin_message f)
    pub application_message :
        (t : TransportState) (f : Fields) → StaysUp t (app.on_application_message f)
    pub admin_machine : (t : TransportState) (x : AdminMessage) → StaysUp t (admin x)

  module _ (k : PartsStay) where
    abbrev Answered : TransportState → TransportEvent → Option TransportMessage → Engine S → Type 0
    Answered = Answers (transport_machine env ops app admin) Protocol (λ s x. rounds_left s)

    admin-StaysUp : (t : TransportState) (x : AdminMessage) → StaysUp t (admin x >> pure tt)
    admin-StaysUp t x = Ensures-answer (admin x) tt _ (k.admin_machine t x) (λ w h. h)

    process_event-StaysUp :
        (t : TransportState) (o : Option AdminEvent) (f : Fields)
        → StaysUp t (process_event env ops app admin o f)
    process_event-StaysUp t none f = record { at = λ w h. refl }
    process_event-StaysUp t (some x) f = admin-StaysUp t _

    with_type-StaysUp :
        (t : TransportState) (o : Option String) (f : Fields)
        → StaysUp t (with_type env ops app admin o f)
    with_type-StaysUp t none f = record { at = λ w h. refl }
    with_type-StaysUp t (some msg_type) f =
        Ensures-then _ _ _ (k.admin_message t f)
          (process_event-StaysUp t (from_msg_type msg_type) f)

    handle_message-StaysUp :
        (t : TransportState) (m : FixMessage) → StaysUp t (handle_message env ops app admin m)
    unfolding handle_admin_message
    handle_message-StaysUp t m = elim (Bool-cases (m.msgcat == "admin")) [
      | inl y ↦ rw y (with_type-StaysUp t (lookup "MsgType" m.message.texts) m.message)
      | inr n ↦ rw n (k.application_message t m.message)
    ]

    record_seqnum-StaysUp :
        (t : TransportState) (o : Option ℕ) → StaysUp t (record_seqnum env ops app admin o)
    record_seqnum-StaysUp t none = record { at = λ w h. refl }
    record_seqnum-StaysUp t (some n) = record { at = λ w h. h }

    handle_decoded-fits :
        (o : Option FixMessage)
        → Ensures
            (λ e. e.transport_state ≡ fix)
            (handle_decoded env ops app admin o)
            (Answered TransportState.connected fix_received)
    unfolding transport_protocol
    handle_decoded-fits none = record { at = λ w h. refl }
    handle_decoded-fits (some m) =
        Ensures-then _ _ _
          (Ensures-then _ _ _ (handle_message-StaysUp fix m)
            (record_seqnum-StaysUp fix (lookup "MsgSeqNum" m.message.ints)))
          (record { at = λ w h. rw h ((λ u q. q), omega arith) })

    probe-StaysUp : (t : TransportState) (time : ℕ) → StaysUp t (probe env ops app admin time)
    probe-StaysUp t time = record {
      at = λ e h. elim (Bool-cases (is_silent env ops app admin time e)) [
        | inl y ↦ rw y ((admin-StaysUp t (signal test_heartbeat_required)).at e h)
        | inr n ↦ rw n h
      ];
    }

    handle_timeout-fits :
        Ensures
          (λ e. e.transport_state ≡ TransportState.timeout)
          (now env
            >>= probe env ops app admin
            >> pure (some (notice TransportEvent.timeout_handled)))
          (Answered TransportState.connected timeout_received)
    unfolding transport_protocol
    handle_timeout-fits =
        Ensures-answer _ _ _
          (Ensures-bind (now env) (probe env ops app admin)
            (λ time e. e.transport_state ≡ TransportState.timeout) _ (record { at = λ w h. h })
            (probe-StaysUp TransportState.timeout))
          (λ w h. rw h ((λ u q. q), omega arith))

    fits :
        (s : TransportState) (x : TransportEvent)
        → Fits
            (transport_machine env ops app admin)
            Protocol
            (λ u y. rounds_left u)
            s
            x
            (transport_transitions s x)
            (transport_handlers env ops app admin s x)
    unfolding transport_protocol handle_connected handle_fix handle_timeout handle_disconnect
    fits TransportState.disconnected connection_received = λ x.
        Ensures-answer _ _ _ (k.admin_machine TransportState.connected _) (λ w h. ap some (sym h))
    fits TransportState.connected fix_received =
        λ x. Ensures-then _ _ _ (k.saving fix x.buffer) (handle_decoded-fits (env.decode x.buffer))
    fits TransportState.connected timeout_received = λ x. record {
      at = λ e h. elim (Bool-cases (is_authenticated e.admin_state)) [
        | inl y ↦ rw y (handle_timeout-fits.at e h)
        | inr n ↦ rw n refl
      ];
    }
    fits TransportState.connected disconnect_received = λ x. record { at = λ w h. ap some (sym h) }
    fits fix fix_handled = refl
    fits TransportState.timeout timeout_handled = refl
    fits s x = tt

    -- Where the session, the application and the admin state machine leave the transport's state alone
    -- and raise only exceptions of their own: whatever event an engine's transport processes, in
    -- whatever state, its loop ends within the two rounds of the model. It returns the state that the
    -- protocol names, and the engine is in it, or it raises. So it raises wherever the protocol names
    -- no state.
    pub transport_settles :
        (x : TransportMessage) (e : Engine S)
        → Holds
            (Settled
              (transport_machine env ops app admin)
              Protocol
              (λ u y. rounds_left u)
              (Protocol e.transport_state x.event))
            (process_transport env ops app admin x e)
    unfolding process_transport
    transport_settles x e =
        process_settles (transport_machine env ops app admin) Protocol (λ u y. rounds_left u)
          (λ s w. refl) fits 2 x e (rounds_left_bound e.transport_state)
