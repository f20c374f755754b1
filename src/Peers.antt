-- ===== src/Peers.antt =====
-- An initiator and an acceptor, as the engines of jetblack_fixengine/initiator/initiator.py and
-- acceptor/acceptor.py, that are each other's peer.
pub mod Receiving
pub mod Dialling
pub mod Answering
pub mod Handshake
pub mod Echo
pub mod Rally
pub mod Leaving
pub mod Wire
pub mod Refusal
use jetblack_fixengine.Prelude.{String, some, ℕ, ◌≡◌}
use jetblack_fixengine.Exceptions.{ok}
use jetblack_fixengine.Bytes.{Bytes}
use jetblack_fixengine.Admin.{Fields, lookup}
use jetblack_fixengine.Engine.{
  Engine, Environment, FixApplication, FixMessage, SessionOps, save_message,
}

-- A decoded message that keeps the type, the number and the texts of the message that was encoded.
pub record IsRead (msg_type : String) (n : ℕ) (fields : Fields) (m : FixMessage) : Type 0 where
  pub category : m.msgcat ≡ "admin"
  pub typed : lookup "MsgType" m.message.texts ≡ some msg_type
  pub numbered : lookup "MsgSeqNum" m.message.ints ≡ some n
  pub texts :
      (key value : String)
      → lookup key fields.texts ≡ some value
      → lookup key m.message.texts ≡ some value

-- What jetblack_fixparser promises of the administrative messages of a type with given fields: what the
-- sender encodes, whatever its number and its time, the receiver decodes.
abbrev pub Reads : Environment → Environment → String → Fields → Type 0
Reads sender receiver msg_type fields =
    (n time : ℕ)
    → (m : FixMessage) × (receiver.decode (sender.create msg_type n time fields) ≡ some m)
      × IsRead msg_type n fields m

-- An application that only looks on.
pub record IsPassive {S : Type 0} (app : FixApplication S) : Type 0 where
  pub admin_message : (fields : Fields) (e : Engine S) → app.on_admin_message fields e ≡ (e, ok tt)
  pub heartbeat : (fields : Fields) (e : Engine S) → app.on_heartbeat fields e ≡ (e, ok tt)
  pub logon : (fields : Fields) (e : Engine S) → app.on_logon fields e ≡ (e, ok tt)
  pub logout : (fields : Fields) (e : Engine S) → app.on_logout fields e ≡ (e, ok tt)

-- A session that saves every message.
abbrev pub Saves : {S : Type 0} → SessionOps S → Type 0
Saves {S} ops = (bytes : Bytes) (s : S) → (ops.save_message bytes s).1 ≡ ok tt
