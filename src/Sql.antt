-- ===== src/Sql.antt =====
-- jetblack_fixengine/persistence/sql_store.py: the two tables with their primary keys, and the session.
-- A statement of SQL is a function of the table that it names.
pub mod Reopened
pub mod Store
pub mod Apart
pub mod Kept
pub mod Restarted
use text.Mathlib.Text.{◌==◌}
use jetblack_fixengine.Bytes.{Bytes}
use jetblack_fixengine.Prelude.{
  Bool, List, Option, String, [], false, if◌then◌else◌, ltb, none, some, true, ℕ, ◌&&◌, ◌++◌, ◌∷◌,
}
use jetblack_fixengine.Exceptions.{M, err, integrity_error, ok, overflow_error, value_error}
use jetblack_fixengine.Engine.{incoming, outgoing}

-- A row of `initiator_seqnums`, and one of `initiator_messages`.
pub record SeqnumRow : Type 0 where
  pub sender_comp_id : String
  pub target_comp_id : String
  pub outgoing_seqnum : ℕ
  pub incoming_seqnum : ℕ

pub record MessageRow : Type 0 where
  pub sender_comp_id : String
  pub target_comp_id : String
  pub outgoing_seqnum : ℕ
  pub incoming_seqnum : ℕ
  pub message : Bytes

pub record SqlSession : Type 0 where
  pub seqnums : List SeqnumRow
  pub messages : List MessageRow
  pub sender_comp_id : String
  pub target_comp_id : String
  pub outgoing_seqnum : ℕ
  pub incoming_seqnum : ℕ

module _ (sender target : String) where
  -- `sender_comp_id = ? AND target_comp_id = ?`
  abbrev pub is_row : String → String → Bool
  is_row s t = s == sender && t == target

  -- `SEQNUM_QUERY` and `fetchone`
  unfoldable pub seqnum_query : List SeqnumRow → Option (ℕ × ℕ)
  seqnum_query [] = none
  seqnum_query (r ∷ rows) =
      if is_row r.sender_comp_id r.target_comp_id
      then some (r.outgoing_seqnum, r.incoming_seqnum)
      else seqnum_query rows

  -- The three updates: `f` is what they set.
  unfoldable pub seqnum_update : (SeqnumRow → SeqnumRow) → List SeqnumRow → List SeqnumRow
  seqnum_update f [] = []
  seqnum_update f (r ∷ rows) =
      (if is_row r.sender_comp_id r.target_comp_id then f r else r) ∷ seqnum_update f rows

  -- A row with the primary key stands in `initiator_messages`.
  unfoldable pub has_message : List MessageRow → Bool
  has_message [] = false
  has_message (r ∷ rows) =
      if is_row r.sender_comp_id r.target_comp_id then true else has_message rows

  -- `SqlSession.__init__` over the tables. The insertion follows a query that found no row, so it does
  -- not collide with a primary key.
  abbrev pub fetched : List SeqnumRow → List MessageRow → Option (ℕ × ℕ) → SqlSession
  fetched seqnums messages none = record {
    seqnums =
        seqnums
        ++ record {
          sender_comp_id = sender;
          target_comp_id = target;
          outgoing_seqnum = 0;
          incoming_seqnum = 0;
        }
          ∷ [];
    messages = messages;
    sender_comp_id = sender;
    target_comp_id = target;
    outgoing_seqnum = 0;
    incoming_seqnum = 0;
  }
  fetched seqnums messages (some (outgoing, incoming)) = record {
    seqnums = seqnums;
    messages = messages;
    sender_comp_id = sender;
    target_comp_id = target;
    outgoing_seqnum = outgoing;
    incoming_seqnum = incoming;
  }

  unfoldable pub open_session : List SeqnumRow → List MessageRow → SqlSession
  open_session seqnums messages = fetched seqnums messages (seqnum_query seqnums)

abbrev pub update : (SeqnumRow → SeqnumRow) → SqlSession → SqlSession
update f s = record s { seqnums = seqnum_update s.sender_comp_id s.target_comp_id f s.seqnums }

-- An integer of SQLite has 64 bits: a larger one is an OverflowError of Python's sqlite3.
abbrev pub fits : ℕ → Bool
fits n = ltb n 9223372036854775808

-- An update whose integers fit, or do not.
abbrev pub execute : Bool → (SeqnumRow → SeqnumRow) → M SqlSession (Unit {0})
execute true f s = (update f s, ok tt)
execute false f s = (s, err overflow_error)

-- `set_seqnums`: the numbers in memory are set first.
unfoldable pub set_seqnums : ℕ → ℕ → M SqlSession (Unit {0})
set_seqnums outgoing incoming s =
    execute (fits outgoing && fits incoming)
      (λ r. record r { outgoing_seqnum = outgoing; incoming_seqnum = incoming })
      (record s { outgoing_seqnum = outgoing; incoming_seqnum = incoming })

-- `set_outgoing_seqnum`
unfoldable pub set_outgoing_seqnum : ℕ → M SqlSession (Unit {0})
set_outgoing_seqnum seqnum s =
    execute (fits seqnum) (λ r. record r { outgoing_seqnum = seqnum })
      (record s { outgoing_seqnum = seqnum })

-- `set_incoming_seqnum`
unfoldable pub set_incoming_seqnum : ℕ → M SqlSession (Unit {0})
set_incoming_seqnum seqnum s =
    execute (fits seqnum) (λ r. record r { incoming_seqnum = seqnum })
      (record s { incoming_seqnum = seqnum })

-- `decode('ascii')` fails with a UnicodeDecodeError, which is a ValueError.
abbrev pub is_ascii : Bytes → Bool
is_ascii [] = true
is_ascii (c ∷ cs) = ltb c 128 && is_ascii cs

-- `MESSAGE_INSERT`: a second row for the primary key is an IntegrityError.
abbrev pub insert : Bytes → M SqlSession (Unit {0})
insert buf s =
    if has_message s.sender_comp_id s.target_comp_id s.messages then (s, err integrity_error) else (
      record s {
        messages =
            s.messages
            ++ record {
              sender_comp_id = s.sender_comp_id;
              target_comp_id = s.target_comp_id;
              outgoing_seqnum = s.outgoing_seqnum;
              incoming_seqnum = s.incoming_seqnum;
              message = buf;
            }
              ∷ [];
      },
      ok tt,
    )

-- `save_message`
unfoldable pub save_message : Bytes → M SqlSession (Unit {0})
save_message buf s =
    if is_ascii buf
    then (if fits s.outgoing_seqnum && fits s.incoming_seqnum
        then insert buf s
        else (s, err overflow_error))
    else (s, err value_error)
