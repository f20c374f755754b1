-- ===== src/Sql/Store.antt =====
-- `SqlStore` of jetblack_fixengine/persistence/sql_store.py: the sessions of a database. A session that the
-- store has given is known by its key in the dictionary.
use jetblack_fixengine.Sql.{MessageRow, SeqnumRow, SqlSession, open_session}
use jetblack_fixengine.Sql.Reopened.{Request, serve}
use jetblack_fixengine.FileStore.{entry, put}
use jetblack_fixengine.Prelude.{List, Option, String, [], none, some, ◌++◌, ◌∷◌}
use jetblack_fixengine.Bytes.{Bytes, codes}

pub record SqlStore : Type 0 where
  pub seqnums : List SeqnumRow
  pub messages : List MessageRow
  pub sessions : List (Bytes × SqlSession)

abbrev pub new_store : List SeqnumRow → List MessageRow → SqlStore
new_store seqnums messages = record { seqnums = seqnums; messages = messages; sessions = [] }

-- `CREATE TABLE IF NOT EXISTS`
abbrev pub table_of : {A : Type 0} → Option (List A) → List A
table_of none = []
table_of (some rows) = rows

-- `SqlStore.__init__`
unfoldable pub open_store : Option (List SeqnumRow) → Option (List MessageRow) → SqlStore
open_store seqnums messages = new_store (table_of seqnums) (table_of messages)

unfoldable pub session_key : String → String → Bytes
session_key sender target = codes sender ++ 1 ∷ codes target

-- A session's tables are those of the store.
abbrev pub current : SqlStore → SqlSession → SqlSession
current st s = record s { seqnums = st.seqnums; messages = st.messages }

abbrev pub keep_session : Bytes → SqlSession → SqlStore → SqlStore
keep_session key s st = record st {
  seqnums = s.seqnums;
  messages = s.messages;
  sessions = put key s st.sessions;
}

abbrev pub known_session : String → String → Option SqlSession → SqlStore → SqlStore
known_session sender target (some s) st = st
known_session sender target none st =
    keep_session (session_key sender target) (open_session sender target st.seqnums st.messages) st

-- `get_session`, whose answer is the session of the key.
unfoldable pub get_session : String → String → SqlStore → SqlStore
get_session sender target st =
    known_session sender target (entry (session_key sender target) st.sessions) st

-- A request to a session that the store has given.
abbrev pub ask_session : Bytes → Request → Option SqlSession → SqlStore → SqlStore
ask_session key q none st = st
ask_session key q (some s) st = keep_session key (serve q (current st s)) st

pub data StoreRequest : Type 0 where
  get : String → String → StoreRequest
  ask : Bytes → Request → StoreRequest

abbrev pub serve_request : StoreRequest → SqlStore → SqlStore
serve_request (get sender target) st = get_session sender target st
serve_request (ask key q) st = ask_session key q (entry key st.sessions) st

abbrev pub serve_requests : List StoreRequest → SqlStore → SqlStore
serve_requests [] st = st
serve_requests (r ∷ rs) st = serve_requests rs (serve_request r st)
