-- ===== src/FileStore/Store.antt =====
-- `FileStore` of jetblack_fixengine/persistence/file_store.py: the sessions of a folder. A session that
-- the store has given is known by its key in the dictionary.
use jetblack_fixengine.FileStore.{FileSession, Folder, MessageStyle, entry, open_session, put}
use jetblack_fixengine.FileStore.Reopened.{Request, serve}
use jetblack_fixengine.Prelude.{List, Option, [], none, some, ◌++◌, ◌∷◌}
use jetblack_fixengine.Bytes.{Bytes}
use jetblack_fixengine.Exceptions.{M, Result, after, err, ok, runtime_error}

pub record Store : Type 0 where
  pub folder : Folder
  pub sessions : List (Bytes × FileSession)
  pub message_style : MessageStyle

-- What is at the path of the store's folder.
pub data Place : Type 0 where
  nothing : Place
  no_folder : Place
  a_folder : Folder → Place

abbrev pub new_store : MessageStyle → Folder → Store
new_store style folder = record { folder = folder; sessions = []; message_style = style }

-- `FileStore.__init__`
unfoldable pub open_store : MessageStyle → Place → Result Store
open_store style nothing = ok (new_store style [])
open_store style no_folder = err runtime_error
open_store style (a_folder folder) = ok (new_store style folder)

unfoldable pub session_key : Bytes → Bytes → Bytes
session_key sender target = sender ++ 1 ∷ target

abbrev pub keep_session : Bytes → Folder × Result FileSession → M Store Bytes
keep_session key (folder, ok s) st =
    (record st { folder = folder; sessions = put key s st.sessions }, ok key)
keep_session key (folder, err x) st = (record st { folder = folder }, err x)

abbrev pub known_session : Bytes → Bytes → Option FileSession → M Store Bytes
known_session sender target (some s) st = (st, ok (session_key sender target))
known_session sender target none st =
    keep_session (session_key sender target) (open_session sender target st.message_style st.folder)
      st

-- `get_session`
unfoldable pub get_session : Bytes → Bytes → M Store Bytes
get_session sender target st =
    known_session sender target (entry (session_key sender target) st.sessions) st

-- A request to a session that the store has given.
abbrev pub ask_session : Bytes → Request → Option FileSession → Store → Store
ask_session key q none st = st
ask_session key q (some s) st =
    let d = serve q (record { folder = st.folder; session = s }) in
    record st { folder = d.folder; sessions = put key d.session st.sessions }

pub data StoreRequest : Type 0 where
  get : Bytes → Bytes → StoreRequest
  ask : Bytes → Request → StoreRequest

abbrev pub serve_request : StoreRequest → Store → Store
serve_request (get sender target) st = after (get_session sender target st)
serve_request (ask key q) st = ask_session key q (entry key st.sessions) st

abbrev pub serve_requests : List StoreRequest → Store → Store
serve_requests [] st = st
serve_requests (r ∷ rs) st = serve_requests rs (serve_request r st)
