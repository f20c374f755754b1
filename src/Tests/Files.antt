-- ===== src/Tests/Files.antt =====
-- The theorems on sessions in files at concrete data.
use jetblack_fixengine.FileStore.{
  FileSession, Folder, entry, file, first_line, message_name, open_session, parse_seqnums, put,
  seqnum_name, text,
}
use jetblack_fixengine.FileStore.Reopened.{set_in, set_out}
use jetblack_fixengine.Prelude.{List, [], ap, inr, none, pos, refl, ◌∷◌, ◌≡◌, ◌≢◌}
use jetblack_fixengine.Bytes.Text.{split}
use jetblack_fixengine.Bytes.{codes, int}
use jetblack_fixengine.FileStore.Store.{
  Store, StoreRequest, a_folder, ask, get, get_session, keep_session, new_store, open_store,
  serve_requests, session_key,
}
use jetblack_fixengine.FileStore.Kept.{AllFree}
use jetblack_fixengine.FileStore.Restarted.{store_restarted}
use jetblack_fixengine.Exceptions.{Result, ok}

-- A folder with the numbers of the session of ME and THEM.
abbrev stored : Folder
stored = (codes "ME-THEM-initiator-seqnum.txt", file (codes "3:4")) ∷ []

abbrev opened : FileSession
opened = record {
  seqnum_path = seqnum_name (codes "ME") (codes "THEM");
  message_path = message_name (codes "ME") (codes "THEM");
  message_style = text;
  outgoing_seqnum = pos 3;
  incoming_seqnum = pos 4;
}

opens : open_session (codes "ME") (codes "THEM") text stored ≡ (stored, ok opened)
unfolding open_session entry seqnum_name parse_seqnums split first_line int
opens = refl

-- A store over that folder, which has given the session, and then is asked for more.
abbrev one_session : Store
one_session = record (new_store text stored) {
  sessions = (session_key (codes "ME") (codes "THEM"), opened) ∷ [];
}

opens_store : open_store text (a_folder stored) ≡ ok (new_store text stored)
unfolding open_store
opens_store = refl

gives_session :
    get_session (codes "ME") (codes "THEM") (new_store text stored)
    ≡ (one_session, ok (session_key (codes "ME") (codes "THEM")))
unfolding get_session entry put
gives_session =
    ap
      (λ (r : Folder × Result FileSession).
        keep_session (session_key (codes "ME") (codes "THEM")) r (new_store text stored))
      opens

abbrev store_requests : List StoreRequest
store_requests =
    ask (session_key (codes "ME") (codes "THEM")) (set_out (pos 9))
    ∷ get (codes "US") (codes "THEM")
    ∷ ask (session_key (codes "US") (codes "THEM")) (set_in (pos 2))
    ∷ []

store_requests-AllFree : AllFree (codes "ME") (codes "THEM") text store_requests
unfolding seqnum_name message_name
store_requests-AllFree = (tt, (inr (refl, refl), (tt, tt)))

store_restarted_example :
    let key = session_key (codes "ME") (codes "THEM") in
    let old = serve_requests store_requests one_session in
    let (new, r) = get_session (codes "ME") (codes "THEM") (new_store text old.folder) in
    (r ≡ ok key)
    × (new.folder ≡ old.folder)
    × (entry key new.sessions ≡ entry key old.sessions)
    × (entry key old.sessions ≢ none)
store_restarted_example =
    store_restarted (codes "ME") (codes "THEM") text (a_folder stored) (new_store text stored)
      one_session store_requests opens_store gives_session store_requests-AllFree
