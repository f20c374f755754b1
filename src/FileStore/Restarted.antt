-- ===== src/FileStore/Restarted.antt =====
-- A store that is started again over its folder.
use jetblack_fixengine.FileStore.Kept.{AllFree, IsKept, disk, serve_requests-IsKept}
use jetblack_fixengine.FileStore.{
  FileSession, Folder, MessageStyle, entry, open_session, seqnum_name,
}
use jetblack_fixengine.FileStore.Store.{
  Place, Store, StoreRequest, a_folder, get_session, keep_session, new_store, no_folder, nothing,
  open_store, serve_requests, session_key,
}
use jetblack_fixengine.FileStore.Numbers.{entry-put}
use jetblack_fixengine.FileStore.Reopened.{open_session-IsStored, reopened}
use jetblack_fixengine.FileStore.Apart.{put-AllApart}
use jetblack_fixengine.Prelude.{List, [], ap, arith, none, refl, sym, ◌∙◌, ◌≡◌, ◌≢◌}
use jetblack_fixengine.Bytes.{Bytes}
use jetblack_fixengine.Exceptions.{Result, after, err, ok}
use mathlib.Core.Bool.{false≢true}
use jetblack_fixengine.Bytes.Text.{bytes_eq_refl}
use mathlib.Core.Path.{subst}

module _ (sender target : Bytes) (style : MessageStyle) where
  first-IsKept :
      (folder : Folder) (st : Store) (r : Folder × Result FileSession)
      → open_session sender target style folder ≡ r
      → keep_session (session_key sender target) r (new_store style folder)
        ≡ (st, ok (session_key sender target))
      → IsKept sender target style st
  unfolding entry
  first-IsKept folder st (folder', ok s) e h =
      subst (IsKept sender target style) (ap (λ (r : Store × Result Bytes). after r) h) (record {
        session = s;
        found = entry-put (session_key sender target) s [];
        stored = open_session-IsStored sender target style folder folder' s e;
        apart =
            put-AllApart (seqnum_name sender target) (session_key sender target)
              (session_key sender target) s []
              (λ n. absurd (false≢true (sym n ∙ bytes_eq_refl (session_key sender target))))
              (λ k t n f. absurd (ground (arith, f)));
      })
  first-IsKept folder st (folder', err x) e h = absurd (ground (arith, h))

  open_store-new :
      (place : Place) (st : Store)
      → open_store style place ≡ ok st
      → (folder : Folder) × (new_store style folder ≡ st)
  unfolding open_store
  open_store-new nothing st h = ([], ground (arith, h))
  open_store-new no_folder st h = absurd (ground (arith, h))
  open_store-new (a_folder folder) st h = (folder, ground (arith, h))

  start-IsKept :
      (place : Place) (st st' : Store)
      → open_store style place ≡ ok st
      → get_session sender target st ≡ (st', ok (session_key sender target))
      → IsKept sender target style st'
  unfolding get_session entry
  start-IsKept place st st' o g =
      let (folder, e) = open_store-new place st o in
      first-IsKept folder st' _ refl (
        subst (λ (x : Store). get_session sender target x ≡ (st', ok (session_key sender target)))
          (sym e) g)

  given_again :
      (st : Store)
      → IsKept sender target style st
      → let (st', r) = get_session sender target (new_store style st.folder) in
        (r ≡ ok (session_key sender target))
        × (st'.folder ≡ st.folder)
        × (entry (session_key sender target) st'.sessions
            ≡ entry (session_key sender target) st.sessions)
  unfolding get_session entry
  given_again st h =
      let same =
        ap
          (λ (r : Folder × Result FileSession).
            keep_session (session_key sender target) r (new_store style st.folder))
          (reopened sender target style (disk sender target style st h.session) h.stored) in
      (
        ap (λ (r : Store × Result Bytes). r.1) same,
        ap (λ (r : Store × Result Bytes). r.0.folder) same,
        ap (λ (r : Store × Result Bytes). entry (session_key sender target) r.0.sessions) same
            ∙ entry-put (session_key sender target) h.session []
            ∙ sym h.found,
      )

  -- A store that could be opened at a place, whatever is there, and could give a session; then any
  -- requests to any of its sessions and for further ones, whether they succeed or raise, where no other
  -- session's files have the name of this session's file of numbers. A new store over the folder that
  -- this leaves gives the session again, with the numbers that it had, and changes nothing in the folder.
  pub store_restarted :
      (place : Place) (st st' : Store) (rs : List StoreRequest)
      → open_store style place ≡ ok st
      → get_session sender target st ≡ (st', ok (session_key sender target))
      → AllFree sender target style rs
      → let old = serve_requests rs st' in
        let (new, r) = get_session sender target (new_store style old.folder) in
        (r ≡ ok (session_key sender target))
        × (new.folder ≡ old.folder)
        × (entry (session_key sender target) new.sessions
            ≡ entry (session_key sender target) old.sessions)
        × (entry (session_key sender target) old.sessions ≢ none)
  store_restarted place st st' rs o g f =
      let h = serve_requests-IsKept sender target style rs st' f (start-IsKept place st st' o g) in
      let (again, folder, sessions) = given_again _ h in
      (again, folder, sessions, λ e. absurd (ground (arith, sym e ∙ h.found)))
