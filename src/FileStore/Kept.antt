-- ===== src/FileStore/Kept.antt =====
-- A store keeps a session that it has given, whatever its other sessions do.
use jetblack_fixengine.FileStore.{
  Disk, FileSession, Folder, MessageStyle, entry, message_name, open_session, put, seqnum_name,
}
use jetblack_fixengine.FileStore.Store.{
  Store, StoreRequest, ask, ask_session, get, get_session, keep_session, known_session,
  serve_request, serve_requests, session_key,
}
use jetblack_fixengine.FileStore.Numbers.{entry-put, entry-put_other}
use jetblack_fixengine.FileStore.Reopened.{
  IsStored, Request, open_session-IsStored, serve, serve-IsStored,
}
use jetblack_fixengine.FileStore.Apart.{
  AllApart, IsApart, bytes_eq_back, open_session-other, or_else, put-AllApart, serve-other,
}
use jetblack_fixengine.Prelude.{
  Bool-cases, List, Option, [], ap, arith, false, inl, inr, none, refl, some, sym, true, ◌∙◌, ◌∷◌,
  ◌≡◌, ◌≢◌, ◌⊎◌,
}
use jetblack_fixengine.Bytes.{Bytes, bytes_eq}
use jetblack_fixengine.Exceptions.{Result, after, err, ok}
use mathlib.Core.Bool.{false≢true}
use jetblack_fixengine.Bytes.Text.{bytes_eq_sound}
use mathlib.Core.Path.{subst}

module _ (sender target : Bytes) (style : MessageStyle) where
  abbrev pub name : Bytes
  name = seqnum_name sender target

  abbrev pub key : Bytes
  key = session_key sender target

  abbrev pub disk : Store → FileSession → Disk
  disk st s = record { folder = st.folder; session = s }

  -- The store has given the session, and its file holds its numbers.
  pub record IsKept (st : Store) : Type 0 where
    pub session : FileSession
    pub found : entry key st.sessions ≡ some session
    pub stored : IsStored sender target style (disk st session)
    pub apart : AllApart name key st.sessions

  -- A request that opens no session whose files have the names of this session's file.
  abbrev pub IsFree : StoreRequest → Type 0
  IsFree (ask k q) = Unit {0}
  IsFree (get a b) =
      (bytes_eq key (session_key a b) ≡ true)
      ⊎ ((bytes_eq (seqnum_name a b) name ≡ false) × (bytes_eq (message_name a b) name ≡ false))

  abbrev pub AllFree : List StoreRequest → Type 0
  AllFree [] = Unit {0}
  AllFree (r ∷ rs) = IsFree r × AllFree rs

  IsStored-folder :
      (folder : Folder) (d : Disk)
      → entry name folder ≡ entry name d.folder
      → IsStored sender target style d
      → IsStored sender target style (record d { folder = folder })
  IsStored-folder folder d e h = record {
    named = h.named;
    messages = h.messages;
    styled = h.styled;
    content = h.content;
    stored = e ∙ h.stored;
    parsed = h.parsed;
  }

  -- Another session is put, and the files are changed elsewhere.
  other-IsKept :
      (st : Store) (k : Bytes) (s : FileSession) (folder : Folder)
      → bytes_eq key k ≡ false
      → entry name folder ≡ entry name st.folder
      → IsApart name s
      → IsKept st
      → IsKept (record st { folder = folder; sessions = put k s st.sessions })
  other-IsKept st k s folder n e a h = record {
    session = h.session;
    found = entry-put_other k key s st.sessions (bytes_eq_back key k n) ∙ h.found;
    stored = IsStored-folder folder (disk st h.session) e h.stored;
    apart = put-AllApart name key k s st.sessions (λ _. a) h.apart;
  }

  opened-IsKept :
      (st : Store) (a b : Bytes) (r : Folder × Result FileSession)
      → open_session a b st.message_style st.folder ≡ r
      → bytes_eq key (session_key a b) ≡ false
      → (bytes_eq (seqnum_name a b) name ≡ false) × (bytes_eq (message_name a b) name ≡ false)
      → IsKept st
      → IsKept (after (keep_session (session_key a b) r st))
  opened-IsKept st a b (folder, ok s) e n (p, q) h =
      let o = open_session-IsStored a b st.message_style st.folder folder s e in
      other-IsKept st (session_key a b) s folder n
        (ap (λ (r : Folder × Result FileSession). entry name (after r)) (sym e)
          ∙ open_session-other name a b st.message_style st.folder p)
        (rw o.named p, rw o.messages q) h
  opened-IsKept st a b (folder, err x) e n (p, q) h = record {
    session = h.session;
    found = h.found;
    stored =
        IsStored-folder folder (disk st h.session)
          (ap (λ (r : Folder × Result FileSession). entry name (after r)) (sym e)
            ∙ open_session-other name a b st.message_style st.folder p)
          h.stored;
    apart = h.apart;
  }

  -- The key is known.
  found_not_none :
      (st : Store) (k : Bytes) → bytes_eq key k ≡ true → IsKept st → entry k st.sessions ≢ none
  found_not_none st k y h e =
      let known =
        subst (λ (x : Bytes). entry x st.sessions ≡ some h.session) (bytes_eq_sound key k y)
          h.found in
      absurd (ground (arith, sym e ∙ known))

  known-IsKept :
      (st : Store) (a b : Bytes) (o : Option FileSession)
      → entry (session_key a b) st.sessions ≡ o
      → IsFree (get a b)
      → IsKept st
      → IsKept (after (known_session a b o st))
  known-IsKept st a b (some s) e f h = h
  known-IsKept st a b none e (inl same) h = absurd (found_not_none st (session_key a b) same h e)
  known-IsKept st a b none e (inr f) h = elim (Bool-cases (bytes_eq key (session_key a b))) [
    | inl y ↦ absurd (found_not_none st (session_key a b) y h e)
    | inr n ↦ opened-IsKept st a b _ refl n f h
  ]

  own-IsKept :
      (st : Store) (k : Bytes) (q : Request) (s : FileSession)
      → entry k st.sessions ≡ some s
      → bytes_eq key k ≡ true
      → IsKept st
      → IsKept (ask_session k q (some s) st)
  own-IsKept st k q s e y h =
      let same = bytes_eq_sound key k y in
      let d = serve q (disk st s) in
      let known = subst (λ (x : Bytes). entry x st.sessions ≡ some h.session) same h.found in
      let it = ap (or_else s) (sym known ∙ e) in
      record {
        session = d.session;
        found =
            subst (λ (x : Bytes). entry key (put x d.session st.sessions) ≡ some d.session) same
              (entry-put key d.session st.sessions);
        stored =
            serve-IsStored sender target style q (disk st s)
              (subst (λ (x : FileSession). IsStored sender target style (disk st x)) it h.stored);
        apart =
            put-AllApart name key k d.session st.sessions (λ n. absurd (false≢true (sym n ∙ y)))
              h.apart;
      }

  ask-IsKept :
      (st : Store) (k : Bytes) (q : Request) (o : Option FileSession)
      → entry k st.sessions ≡ o
      → IsKept st
      → IsKept (ask_session k q o st)
  ask-IsKept st k q none e h = h
  ask-IsKept st k q (some s) e h = elim (Bool-cases (bytes_eq key k)) [
    | inl y ↦ own-IsKept st k q s e y h
    | inr n ↦
        let (same, a) = serve-other name q (disk st s) (h.apart k s n e) in
        other-IsKept st k _ _ n same a h
  ]

  serve_request-IsKept :
      (r : StoreRequest) (st : Store) → IsFree r → IsKept st → IsKept (serve_request r st)
  unfolding get_session
  serve_request-IsKept (get a b) st f h =
      known-IsKept st a b (entry (session_key a b) st.sessions) refl f h
  serve_request-IsKept (ask k q) st f h = ask-IsKept st k q (entry k st.sessions) refl h

  pub serve_requests-IsKept :
      (rs : List StoreRequest) (st : Store) → AllFree rs → IsKept st → IsKept (serve_requests rs st)
  serve_requests-IsKept [] st f h = h
  serve_requests-IsKept (r ∷ rs) st f h =
      serve_requests-IsKept rs (serve_request r st) f.1 (serve_request-IsKept r st f.0 h)
