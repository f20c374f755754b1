-- ===== src/Sql/Kept.antt =====
-- A store keeps a session that it has given, whatever its other sessions do.
use jetblack_fixengine.Sql.{MessageRow, SeqnumRow, SqlSession, is_row, open_session, seqnum_query}
use jetblack_fixengine.Sql.Store.{
  SqlStore, StoreRequest, ask, ask_session, current, get, get_session, keep_session, known_session,
  serve_requests, session_key,
}
use jetblack_fixengine.Sql.Apart.{is_row_sound, open_session-other, serve-names, serve-other}
use jetblack_fixengine.Sql.Reopened.{IsFit, IsStored, Request, serve, serve-IsStored}
use jetblack_fixengine.FileStore.{entry, put}
use jetblack_fixengine.FileStore.Numbers.{entry-put, entry-put_other}
use jetblack_fixengine.FileStore.Apart.{bytes_eq_back}
use jetblack_fixengine.Prelude.{
  Bool-cases, List, Option, Option-cases, String, [], ap, arith, false, inl, inr, none, refl, some,
  sym, true, ◌∙◌, ◌∷◌, ◌≡◌,
}
use jetblack_fixengine.Bytes.{Bytes, bytes_eq}
use jetblack_fixengine.Bytes.Text.{bytes_eq_refl, bytes_eq_sound}
use mathlib.Core.Bool.{false≢true}
use mathlib.Core.Path.{subst}

abbrev or_else : SqlSession → Option SqlSession → SqlSession
or_else s none = s
or_else s (some t) = t

abbrev key_of : SqlSession → Bytes
key_of s = session_key s.sender_comp_id s.target_comp_id

-- Each session stands under the key of its names.
abbrev AllKeyed : List (Bytes × SqlSession) → Type 0
AllKeyed sessions = (k : Bytes) (s : SqlSession) → entry k sessions ≡ some s → k ≡ key_of s

put-AllKeyed :
    (k : Bytes) (s : SqlSession) (sessions : List (Bytes × SqlSession))
    → k ≡ key_of s
    → AllKeyed sessions
    → AllKeyed (put k s sessions)
put-AllKeyed k s sessions h old k' s' e = elim (Bool-cases (bytes_eq k k')) [
  | inl y ↦
      let same = bytes_eq_sound k k' y in
      let found = subst (λ (x : Bytes). entry x (put k s sessions) ≡ some s') (sym same) e in
      sym same ∙ h ∙ ap key_of (ap (or_else s) (sym (entry-put k s sessions) ∙ found))
  | inr m ↦ old k' s' (sym (entry-put_other k k' s sessions m) ∙ e)
]

module _ (sender target : String) where
  abbrev pub key : Bytes
  key = session_key sender target

  apart_names :
      (a b : String) → bytes_eq key (session_key a b) ≡ false → is_row sender target a b ≡ false
  apart_names a b n = elim (Bool-cases (is_row sender target a b)) [
    | inl y ↦
        let (p, q) = is_row_sound sender target a b y in
        let same : session_key a b ≡ key =
          ap (λ (x : String). session_key x b) p ∙ ap (λ (x : String). session_key sender x) q in
        absurd (false≢true (sym n ∙ ap (bytes_eq key) same ∙ bytes_eq_refl key))
    | inr m ↦ m
  ]

  -- The store has given the session, and the table holds its numbers.
  pub record IsKept (st : SqlStore) : Type 0 where
    pub session : SqlSession
    pub found : entry key st.sessions ≡ some session
    pub sender_named : session.sender_comp_id ≡ sender
    pub target_named : session.target_comp_id ≡ target
    pub stored :
        seqnum_query sender target st.seqnums
        ≡ some (session.outgoing_seqnum, session.incoming_seqnum)
    pub keyed : AllKeyed st.sessions

  -- Another session is kept, and the rows of this one stay.
  other-IsKept :
      (st : SqlStore) (k : Bytes) (s : SqlSession)
      → bytes_eq key k ≡ false
      → k ≡ key_of s
      → seqnum_query sender target s.seqnums ≡ seqnum_query sender target st.seqnums
      → IsKept st
      → IsKept (keep_session k s st)
  other-IsKept st k s n e q h = record {
    session = h.session;
    found = entry-put_other k key s st.sessions (bytes_eq_back key k n) ∙ h.found;
    sender_named = h.sender_named;
    target_named = h.target_named;
    stored = q ∙ h.stored;
    keyed = put-AllKeyed k s st.sessions e h.keyed;
  }

  -- The session itself is kept.
  pub own-IsKept :
      (st : SqlStore) (s : SqlSession)
      → s.sender_comp_id ≡ sender
      → s.target_comp_id ≡ target
      → IsStored s
      → AllKeyed st.sessions
      → IsKept (keep_session key s st)
  own-IsKept st s a b h k = record {
    session = s;
    found = entry-put key s st.sessions;
    sender_named = a;
    target_named = b;
    stored =
        ap (λ (x : String). seqnum_query x target s.seqnums) (sym a)
        ∙ ap (λ (x : String). seqnum_query s.sender_comp_id x s.seqnums) (sym b)
        ∙ h;
    keyed =
        put-AllKeyed key s st.sessions
          (ap (λ (x : String). session_key x target) (sym a)
            ∙ ap (λ (x : String). session_key s.sender_comp_id x) (sym b))
          k;
  }

  pub opened-names :
      (a b : String) (seqnums : List SeqnumRow) (messages : List MessageRow)
      → ((open_session a b seqnums messages).sender_comp_id ≡ a)
        × ((open_session a b seqnums messages).target_comp_id ≡ b)
  unfolding open_session
  opened-names a b seqnums messages = elim (Option-cases (seqnum_query a b seqnums)) [
    | inl n ↦ rw n (refl, refl)
    | inr (p, y) ↦ rw y (refl, refl)
  ]

  known-IsKept :
      (st : SqlStore) (a b : String) (o : Option SqlSession)
      → entry (session_key a b) st.sessions ≡ o
      → IsKept st
      → IsKept (known_session a b o st)
  known-IsKept st a b (some s) e h = h
  known-IsKept st a b none e h = elim (Bool-cases (bytes_eq key (session_key a b))) [
    | inl y ↦
        let known =
          subst (λ (x : Bytes). entry x st.sessions ≡ some h.session)
            (bytes_eq_sound key (session_key a b) y) h.found in
        absurd (ground (arith, sym e ∙ known))
    | inr n ↦
        let (p, q) = opened-names a b st.seqnums st.messages in
        other-IsKept st (session_key a b) (open_session a b st.seqnums st.messages) n
          (ap (λ (x : String). session_key x b) (sym p)
            ∙ ap (session_key (open_session a b st.seqnums st.messages).sender_comp_id) (sym q))
          (open_session-other sender target a b (apart_names a b n) st.seqnums st.messages) h
  ]

  ask_own-IsKept :
      (st : SqlStore) (q : Request) (s : SqlSession)
      → IsFit q
      → entry key st.sessions ≡ some s
      → IsKept st
      → IsKept (keep_session key (serve q (current st s)) st)
  ask_own-IsKept st q s f e h =
      let it : h.session ≡ s = ap (or_else s) (sym h.found ∙ e) in
      let a : s.sender_comp_id ≡ sender =
        ap (λ (x : SqlSession). x.sender_comp_id) (sym it) ∙ h.sender_named in
      let b : s.target_comp_id ≡ target =
        ap (λ (x : SqlSession). x.target_comp_id) (sym it) ∙ h.target_named in
      let (p, r) = serve-names q (current st s) in
      let stored : IsStored (current st s) =
        ap (λ (x : String). seqnum_query x s.target_comp_id st.seqnums) a
        ∙ ap (λ (x : String). seqnum_query sender x st.seqnums) b
        ∙ h.stored
        ∙ ap (λ (x : SqlSession). some (x.outgoing_seqnum, x.incoming_seqnum)) it in
      own-IsKept st (serve q (current st s)) (p ∙ a) (r ∙ b)
        (serve-IsStored q (current st s) f stored) h.keyed

  ask_other-IsKept :
      (st : SqlStore) (k : Bytes) (q : Request) (s : SqlSession)
      → entry k st.sessions ≡ some s
      → bytes_eq key k ≡ false
      → IsKept st
      → IsKept (keep_session k (serve q (current st s)) st)
  ask_other-IsKept st k q s e n h =
      let named = h.keyed k s e in
      let (p, r) = serve-names q (current st s) in
      other-IsKept st k (serve q (current st s)) n
        (named
          ∙ ap (λ (x : String). session_key x s.target_comp_id) (sym p)
          ∙ ap (session_key (serve q (current st s)).sender_comp_id) (sym r))
        (serve-other sender target q (current st s)
          (apart_names s.sender_comp_id s.target_comp_id (ap (bytes_eq key) (sym named) ∙ n)))
        h

  ask-IsKept :
      (st : SqlStore) (k : Bytes) (q : Request) (o : Option SqlSession)
      → (bytes_eq key k ≡ true → IsFit q)
      → entry k st.sessions ≡ o
      → IsKept st
      → IsKept (ask_session k q o st)
  ask-IsKept st k q none f e h = h
  ask-IsKept st k q (some s) f e h = elim (Bool-cases (bytes_eq key k)) [
    | inl y ↦
        let same = bytes_eq_sound key k y in
        subst (λ (x : Bytes). IsKept (keep_session x (serve q (current st s)) st)) same
          (ask_own-IsKept st q s (f y) (ap (λ (x : Bytes). entry x st.sessions) same ∙ e) h)
    | inr n ↦ ask_other-IsKept st k q s e n h
  ]

  -- The numbers in the requests to this session are integers of SQLite.
  abbrev pub AllFit : List StoreRequest → Type 0
  AllFit [] = Unit {0}
  AllFit (get a b ∷ rs) = AllFit rs
  AllFit (ask k q ∷ rs) = (bytes_eq key k ≡ true → IsFit q) × AllFit rs

  pub serve_requests-IsKept :
      (rs : List StoreRequest) (st : SqlStore)
      → AllFit rs
      → IsKept st
      → IsKept (serve_requests rs st)
  unfolding get_session
  serve_requests-IsKept [] st f h = h
  serve_requests-IsKept (get a b ∷ rs) st f h =
      serve_requests-IsKept rs _ f
        (known-IsKept st a b (entry (session_key a b) st.sessions) refl h)
  serve_requests-IsKept (ask k q ∷ rs) st f h =
      serve_requests-IsKept rs _ f.1 (ask-IsKept st k q (entry k st.sessions) f.0 refl h)
