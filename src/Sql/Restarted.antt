-- ===== src/Sql/Restarted.antt =====
-- A store that is started again over its database.
use jetblack_fixengine.Sql.Kept.{AllFit, IsKept, opened-names, own-IsKept, serve_requests-IsKept}
use jetblack_fixengine.Sql.{MessageRow, SeqnumRow, SqlSession, fetched, open_session}
use jetblack_fixengine.Sql.Store.{
  SqlStore, StoreRequest, get_session, keep_session, new_store, open_store, serve_requests,
  session_key, table_of,
}
use jetblack_fixengine.Sql.Reopened.{open_session-IsStored}
use jetblack_fixengine.FileStore.{entry}
use jetblack_fixengine.FileStore.Numbers.{entry-put}
use jetblack_fixengine.Prelude.{
  List, Option, String, [], ap, arith, none, some, sym, ℕ, ◌∙◌, ◌≡◌, ◌≢◌,
}

module _ (sender target : String) where
  first-IsKept :
      (seqnums : List SeqnumRow) (messages : List MessageRow)
      → IsKept sender target (get_session sender target (new_store seqnums messages))
  unfolding get_session entry
  first-IsKept seqnums messages =
      let (p, q) = opened-names sender target sender target seqnums messages in
      own-IsKept sender target (new_store seqnums messages)
        (open_session sender target seqnums messages) p q
        (open_session-IsStored sender target seqnums messages) (λ k s e. absurd (ground (arith, e)))

  -- The numbers of a session that the store has given.
  abbrev pub numbers_of : Option SqlSession → Option (ℕ × ℕ)
  numbers_of none = none
  numbers_of (some s) = some (s.outgoing_seqnum, s.incoming_seqnum)

  abbrev pub numbers : SqlStore → Option (ℕ × ℕ)
  numbers st = numbers_of (entry (session_key sender target) st.sessions)

  given_again :
      (st : SqlStore)
      → IsKept sender target st
      → let new = get_session sender target (new_store st.seqnums st.messages) in
        (new.seqnums ≡ st.seqnums) × (new.messages ≡ st.messages) × (numbers new ≡ numbers st)
  unfolding get_session entry open_session
  given_again st h =
      let again =
        ap
          (λ (o : Option (ℕ × ℕ)).
            keep_session (session_key sender target)
              (fetched sender target st.seqnums st.messages o) (new_store st.seqnums st.messages))
          h.stored in
      (
        ap (λ (x : SqlStore). x.seqnums) again,
        ap (λ (x : SqlStore). x.messages) again,
        ap numbers again
            ∙ ap numbers_of (entry-put (session_key sender target) _ [])
            ∙ ap numbers_of (sym h.found),
      )

  -- A store over any tables, there or not, that first gives one session, and then is given any requests to
  -- any of its sessions and for further ones, whether they succeed or raise, where the numbers that this
  -- session is given are below 2^63. A new store over the tables that this leaves gives that session again,
  -- with the numbers that it had, and changes no row.
  pub sql_store_restarted :
      (seqnums : Option (List SeqnumRow)) (messages : Option (List MessageRow))
      (rs : List StoreRequest)
      → AllFit sender target rs
      → let old = serve_requests rs (get_session sender target (open_store seqnums messages)) in
        let new = get_session sender target (open_store (some old.seqnums) (some old.messages)) in
        (new.seqnums ≡ old.seqnums)
        × (new.messages ≡ old.messages)
        × (numbers new ≡ numbers old)
        × (numbers old ≢ none)
  unfolding open_store
  sql_store_restarted seqnums messages rs f =
      let h =
        serve_requests-IsKept sender target rs _ f
          (first-IsKept (table_of seqnums) (table_of messages)) in
      let (a, b, c) = given_again _ h in
      (a, b, c, λ e. absurd (ground (arith, sym e ∙ ap numbers_of h.found)))
