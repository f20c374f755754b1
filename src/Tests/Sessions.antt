-- ===== src/Tests/Sessions.antt =====
-- The theorems on stored sessions at concrete data.
use jetblack_fixengine.Sql.{SeqnumRow, SqlSession}
use jetblack_fixengine.Sql.Store.{
  StoreRequest, ask, get, get_session, open_store, serve_requests, session_key,
}
use jetblack_fixengine.Sql.Restarted.{numbers, sql_store_restarted}
use jetblack_fixengine.Sql.Reopened.{save, set_both, set_in, set_out}
use jetblack_fixengine.Prelude.{List, [], none, refl, some, ◌∷◌, ◌≡◌, ◌≢◌}
use jetblack_fixengine.Bytes.{codes}

-- The session of another pair of names.
abbrev other : SeqnumRow
other = record {
  sender_comp_id = "US";
  target_comp_id = "THEM";
  outgoing_seqnum = 3;
  incoming_seqnum = 4;
}

abbrev requests : List StoreRequest
requests =
    get "US" "THEM"
    ∷ ask (session_key "US" "THEM") (set_in 7)
    ∷ ask (session_key "ME" "THEM") (save (codes "8=FIX"))
    ∷ ask (session_key "ME" "THEM") (set_both 1 2)
    ∷ ask (session_key "ME" "THEM") (set_out 9)
    ∷ []

sql_store_restarted_example :
    let old =
      serve_requests requests (get_session "ME" "THEM" (open_store (some (other ∷ [])) none)) in
    let new = get_session "ME" "THEM" (open_store (some old.seqnums) (some old.messages)) in
    (new.seqnums ≡ old.seqnums)
    × (new.messages ≡ old.messages)
    × (numbers "ME" "THEM" new ≡ numbers "ME" "THEM" old)
    × (numbers "ME" "THEM" old ≢ none)
sql_store_restarted_example =
    sql_store_restarted "ME" "THEM" (some (other ∷ [])) none requests
      ((λ h. refl), ((λ h. tt), ((λ h. (refl, refl)), ((λ h. refl), tt))))

abbrev fresh : SqlSession
fresh = record {
  seqnums = other ∷ [];
  messages = [];
  sender_comp_id = "US";
  target_comp_id = "THEM";
  outgoing_seqnum = 3;
  incoming_seqnum = 4;
}
