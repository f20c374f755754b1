-- ===== src/Sql/Apart.antt =====
-- The statements of jetblack_fixengine/persistence/sql_store.py for one pair of names leave the rows of
-- another.
use text.Mathlib.TextEquality.{eq_iff}
use text.Mathlib.Text.{◌==◌}
use jetblack_fixengine.Sql.{
  MessageRow, SeqnumRow, SqlSession, execute, fits, is_row, open_session, save_message,
  seqnum_query, seqnum_update, set_incoming_seqnum, set_outgoing_seqnum, set_seqnums,
}
use jetblack_fixengine.Sql.Reopened.{Request, save, serve, set_both, set_in, set_out}
use jetblack_fixengine.Exceptions.{after}
use jetblack_fixengine.Prelude.{
  Bool, Bool-cases, List, Option-cases, String, [], ap, arith, false, inl, inr, refl, true, ℕ, ◌&&◌,
  ◌++◌, ◌∙◌, ◌∷◌, ◌≡◌,
}

both_true : (a b : Bool) → (a && b) ≡ true → (a ≡ true) × (b ≡ true)
both_true a b h = ground (arith, h)

pub is_row_sound : (a b s t : String) → is_row a b s t ≡ true → (s ≡ a) × (t ≡ b)
is_row_sound a b s t h =
    let (p, q) = both_true (s == a) (t == b) h in ((eq_iff s a).0 p, (eq_iff t b).0 q)

module _ (sender target a b : String) (apart : is_row sender target a b ≡ false) where
  not_row : (s t : String) → is_row a b s t ≡ true → is_row sender target s t ≡ false
  not_row s t h =
      let (p, q) = is_row_sound a b s t h in
      ap (λ (x : String). is_row sender target x t) p
      ∙ ap (λ (x : String). is_row sender target a x) q
      ∙ apart

  query-update_other :
      (f : SeqnumRow → SeqnumRow)
      → ((r : SeqnumRow)
          → ((f r).sender_comp_id ≡ r.sender_comp_id) × ((f r).target_comp_id ≡ r.target_comp_id))
      → (rows : List SeqnumRow)
      → seqnum_query sender target (seqnum_update a b f rows) ≡ seqnum_query sender target rows
  unfolding seqnum_query seqnum_update
  query-update_other f k [] = refl
  query-update_other f k (r ∷ rows) =
      elim (Bool-cases (is_row a b r.sender_comp_id r.target_comp_id)) [
        | inl y ↦
            let n = not_row r.sender_comp_id r.target_comp_id y in
            rw (y, (k r).0, (k r).1, n) (query-update_other f k rows)
        | inr m ↦ rw (m, query-update_other f k rows) refl
      ]

  query-append_other :
      (o i : ℕ) (rows : List SeqnumRow)
      → seqnum_query sender target (
          rows
          ++ record {
            sender_comp_id = a;
            target_comp_id = b;
            outgoing_seqnum = o;
            incoming_seqnum = i;
          }
            ∷ [])
        ≡ seqnum_query sender target rows
  unfolding seqnum_query
  query-append_other o i [] = rw apart refl
  query-append_other o i (r ∷ rows) = rw (query-append_other o i rows) refl

  pub open_session-other :
      (seqnums : List SeqnumRow) (messages : List MessageRow)
      → seqnum_query sender target (open_session a b seqnums messages).seqnums
        ≡ seqnum_query sender target seqnums
  unfolding open_session
  open_session-other seqnums messages = elim (Option-cases (seqnum_query a b seqnums)) [
    | inl n ↦ rw n (query-append_other 0 0 seqnums)
    | inr (p, y) ↦ rw y refl
  ]

module _ (sender target : String) where
  execute-other :
      (b : Bool) (f : SeqnumRow → SeqnumRow) (s : SqlSession)
      → is_row sender target s.sender_comp_id s.target_comp_id ≡ false
      → ((r : SeqnumRow)
          → ((f r).sender_comp_id ≡ r.sender_comp_id) × ((f r).target_comp_id ≡ r.target_comp_id))
      → seqnum_query sender target (after (execute b f s)).seqnums
        ≡ seqnum_query sender target s.seqnums
  execute-other false f s n k = refl
  execute-other true f s n k =
      query-update_other sender target s.sender_comp_id s.target_comp_id n f k s.seqnums

  -- What a request of another session changes.
  pub serve-other :
      (q : Request) (s : SqlSession)
      → is_row sender target s.sender_comp_id s.target_comp_id ≡ false
      → seqnum_query sender target (serve q s).seqnums ≡ seqnum_query sender target s.seqnums
  unfolding set_seqnums set_outgoing_seqnum set_incoming_seqnum save_message
  serve-other (set_both o i) s n =
      execute-other (fits o && fits i) _ (record s { outgoing_seqnum = o; incoming_seqnum = i }) n
        (λ r. (refl, refl))
  serve-other (set_out o) s n =
      execute-other (fits o) _ (record s { outgoing_seqnum = o }) n (λ r. (refl, refl))
  serve-other (set_in i) s n =
      execute-other (fits i) _ (record s { incoming_seqnum = i }) n (λ r. (refl, refl))
  serve-other (save buf) s n = ground arith

execute-names :
    (b : Bool) (f : SeqnumRow → SeqnumRow) (s : SqlSession)
    → ((after (execute b f s)).sender_comp_id ≡ s.sender_comp_id)
      × ((after (execute b f s)).target_comp_id ≡ s.target_comp_id)
execute-names true f s = (refl, refl)
execute-names false f s = (refl, refl)

pub serve-names :
    (q : Request) (s : SqlSession)
    → ((serve q s).sender_comp_id ≡ s.sender_comp_id)
      × ((serve q s).target_comp_id ≡ s.target_comp_id)
unfolding set_seqnums set_outgoing_seqnum set_incoming_seqnum save_message
serve-names (set_both o i) s =
    execute-names (fits o && fits i) _ (record s { outgoing_seqnum = o; incoming_seqnum = i })
serve-names (set_out o) s = execute-names (fits o) _ (record s { outgoing_seqnum = o })
serve-names (set_in i) s = execute-names (fits i) _ (record s { incoming_seqnum = i })
serve-names (save buf) s = ground arith
