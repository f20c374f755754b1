-- ===== src/Sql/Reopened.antt =====
-- The tables keep what the session of jetblack_fixengine/persistence/sql_store.py holds in memory.
use text.Mathlib.TextPositions.{eq_refl}
use jetblack_fixengine.Prelude.{
  Bool, Bool-cases, List, Option, Option-cases, String, [], ap, arith, false, if◌then◌else◌, inl,
  inr, none, refl, some, true, ℕ, ◌++◌, ◌∙◌, ◌∷◌, ◌≡◌,
}
use jetblack_fixengine.Sql.{
  MessageRow, SeqnumRow, SqlSession, fits, is_row, open_session, save_message, seqnum_query,
  seqnum_update, set_incoming_seqnum, set_outgoing_seqnum, set_seqnums,
}
use jetblack_fixengine.Bytes.{Bytes}
use jetblack_fixengine.Exceptions.{after, err, overflow_error}

-- What a client can ask of a session.
pub data Request : Type 0 where
  set_both : ℕ → ℕ → Request
  set_out : ℕ → Request
  set_in : ℕ → Request
  save : Bytes → Request

abbrev pub serve : Request → SqlSession → SqlSession
serve (set_both o i) s = after (set_seqnums o i s)
serve (set_out o) s = after (set_outgoing_seqnum o s)
serve (set_in i) s = after (set_incoming_seqnum i s)
serve (save buf) s = after (save_message buf s)

abbrev pub serve_all : List Request → SqlSession → SqlSession
serve_all [] s = s
serve_all (q ∷ qs) s = serve_all qs (serve q s)

-- The table holds the numbers of the session.
abbrev pub IsStored : SqlSession → Type 0
IsStored s =
    seqnum_query s.sender_comp_id s.target_comp_id s.seqnums
    ≡ some (s.outgoing_seqnum, s.incoming_seqnum)

pick_true : {A : Type 0} (b : Bool) (x y z : A) → b ≡ true → (if b then x else y) ≡ z → x ≡ z
pick_true true x y z p h = h
pick_true false x y z p h = absurd (ground (arith, p))

pick_false : {A : Type 0} (b : Bool) (x y z : A) → b ≡ false → (if b then x else y) ≡ z → y ≡ z
pick_false true x y z p h = absurd (ground (arith, p))
pick_false false x y z p h = h

abbrev changed : (ℕ × ℕ → ℕ × ℕ) → Option (ℕ × ℕ) → Option (ℕ × ℕ)
changed g none = none
changed g (some p) = some (g p)

module _ (sender target : String) where
  -- An update that leaves the key, and that changes the numbers as `g` does.
  query-update :
      (f : SeqnumRow → SeqnumRow) (g : ℕ × ℕ → ℕ × ℕ)
      → ((r : SeqnumRow)
          → ((f r).sender_comp_id ≡ r.sender_comp_id)
            × ((f r).target_comp_id ≡ r.target_comp_id)
            × (◌≡◌ {A = ℕ × ℕ}
                ((f r).outgoing_seqnum, (f r).incoming_seqnum)
                (g (r.outgoing_seqnum, r.incoming_seqnum))))
      → (p : ℕ × ℕ) (rows : List SeqnumRow) → seqnum_query sender target rows ≡ some p
      → seqnum_query sender target (seqnum_update sender target f rows) ≡ some (g p)
  unfolding seqnum_query seqnum_update
  query-update f g k p [] h = absurd (ground (arith, h))
  query-update f g k p (r ∷ rows) h =
      elim (Bool-cases (is_row sender target r.sender_comp_id r.target_comp_id)) [
        | inl y ↦
            rw (y, (k r).0, (k r).1, y) (ap some (k r).2 ∙ ap (changed g) (pick_true _ _ _ _ y h))
        | inr n ↦ rw (n, n) (query-update f g k p rows (pick_false _ _ _ _ n h))
      ]

  query-insert :
      (o i : ℕ) (rows : List SeqnumRow)
      → seqnum_query sender target rows ≡ none
      → seqnum_query sender target (
          rows
          ++ record {
            sender_comp_id = sender;
            target_comp_id = target;
            outgoing_seqnum = o;
            incoming_seqnum = i;
          }
            ∷ [])
        ≡ some (o, i)
  unfolding seqnum_query
  query-insert o i [] h = rw (eq_refl sender, eq_refl target) refl
  query-insert o i (r ∷ rows) h =
      elim (Bool-cases (is_row sender target r.sender_comp_id r.target_comp_id)) [
        | inl y ↦ absurd (ground (arith, pick_true _ _ _ _ y h))
        | inr n ↦ rw n (query-insert o i rows (pick_false _ _ _ _ n h))
      ]

  pub open_session-IsStored :
      (seqnums : List SeqnumRow) (messages : List MessageRow)
      → IsStored (open_session sender target seqnums messages)
  unfolding open_session
  open_session-IsStored seqnums messages =
      elim (Option-cases (seqnum_query sender target seqnums)) [
        | inl n ↦ rw n (query-insert 0 0 seqnums n)
        | inr (p, y) ↦ rw y y
      ]

-- The numbers of a request are integers of SQLite.
abbrev pub IsFit : Request → Type 0
IsFit (set_both o i) = (fits o ≡ true) × (fits i ≡ true)
IsFit (set_out o) = fits o ≡ true
IsFit (set_in i) = fits i ≡ true
IsFit (save buf) = Unit {0}

pub serve-IsStored : (q : Request) (s : SqlSession) → IsFit q → IsStored s → IsStored (serve q s)
unfolding set_seqnums set_outgoing_seqnum set_incoming_seqnum save_message
serve-IsStored (set_both o i) s f h =
    rw (f.0, f.1)
      (query-update s.sender_comp_id s.target_comp_id _ (λ p. (o, i)) (λ r. (refl, refl, refl)) _
        s.seqnums h)
serve-IsStored (set_out o) s f h = rw f (
    query-update s.sender_comp_id s.target_comp_id _ (λ p. (o, p.1)) (λ r. (refl, refl, refl)) _
      s.seqnums h)
serve-IsStored (set_in i) s f h = rw f (
    query-update s.sender_comp_id s.target_comp_id _ (λ p. (p.0, i)) (λ r. (refl, refl, refl)) _
      s.seqnums h)
serve-IsStored (save buf) s f h = ground (arith, h)

-- A number that does not fit is in memory, and not in the table: the request has raised.
set_seqnum_overflow :
    (n : ℕ) (s : SqlSession)
    → fits n ≡ false
    → IsStored s
    → let (s', r) = set_incoming_seqnum n s in
      (r ≡ err overflow_error)
      × (s'.incoming_seqnum ≡ n)
      × (seqnum_query s'.sender_comp_id s'.target_comp_id s'.seqnums
          ≡ some (s.outgoing_seqnum, s.incoming_seqnum))
unfolding set_incoming_seqnum
set_seqnum_overflow n s f h = rw f (refl, refl, h)

pub reopened :
    (s : SqlSession)
    → IsStored s
    → open_session s.sender_comp_id s.target_comp_id s.seqnums s.messages ≡ s
unfolding open_session
reopened s h = rw h refl
