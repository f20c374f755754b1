-- ===== src/FileStore/Apart.antt =====
-- Sessions of jetblack_fixengine/persistence/file_store.py whose files have different names do not disturb each
-- other.
use jetblack_fixengine.FileStore.{
  Disk, Entry, FileSession, Folder, MessageStyle, append_file, directory, entry, file, initial_text,
  load, loaded, open_session, parse_seqnums, put, save_message, save_seqnums, seqnum_name,
  set_incoming_seqnum, set_outgoing_seqnum, set_seqnums, write_entry, write_file, written,
}
use jetblack_fixengine.FileStore.Numbers.{entry-put, entry-put_other}
use jetblack_fixengine.FileStore.Reopened.{
  Request, append_entry-other, save, serve, set_both, set_in, set_out,
}
use jetblack_fixengine.Prelude.{
  Bool-cases, List, Option, ap, false, inl, inr, none, refl, some, sym, true, ℤ, ◌∙◌, ◌≡◌,
}
use jetblack_fixengine.Bytes.{Bytes, bytes_eq}
use jetblack_fixengine.Exceptions.{Result, after, continue, err, ok}
use mathlib.Core.Bool.{false≢true}
use jetblack_fixengine.Bytes.Text.{bytes_eq_refl, bytes_eq_sound}
use mathlib.Core.Path.{subst}

-- Files of other names.
module _ (name : Bytes) where
  write_entry-other :
      (path more : Bytes) (folder : Folder)
      → bytes_eq path name ≡ false
      → (o : Option Entry) → entry name (after (write_entry path more o folder)) ≡ entry name folder
  write_entry-other path more folder n (some directory) = refl
  write_entry-other path more folder n (some (file old)) = entry-put_other path name _ folder n
  write_entry-other path more folder n none = entry-put_other path name _ folder n

  -- A session whose files have other names than one.
  abbrev pub IsApart : FileSession → Type 0
  IsApart s = (bytes_eq s.seqnum_path name ≡ false) × (bytes_eq s.message_path name ≡ false)

  pub serve-other :
      (q : Request) (d : Disk)
      → IsApart d.session
      → (entry name (serve q d).folder ≡ entry name d.folder) × IsApart (serve q d).session
  unfolding set_seqnums set_outgoing_seqnum set_incoming_seqnum save_message save_seqnums write_file
      append_file
  serve-other (set_both o i) d h = (
    write_entry-other d.session.seqnum_path _ d.folder h.0 (entry d.session.seqnum_path d.folder),
    h,
  )
  serve-other (set_out o) d h = (
    write_entry-other d.session.seqnum_path _ d.folder h.0 (entry d.session.seqnum_path d.folder),
    h,
  )
  serve-other (set_in i) d h = (
    write_entry-other d.session.seqnum_path _ d.folder h.0 (entry d.session.seqnum_path d.folder),
    h,
  )
  serve-other (save buf) d h = (
    append_entry-other d.session.message_path name (written d.session.message_style buf) d.folder
        h.1 (entry d.session.message_path d.folder),
    h,
  )

  loaded-folder :
      (a b : Bytes) (style : MessageStyle) (o : Option (ℤ × ℤ)) (folder : Folder)
      → after (loaded a b style o folder) ≡ folder
  loaded-folder a b style none folder = refl
  loaded-folder a b style (some (o, i)) folder = refl

  continue-loaded :
      (a b : Bytes) (style : MessageStyle) (o : Option (ℤ × ℤ)) (folder : Folder)
      (r : Folder × Result (Unit {0}))
      → entry name (after r) ≡ entry name folder
      → entry name (after (continue r (λ _. loaded a b style o))) ≡ entry name folder
  continue-loaded a b style o folder (f, ok tt) e =
      ap (entry name) (loaded-folder a b style o f) ∙ e
  continue-loaded a b style o folder (f, err x) e = e

  load-other :
      (a b : Bytes) (style : MessageStyle) (folder : Folder)
      → bytes_eq (seqnum_name a b) name ≡ false
      → (o : Option Entry) → entry name (after (load a b style o folder)) ≡ entry name folder
  unfolding write_file
  load-other a b style folder n none =
      continue-loaded a b style (parse_seqnums initial_text) folder _
        (write_entry-other (seqnum_name a b) initial_text folder n (entry (seqnum_name a b) folder))
  load-other a b style folder n (some directory) = refl
  load-other a b style folder n (some (file content)) =
      ap (entry name) (loaded-folder a b style (parse_seqnums content) folder)

  pub open_session-other :
      (a b : Bytes) (style : MessageStyle) (folder : Folder)
      → bytes_eq (seqnum_name a b) name ≡ false
      → entry name (after (open_session a b style folder)) ≡ entry name folder
  unfolding open_session
  open_session-other a b style folder n =
      load-other a b style folder n (entry (seqnum_name a b) folder)

pub bytes_eq_back : (a b : Bytes) → bytes_eq a b ≡ false → bytes_eq b a ≡ false
bytes_eq_back a b n = elim (Bool-cases (bytes_eq b a)) [
  | inl y ↦ absurd (
      false≢true (
        sym n
        ∙ subst (λ (x : Bytes). bytes_eq x b ≡ true) (bytes_eq_sound b a y) (bytes_eq_refl b)))
  | inr m ↦ m
]

abbrev pub or_else : FileSession → Option FileSession → FileSession
or_else s none = s
or_else s (some t) = t

module _ (name key : Bytes) where
  -- The sessions under other keys have files of other names.
  abbrev pub AllApart : List (Bytes × FileSession) → Type 0
  AllApart sessions =
      (k : Bytes) (s : FileSession)
      → bytes_eq key k ≡ false
      → entry k sessions ≡ some s
      → IsApart name s

  pub put-AllApart :
      (k : Bytes) (s : FileSession) (sessions : List (Bytes × FileSession))
      → (bytes_eq key k ≡ false → IsApart name s)
      → AllApart sessions
      → AllApart (put k s sessions)
  put-AllApart k s sessions h old k' s' n e = elim (Bool-cases (bytes_eq k k')) [
    | inl y ↦
        let same = sym (bytes_eq_sound k k' y) in
        let found = subst (λ (x : Bytes). entry x (put k s sessions) ≡ some s') same e in
        subst (IsApart name) (ap (or_else s) (sym (entry-put k s sessions) ∙ found))
          (h (subst (λ (x : Bytes). bytes_eq key x ≡ false) same n))
    | inr m ↦ old k' s' n (sym (entry-put_other k k' s sessions m) ∙ e)
  ]
