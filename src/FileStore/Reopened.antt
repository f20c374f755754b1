-- ===== src/FileStore/Reopened.antt =====
-- The files keep what the session of jetblack_fixengine/persistence/file_store.py holds in memory.
use jetblack_fixengine.Prelude.{
  List, Option, [], ap, arith, false, none, refl, some, ℤ, ◌++◌, ◌∙◌, ◌∷◌, ◌≡◌,
}
use jetblack_fixengine.Bytes.{Bytes, bytes_eq, codes}
use jetblack_fixengine.Bytes.Text.{bytes_eq-append}
use jetblack_fixengine.Exceptions.{after, continue, ok}
use jetblack_fixengine.FileStore.{
  Disk, Entry, FileSession, Folder, MessageStyle, append_entry, append_file, directory, entry, file,
  format_seqnums, initial_text, load, loaded, message_name, open_session, parse_seqnums, put,
  save_message, save_seqnums, seqnum_name, set_incoming_seqnum, set_outgoing_seqnum, set_seqnums,
  write_entry, write_file, written,
}
use jetblack_fixengine.FileStore.Numbers.{entry-put, entry-put_other, parse-format_seqnums}
use mathlib.Core.Path.{subst}

-- What a client can ask of a session.
pub data Request : Type 0 where
  set_both : ℤ → ℤ → Request
  set_out : ℤ → Request
  set_in : ℤ → Request
  save : Bytes → Request

abbrev pub serve : Request → Disk → Disk
serve (set_both o i) d = after (set_seqnums o i d)
serve (set_out o) d = after (set_outgoing_seqnum o d)
serve (set_in i) d = after (set_incoming_seqnum i d)
serve (save buf) d = after (save_message buf d)

abbrev pub serve_all : List Request → Disk → Disk
serve_all [] d = d
serve_all (q ∷ qs) d = serve_all qs (serve q d)

abbrev line : Disk → Bytes
line d = format_seqnums d.session.outgoing_seqnum d.session.incoming_seqnum

write_file-put :
    (name more content : Bytes) (folder : Folder)
    → entry name folder ≡ some (file content)
    → after (write_file name more folder) ≡ put name (file more) folder
unfolding write_file
write_file-put name more content folder e = rw e refl

pub append_entry-other :
    (name key : Bytes) (t : Option Bytes) (folder : Folder)
    → bytes_eq name key ≡ false
    → (o : Option Entry) → entry key (after (append_entry name t o folder)) ≡ entry key folder
append_entry-other name key t folder n (some directory) = refl
append_entry-other name key none folder n (some (file old)) = refl
append_entry-other name key none folder n none = entry-put_other name key _ folder n
append_entry-other name key (some more) folder n (some (file old)) =
    entry-put_other name key _ folder n
append_entry-other name key (some more) folder n none = entry-put_other name key _ folder n

module _ (sender target : Bytes) (style : MessageStyle) where
  -- The file of the session's numbers holds them.
  pub record IsStored (d : Disk) : Type 0 where
    pub named : d.session.seqnum_path ≡ seqnum_name sender target
    pub messages : d.session.message_path ≡ message_name sender target
    pub styled : d.session.message_style ≡ style
    pub content : Bytes
    pub stored : entry (seqnum_name sender target) d.folder ≡ some (file content)
    pub parsed : parse_seqnums content ≡ some (d.session.outgoing_seqnum, d.session.incoming_seqnum)

  names_differ : bytes_eq (message_name sender target) (seqnum_name sender target) ≡ false
  unfolding seqnum_name message_name
  names_differ =
      bytes_eq-append (sender ++ b'-' ∷ target) (codes "-initiator-message.txt")
        (codes "-initiator-seqnum.txt")

  loaded-IsStored :
      (content : Bytes) (folder folder' : Folder) (s : FileSession) (o : Option (ℤ × ℤ))
      → entry (seqnum_name sender target) folder ≡ some (file content)
      → parse_seqnums content ≡ o
      → loaded sender target style o folder ≡ (folder', ok s)
      → IsStored (record { folder = folder'; session = s })
  loaded-IsStored content folder folder' s none e p h = absurd (ground (arith, h))
  loaded-IsStored content folder folder' s (some (o, i)) e p h = record {
    named = ground (arith, h);
    messages = ground (arith, h);
    styled = ground (arith, h);
    content = content;
    stored = ground (arith, h, e);
    parsed = ground (arith, h, p);
  }

  save_seqnums-IsStored :
      (d : Disk) (content : Bytes)
      → d.session.seqnum_path ≡ seqnum_name sender target
      → d.session.message_path ≡ message_name sender target
      → d.session.message_style ≡ style
      → entry (seqnum_name sender target) d.folder ≡ some (file content)
      → IsStored (after (save_seqnums d))
  unfolding save_seqnums write_file
  save_seqnums-IsStored d content n m t e = record {
    named = n;
    messages = m;
    styled = t;
    content = format_seqnums d.session.outgoing_seqnum d.session.incoming_seqnum;
    stored =
        ap
          (λ (p : Bytes).
            entry (seqnum_name sender target) (after (write_file p (line d) d.folder)))
          n
        ∙ ap (entry (seqnum_name sender target))
            (write_file-put (seqnum_name sender target) (line d) content d.folder e)
        ∙ entry-put (seqnum_name sender target) (file (line d)) d.folder;
    parsed = parse-format_seqnums d.session.outgoing_seqnum d.session.incoming_seqnum;
  }

  append-keeps :
      (d : Disk) (t : Option Bytes)
      → entry
          (seqnum_name sender target)
          (after (append_file (message_name sender target) t d.folder))
        ≡ entry (seqnum_name sender target) d.folder
  unfolding append_file
  append-keeps d t =
      append_entry-other (message_name sender target) (seqnum_name sender target) t d.folder
        names_differ (entry (message_name sender target) d.folder)

  pub serve-IsStored : (q : Request) (d : Disk) → IsStored d → IsStored (serve q d)
  unfolding set_seqnums set_outgoing_seqnum set_incoming_seqnum save_message
  serve-IsStored (set_both o i) d h =
      save_seqnums-IsStored _ h.content h.named h.messages h.styled h.stored
  serve-IsStored (set_out o) d h =
      save_seqnums-IsStored _ h.content h.named h.messages h.styled h.stored
  serve-IsStored (set_in i) d h =
      save_seqnums-IsStored _ h.content h.named h.messages h.styled h.stored
  serve-IsStored (save buf) d h = record {
    named = h.named;
    messages = h.messages;
    styled = h.styled;
    content = h.content;
    stored =
        ap
          (λ (p : Bytes).
            entry (seqnum_name sender target)
              (after (append_file p (written d.session.message_style buf) d.folder)))
          h.messages
        ∙ append-keeps d (written d.session.message_style buf)
        ∙ h.stored;
    parsed = h.parsed;
  }

  serve_all-IsStored : (qs : List Request) (d : Disk) → IsStored d → IsStored (serve_all qs d)
  serve_all-IsStored [] d h = h
  serve_all-IsStored (q ∷ qs) d h = serve_all-IsStored qs (serve q d) (serve-IsStored q d h)

  pub reopened :
      (d : Disk) → IsStored d → open_session sender target style d.folder ≡ (d.folder, ok d.session)
  unfolding open_session
  reopened d h = rw (h.stored, h.parsed) (ground (arith, h.named, h.messages, h.styled))

  load-IsStored :
      (folder folder' : Folder) (s : FileSession) (o : Option Entry)
      → entry (seqnum_name sender target) folder ≡ o
      → load sender target style o folder ≡ (folder', ok s)
      → IsStored (record { folder = folder'; session = s })
  unfolding write_file parse_seqnums
  load-IsStored folder folder' s none e h =
      let name = seqnum_name sender target in
      loaded-IsStored initial_text (put name (file initial_text) folder) folder' s
        (parse_seqnums initial_text) (entry-put name (file initial_text) folder) refl
        (subst
          (λ (o : Option Entry).
            continue (write_entry name initial_text o folder)
              (λ _. loaded sender target style (parse_seqnums initial_text))
            ≡ (folder', ok s))
          e h)
  load-IsStored folder folder' s (some directory) e h = absurd (ground (arith, h))
  load-IsStored folder folder' s (some (file content)) e h =
      loaded-IsStored content folder folder' s (parse_seqnums content) e refl h

  pub open_session-IsStored :
      (folder folder' : Folder) (s : FileSession)
      → open_session sender target style folder ≡ (folder', ok s)
      → IsStored (record { folder = folder'; session = s })
  unfolding open_session
  open_session-IsStored folder folder' s h =
      load-IsStored folder folder' s (entry (seqnum_name sender target) folder) refl h

  -- A session that could be opened in a folder, whatever the folder holds, and that is then given any
  -- requests, whether they succeed or raise: opening a session of the same names and style in the folder
  -- that this leaves succeeds, changes nothing in the folder, and gives the same session back, with its
  -- sequence numbers.
  pub reopened_file_session :
      (folder folder' : Folder) (s : FileSession) (qs : List Request)
      → open_session sender target style folder ≡ (folder', ok s)
      → let d = serve_all qs (record { folder = folder'; session = s }) in
        open_session sender target style d.folder ≡ (d.folder, ok d.session)
  reopened_file_session folder folder' s qs h =
      reopened _ (serve_all-IsStored qs _ (open_session-IsStored folder folder' s h))
