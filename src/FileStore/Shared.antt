-- ===== src/FileStore/Shared.antt =====
-- Sessions of jetblack_fixengine/persistence/file_store.py that have the same files.
use jetblack_fixengine.FileStore.Reopened.{
  IsStored, open_session-IsStored, reopened, serve-IsStored, set_both,
}
use jetblack_fixengine.Prelude.{ap, append_assoc, refl, sym, ℤ, ◌++◌, ◌∙◌, ◌∷◌, ◌≡◌}
use jetblack_fixengine.Bytes.{Bytes, codes}
use jetblack_fixengine.Exceptions.{after, ok}
use jetblack_fixengine.FileStore.{
  Disk, FileSession, Folder, MessageStyle, entry, message_name, open_session, save_seqnums,
  seqnum_name, set_seqnums,
}

-- The files of two pairs of names that come to the same when a dash joins them.
names_alike :
    (a b c : Bytes)
    → (seqnum_name (a ++ b'-' ∷ b) c ≡ seqnum_name a (b ++ b'-' ∷ c))
      × (message_name (a ++ b'-' ∷ b) c ≡ message_name a (b ++ b'-' ∷ c))
unfolding seqnum_name message_name
names_alike a b c =
    let joined = append_assoc a (b'-' ∷ b) (b'-' ∷ c) in
    (
      ap (λ (p : Bytes). p ++ codes "-initiator-seqnum.txt") joined,
      ap (λ (p : Bytes). p ++ codes "-initiator-message.txt") joined,
    )

IsStored-alike :
    (x y x' y' : Bytes) (style : MessageStyle) (d : Disk)
    → seqnum_name x y ≡ seqnum_name x' y'
    → message_name x y ≡ message_name x' y'
    → IsStored x y style d
    → IsStored x' y' style d
IsStored-alike x y x' y' style d e m h = record {
  named = h.named ∙ e;
  messages = h.messages ∙ m;
  styled = h.styled;
  content = h.content;
  stored = ap (λ (p : Bytes). entry p d.folder) (sym e) ∙ h.stored;
  parsed = h.parsed;
}

-- The names `a-b` and `c` of one session, and `a` and `b-c` of another. Where the first could be
-- opened, and has set its numbers: opening the second gives it the files of the first, and with them
-- the numbers that the first has set.
pub shared_file :
    (a b c : Bytes) (style : MessageStyle) (folder folder' : Folder) (s : FileSession) (o i : ℤ)
    → open_session (a ++ b'-' ∷ b) c style folder ≡ (folder', ok s)
    → let d = after (set_seqnums o i (record { folder = folder'; session = s })) in
      (open_session a (b ++ b'-' ∷ c) style d.folder ≡ (d.folder, ok d.session))
      × (d.session.outgoing_seqnum ≡ o)
      × (d.session.incoming_seqnum ≡ i)
unfolding set_seqnums save_seqnums
shared_file a b c style folder folder' s o i h =
    let (e, m) = names_alike a b c in
    (
      reopened a (b ++ b'-' ∷ c) style _ (
          IsStored-alike (a ++ b'-' ∷ b) c a (b ++ b'-' ∷ c) style _ e m (
            serve-IsStored (a ++ b'-' ∷ b) c style (set_both o i) _
              (open_session-IsStored (a ++ b'-' ∷ b) c style folder folder' s h))),
      refl,
      refl,
    )
