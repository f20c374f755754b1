-- ===== src/FileStore.antt =====
-- jetblack_fixengine/persistence/file_store.py: a session in two files of a folder. A name and a text are
-- their characters in UTF-8. What follows the first line of a file of numbers is taken to be UTF-8, and the
-- digits that `int` reads are those of ASCII.
pub mod Numbers
pub mod Reopened
pub mod Store
pub mod Apart
pub mod Shared
pub mod Kept
pub mod Restarted
use jetblack_fixengine.Prelude.{
  List, Option, [], if◌then◌else◌, none, some, ℕ, ℤ, ◌++◌, ◌==◌, ◌||◌, ◌∷◌,
}
use jetblack_fixengine.Bytes.{Bytes, bytes_eq, codes, int}
use jetblack_fixengine.Bytes.Decimal.{str}
use jetblack_fixengine.Bytes.Text.{is_utf8, quote, show_separators, split, to_hex}
use jetblack_fixengine.Exceptions.{
  M, err, modify, ok, os_error, pure, raise, runtime_error, value_error, ◌>>◌,
}

pub data Entry : Type 0 where
  file : Bytes → Entry
  directory : Entry

-- What is kept by name: in a folder its entries, in a dictionary its values.
unfoldable pub entry : {A : Type 0} → Bytes → List (Bytes × A) → Option A
entry name [] = none
entry name ((n, e) ∷ rest) = let more = entry name rest in if bytes_eq n name then some e else more

unfoldable pub put : {A : Type 0} → Bytes → A → List (Bytes × A) → List (Bytes × A)
put name e [] = (name, e) ∷ []
put name e ((n, f) ∷ rest) =
    let more = put name e rest in if bytes_eq n name then (n, e) ∷ rest else (n, f) ∷ more

abbrev pub Folder : Type 0
Folder = List (Bytes × Entry)

-- `open(..., 'wt')` and `write`
abbrev pub write_entry : Bytes → Bytes → Option Entry → M Folder (Unit {0})
write_entry name text (some directory) folder = (folder, err os_error)
write_entry name text o folder = (put name (file text) folder, ok tt)

unfoldable pub write_file : Bytes → Bytes → M Folder (Unit {0})
write_file name text folder = write_entry name text (entry name folder) folder

-- `open(..., 'at')` and `write`: `none` is an exception before anything is written, to a file that is
-- then there.
abbrev pub append_entry : Bytes → Option Bytes → Option Entry → M Folder (Unit {0})
append_entry name text (some directory) folder = (folder, err os_error)
append_entry name none (some (file old)) folder = (folder, err value_error)
append_entry name none none folder = (put name (file []) folder, err value_error)
append_entry name (some text) (some (file old)) folder =
    (put name (file (old ++ text)) folder, ok tt)
append_entry name (some text) none folder = (put name (file text) folder, ok tt)

unfoldable pub append_file : Bytes → Option Bytes → M Folder (Unit {0})
append_file name text folder = append_entry name text (entry name folder) folder

-- `MessageStyle`; `other` is any other text.
pub data MessageStyle : Type 0 where
  text urlencode hex other : MessageStyle

pub record FileSession : Type 0 where
  pub seqnum_path : Bytes
  pub message_path : Bytes
  pub message_style : MessageStyle
  pub outgoing_seqnum : ℤ
  pub incoming_seqnum : ℤ

abbrev pub newline : ℕ
newline = 10

-- The files' names in the folder.
unfoldable pub seqnum_name : Bytes → Bytes → Bytes
seqnum_name sender target = sender ++ b'-' ∷ target ++ codes "-initiator-seqnum.txt"

unfoldable pub message_name : Bytes → Bytes → Bytes
message_name sender target = sender ++ b'-' ∷ target ++ codes "-initiator-message.txt"

-- `readline` without the end of the line.
unfoldable pub first_line : Bytes → Bytes
first_line [] = []
first_line (c ∷ s) = let rest = first_line s in if c == newline || c == 13 then [] else c ∷ rest

-- `readline() or '0:0'`
abbrev pub line_of : Bytes → Bytes
line_of [] = codes "0:0"
line_of (c ∷ s) = first_line (c ∷ s)

abbrev pub both : Option ℤ → Option ℤ → Option (ℤ × ℤ)
both (some a) (some b) = some (a, b)
both _ _ = none

-- Two parts are unpacked; `none` is a ValueError.
abbrev pub two_numbers : List Bytes → Option (ℤ × ℤ)
two_numbers (a ∷ b ∷ []) = both (int a) (int b)
two_numbers _ = none

unfoldable pub parse_seqnums : Bytes → Option (ℤ × ℤ)
parse_seqnums s = two_numbers (split b':' (line_of s))

-- What `_save` writes.
unfoldable pub format_seqnums : ℤ → ℤ → Bytes
format_seqnums outgoing incoming = str outgoing ++ b':' ∷ str incoming ++ newline ∷ []

abbrev pub initial_text : Bytes
initial_text = codes "0:0" ++ newline ∷ []

module _ (sender target : Bytes) (style : MessageStyle) where
  abbrev pub loaded : Option (ℤ × ℤ) → M Folder FileSession
  loaded none = raise value_error
  loaded (some (outgoing, incoming)) = pure (record {
    seqnum_path = seqnum_name sender target;
    message_path = message_name sender target;
    message_style = style;
    outgoing_seqnum = outgoing;
    incoming_seqnum = incoming;
  })

  abbrev pub load : Option Entry → M Folder FileSession
  load none =
      write_file (seqnum_name sender target) (initial_text) >> loaded (parse_seqnums (initial_text))
  load (some directory) = raise runtime_error
  load (some (file content)) = loaded (parse_seqnums content)

  -- `FileSession.__init__`
  unfoldable pub open_session : M Folder FileSession
  open_session folder = load (entry (seqnum_name sender target) folder) folder

-- A session with the folder of its files.
pub record Disk : Type 0 where
  pub folder : Folder
  pub session : FileSession

abbrev pub on_folder : M Folder (Unit {0}) → M Disk (Unit {0})
on_folder m d = let (folder, r) = m d.folder in (record d { folder = folder }, r)

-- `_save`
unfoldable pub save_seqnums : M Disk (Unit {0})
save_seqnums d =
    on_folder
      (write_file d.session.seqnum_path
        (format_seqnums d.session.outgoing_seqnum d.session.incoming_seqnum))
      d

abbrev pub change : (FileSession → FileSession) → M Disk (Unit {0})
change f = modify (λ d. record d { session = f d.session }) >> save_seqnums

-- `set_seqnums`, `set_outgoing_seqnum` and `set_incoming_seqnum`
unfoldable pub set_seqnums : ℤ → ℤ → M Disk (Unit {0})
set_seqnums outgoing incoming =
    change (λ s. record s { outgoing_seqnum = outgoing; incoming_seqnum = incoming })

unfoldable pub set_outgoing_seqnum : ℤ → M Disk (Unit {0})
set_outgoing_seqnum seqnum = change (λ s. record s { outgoing_seqnum = seqnum })

unfoldable pub set_incoming_seqnum : ℤ → M Disk (Unit {0})
set_incoming_seqnum seqnum = change (λ s. record s { incoming_seqnum = seqnum })

-- What `save_message` writes, by the style.
abbrev pub written : MessageStyle → Bytes → Option Bytes
written text buf = if is_utf8 buf then some (show_separators buf ++ newline ∷ []) else none
written urlencode buf = some (quote buf ++ newline ∷ [])
written MessageStyle.hex buf = some (to_hex buf)
written other buf = none

unfoldable pub save_message : Bytes → M Disk (Unit {0})
save_message buf d =
    on_folder (append_file d.session.message_path (written d.session.message_style buf)) d
