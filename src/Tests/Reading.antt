-- ===== src/Tests/Reading.antt =====
-- Streams of messages, for the reader.
use jetblack_fixengine.Prelude.{
  Bool, List, [], arith, false, if◌then◌else◌, length, ltb, negsuc, refl, true, ◌∷◌, ◌≡◌,
}
use jetblack_fixengine.Bytes.{Bytes, codes, find, int}
use jetblack_fixengine.ReadBuffer.{FixReadBuffer, idle, new_buffer, next_event, parse_body_length}
use jetblack_fixengine.ReadBuffer.Frame.{Frame, IsWellFormed, encode_all}
use jetblack_fixengine.ReadBuffer.Valid.{IsGood, IsValid, next_event-IsValid}
use jetblack_fixengine.ReadAsync.{finished, fix_read_async}
use jetblack_fixengine.ReadAsync.Stream.{Unread, fix_read_async-Unread}
use jetblack_fixengine.ReadAsync.RoundTrip.{fix_read_async-encode}

-- A checksum that is "007" for a message of seven bytes or more.
abbrev pub checksum_007 : Bytes → Bytes → Bool → Bytes
checksum_007 message sep convert = if ltb (length message) 7 then codes "000" else codes "007"

abbrev pub heartbeat : Frame
heartbeat = record {
  version = codes "FIX.4.4";
  length_field = codes "5";
  content = codes "35=0|";
  checksum = codes "007";
}

pub heartbeat-IsWellFormed : IsWellFormed checksum_007 124 true false heartbeat
unfolding parse_body_length find int
heartbeat-IsWellFormed = record {
  begin_clear = refl;
  length_clear = refl;
  declared = refl;
  three = refl;
  summed = λ h. refl;
}

-- Two messages, cut within a field and within the checksum of the second.
abbrev pub chunks : List Bytes
chunks = codes "8=FI" ∷ codes "X.4.4|9=5|35=0|10=007|8=FIX.4.4|9=5|35=0|10=0" ∷ codes "07|" ∷ []

fix_read_async-encode_example :
    fix_read_async checksum_007 7 (new_buffer (124 ∷ []) false true) chunks
    ≡ (encode_all 124 (heartbeat ∷ heartbeat ∷ []), finished)
fix_read_async-encode_example =
    fix_read_async-encode checksum_007 124 true false (heartbeat ∷ heartbeat ∷ []) chunks 7
      (heartbeat-IsWellFormed, (heartbeat-IsWellFormed, tt)) (ground arith) refl (omega arith)

-- A buffer that has the beginning of a message.
abbrev begun : FixReadBuffer
begun = record {
  sep = 124 ∷ [];
  convert_sep_to_soh_for_checksum = false;
  validate = true;
  queue = codes "8=FIX.4.4|9=" ∷ codes "5|35=0|10=007|" ∷ [];
  buf = [];
  index = 0;
  required_length = negsuc 0;
  state = idle;
}

fix_read_async-Unread_example :
    Unread checksum_007 7 begun chunks (fix_read_async checksum_007 7 begun chunks)
fix_read_async-Unread_example = fix_read_async-Unread checksum_007 7 begun chunks

begun-IsValid : IsValid begun
begun-IsValid = ground arith

next_event-IsValid_example : IsGood (next_event checksum_007 begun)
next_event-IsValid_example = next_event-IsValid checksum_007 begun begun-IsValid
