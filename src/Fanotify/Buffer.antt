-- ===== src/Fanotify/Buffer.antt =====
-- elyra-engine/src/elyra/monitor/fanotify/syscalls.py: `FanotifyInterface.parse_events`, which takes the
-- kernel's buffer apart. What `readlink` answers is a parameter; the time of receipt is left out.
use elyra.Base.{
  ℕ, zero, suc, ◌+◌, ◌-◌, ◌*◌, ◌==◌, String, Bool, true, false, ◌||◌, Option, none, some, List, [],
  ◌∷◌, ltb, leb, length, take, drop, is_some, if◌then◌else◌,
}
use elyra.Base.Int.{ℤ, pos, negsuc}
use elyra.Audit.Bytes.{Bytes}

-- A number of which the bytes are given, the lowest first.
unfoldable pub little_endian : Bytes → ℕ
little_endian [] = 0
little_endian (b ∷ bs) = b + 256 * little_endian bs

-- A 32-bit number with a sign, from its bits.
unfoldable pub signed_32 : ℕ → ℤ
signed_32 n = if ltb n 2147483648 then pos n else negsuc (4294967295 - n)

abbrev pub metadata_length : ℕ
metadata_length = 24

abbrev pub metadata_version : ℕ
metadata_version = 3

pub record Event : Type 0 where
  pub fd : ℤ
  pub pid : ℤ
  pub path : Option String
  pub mask : ℕ
  pub event_len : ℕ
  pub metadata_len : ℕ
  pub version : ℕ
  pub parse_error : Option String

-- The tuple of `_METADATA.unpack_from`, without the reserved byte.
pub record Metadata : Type 0 where
  pub event_len : ℕ
  pub version : ℕ
  pub metadata_len : ℕ
  pub mask : ℕ
  pub fd : ℤ
  pub pid : ℤ

-- The bytes from `at` on, as a number of `width` bytes.
abbrev pub number_at : ℕ → ℕ → Bytes → ℕ
number_at at width bytes = little_endian (take width (drop at bytes))

unfoldable pub unpack : Bytes → Metadata
unfolding little_endian signed_32
unpack bytes = record {
  event_len = number_at 0 4 bytes;
  version = number_at 4 1 bytes;
  metadata_len = number_at 6 2 bytes;
  mask = number_at 8 8 bytes;
  fd = signed_32 (number_at 16 4 bytes);
  pid = signed_32 (number_at 20 4 bytes);
}

abbrev pub is_descriptor : ℤ → Bool
is_descriptor (pos n) = true
is_descriptor (negsuc n) = false

-- The length by which the parser goes on, where `left` bytes are left.
unfoldable pub used_length : ℕ → Metadata → ℕ
used_length left m =
    if ltb m.event_len metadata_length || ltb m.metadata_len metadata_length
    then metadata_length
    else if ltb left m.event_len
    then left
    else m.event_len

unfoldable pub length_error : ℕ → Metadata → Option String
length_error left m =
    if ltb m.event_len metadata_length || ltb m.metadata_len metadata_length
    then some "INVALID_METADATA_LENGTH"
    else if ltb left m.event_len
    then some "TRUNCATED_EVENT"
    else none

abbrev pub version_error : Metadata → Option String → Option String
version_error m e = if m.version == metadata_version then e else some "UNSUPPORTED_METADATA_VERSION"

-- `parse_error or "EVENT_PATH_UNAVAILABLE"`
abbrev pub or_unavailable : Option String → Option String
or_unavailable none = some "EVENT_PATH_UNAVAILABLE"
or_unavailable (some e) = some e

module _ (readlink : ℤ → Option String) where
  unfoldable pub event_of : ℕ → Metadata → Event
  unfolding used_length length_error
  event_of left m =
      let path = if is_descriptor m.fd then readlink m.fd else none in
      let error = version_error m (length_error left m) in
      record {
        fd = m.fd;
        pid = m.pid;
        path = path;
        mask = m.mask;
        event_len = used_length left m;
        metadata_len = m.metadata_len;
        version = m.version;
        parse_error =
            if is_descriptor m.fd
            then if is_some path then error else or_unavailable error
            else error;
      }

  -- The loop, on the bytes from the offset on; one unit of fuel for each event.
  unfoldable pub parse_from : ℕ → Bytes → List Event
  unfolding event_of unpack
  parse_from zero bytes = []
  parse_from (suc fuel) bytes =
      let event = event_of (length bytes) (unpack bytes) in
      let rest = parse_from fuel (drop event.event_len bytes) in
      if leb metadata_length (length bytes) then event ∷ rest else []

  unfoldable pub parse_events : Bytes → List Event
  unfolding parse_from
  parse_events bytes = parse_from (length bytes) bytes
