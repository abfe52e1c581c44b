-- ===== src/Fanotify/Packed.antt =====
-- The buffer that the kernel fills, by the layout of `struct fanotify_event_metadata`, and what the
-- parser finds in it.
use elyra.Base.{
  ℕ, zero, suc, ◌+◌, ◌-◌, ◌*◌, ◌/◌, ◌%◌, ◌≤◌, ◌<◌, ◌≡◌, refl, sym, ap, ◌∙◌, String, true, false,
  Option, none, some, List, [], ◌∷◌, ◌++◌, ltb, leb, ◌||◌, le→leb, length, length-append, drop,
  arith, All, is_some, if◌then◌else◌,
}
use elyra.Base.Int.{ℤ, pos, negsuc}
use elyra.Audit.Bytes.{Bytes}
use elyra.Fanotify.Buffer.{
  Event, metadata_length, little_endian, signed_32, is_descriptor, used_length, length_error,
  unpack, event_of, parse_from, parse_events,
}

-- The lowest bytes of a number.
unfoldable pub bytes_of : ℕ → ℕ → Bytes
bytes_of zero n = []
bytes_of (suc k) n = n % 256 ∷ bytes_of k (n / 256)

-- 256 ^ k
abbrev pub bound : ℕ → ℕ
bound zero = 1
bound (suc k) = 256 * bound k

little_endian-bytes_of : (k n : ℕ) → n < bound k → little_endian (bytes_of k n) ≡ n
unfolding little_endian bytes_of
little_endian-bytes_of zero n h = omega arith
little_endian-bytes_of (suc k) n h = omega (arith, little_endian-bytes_of k (n / 256) (omega arith))

-- The bits of a 32-bit number with a sign.
unfoldable pub bits_32 : ℤ → ℕ
bits_32 (pos n) = n
bits_32 (negsuc n) = 4294967295 - n

abbrev pub IsInt32 : ℤ → Type 0
IsInt32 (pos n) = n < 2147483648
IsInt32 (negsuc n) = n < 2147483648

signed_32-bits_32 : (z : ℤ) → IsInt32 z → (signed_32 (bits_32 z) ≡ z) × (bits_32 z < bound 4)
unfolding signed_32 bits_32
signed_32-bits_32 (pos n) h = (ground arith, omega arith)
signed_32-bits_32 (negsuc n) h = (ground arith, omega arith)

-- An event as the kernel writes it: further bytes may follow the metadata.
pub record Sent : Type 0 where
  pub reserved : ℕ
  pub metadata_len : ℕ
  pub mask : ℕ
  pub fd : ℤ
  pub pid : ℤ
  pub further : Bytes

pub record IsSent (s : Sent) : Type 0 where
  pub one_byte : s.reserved < 256
  pub long_enough : metadata_length ≤ s.metadata_len
  pub two_bytes : s.metadata_len < 65536
  pub eight_bytes : s.mask < bound 8
  pub descriptor : IsInt32 s.fd
  pub process : IsInt32 s.pid
  pub four_bytes : metadata_length + length s.further < bound 4

unfoldable pub pack : Sent → Bytes
unfolding bytes_of bits_32
pack s =
    bytes_of 4 (metadata_length + length s.further)
    ++ (bytes_of 1 3
        ++ (bytes_of 1 s.reserved
            ++ (bytes_of 2 s.metadata_len
                ++ (bytes_of 8 s.mask
                    ++ (bytes_of 4 (bits_32 s.fd) ++ (bytes_of 4 (bits_32 s.pid) ++ s.further))))))

unpack-pack :
    (s : Sent) (rest : Bytes)
    → IsSent s
    → unpack (pack s ++ rest) ≡ record {
      event_len = metadata_length + length s.further;
      version = 3;
      metadata_len = s.metadata_len;
      mask = s.mask;
      fd = s.fd;
      pid = s.pid;
    }
unfolding unpack pack bytes_of
unpack-pack s rest h =
    let (fd, fd_fits) = signed_32-bits_32 s.fd h.descriptor in
    let (pid, pid_fits) = signed_32-bits_32 s.pid h.process in
    let len = little_endian-bytes_of 4 (metadata_length + length s.further) h.four_bytes in
    let metadata = little_endian-bytes_of 2 s.metadata_len h.two_bytes in
    let mask = little_endian-bytes_of 8 s.mask h.eight_bytes in
    let fd_read = ap signed_32 (little_endian-bytes_of 4 (bits_32 s.fd) fd_fits) ∙ fd in
    let pid_read = ap signed_32 (little_endian-bytes_of 4 (bits_32 s.pid) pid_fits) ∙ pid in
    λ i. record {
      event_len = len i;
      version = 3;
      metadata_len = metadata i;
      mask = mask i;
      fd = fd_read i;
      pid = pid_read i;
    }

length-bytes_of : (k n : ℕ) → length (bytes_of k n) ≡ k
unfolding bytes_of
length-bytes_of zero n = refl
length-bytes_of (suc k) n = ap suc (length-bytes_of k (n / 256))

length-pack : (s : Sent) → length (pack s) ≡ metadata_length + length s.further
unfolding pack
length-pack s = omega arith

drop-pack : (xs ys : Bytes) → drop (length xs) (xs ++ ys) ≡ ys
drop-pack [] ys = refl
drop-pack (x ∷ xs) ys = drop-pack xs ys

unfoldable pub pack_all : List Sent → Bytes
pack_all [] = []
pack_all (s ∷ sents) = pack s ++ pack_all sents

module _ (readlink : ℤ → Option String) where
  abbrev pub path_of : ℤ → Option String
  path_of fd = if is_descriptor fd then readlink fd else none

  -- What is to be read of an event.
  abbrev pub received : Sent → Event
  received s = record {
    fd = s.fd;
    pid = s.pid;
    path = path_of s.fd;
    mask = s.mask;
    event_len = metadata_length + length s.further;
    metadata_len = s.metadata_len;
    version = 3;
    parse_error =
        if is_descriptor s.fd
        then if is_some (path_of s.fd) then none else some "EVENT_PATH_UNAVAILABLE"
        else none;
  }

  abbrev pub received_all : List Sent → List Event
  received_all [] = []
  received_all (s ∷ sents) = received s ∷ received_all sents

  event_of-pack :
      (s : Sent) (left : ℕ)
      → IsSent s
      → metadata_length + length s.further ≤ left
      → event_of readlink left (record {
        event_len = metadata_length + length s.further;
        version = 3;
        metadata_len = s.metadata_len;
        mask = s.mask;
        fd = s.fd;
        pid = s.pid;
      })
        ≡ received s
  unfolding event_of used_length length_error
  event_of-pack s left h room =
      let sound : (ltb (metadata_length + length s.further) metadata_length
            || ltb s.metadata_len metadata_length)
          ≡ false =
        ground arith in
      let whole : ltb left (metadata_length + length s.further) ≡ false = ground arith in
      rw sound (rw whole refl)

  parse_from-pack_all :
      (fuel : ℕ) (sents : List Sent)
      → length (pack_all sents) ≤ fuel
      → All IsSent sents
      → parse_from readlink fuel (pack_all sents) ≡ received_all sents
  unfolding pack_all parse_from
  parse_from-pack_all zero [] h sent = refl
  parse_from-pack_all (suc fuel) [] h sent = refl
  parse_from-pack_all zero (s ∷ sents) h sent =
      absurd (omega (arith, length-append (pack s) (pack_all sents), length-pack s))
  parse_from-pack_all (suc fuel) (s ∷ sents) h sent =
      let bytes = pack s ++ pack_all sents in
      let size = length-append (pack s) (pack_all sents) in
      let some_left : leb metadata_length (length bytes) ≡ true =
        le→leb metadata_length (length bytes) (omega (arith, size, length-pack s)) in
      let read : event_of readlink (length bytes) (unpack bytes) ≡ received s =
        ap (event_of readlink (length bytes)) (unpack-pack s (pack_all sents) sent.0)
        ∙ event_of-pack s (length bytes) sent.0 (omega (arith, size, length-pack s)) in
      let behind : drop (metadata_length + length s.further) bytes ≡ pack_all sents =
        ap (λ (n : ℕ). drop n bytes) (sym (length-pack s)) ∙ drop-pack (pack s) (pack_all sents) in
      rw some_left (
        ap (λ (e : Event). e ∷ parse_from readlink fuel (drop e.event_len bytes)) read
        ∙ ap (λ (rest : Bytes). received s ∷ parse_from readlink fuel rest) behind
        ∙ ap (◌∷◌ (received s))
            (parse_from-pack_all fuel sents (omega (arith, size, length-pack s)) sent.1))

  -- A buffer of events in the kernel's layout, with any further bytes behind the metadata of each, is
  -- read back event by event: descriptor, process, mask and lengths are those that were sent, and an
  -- error is noted only where the path of a descriptor cannot be read.
  pub parse_events-pack_all :
      (sents : List Sent)
      → All IsSent sents
      → parse_events readlink (pack_all sents) ≡ received_all sents
  unfolding parse_events
  parse_events-pack_all sents sent =
      parse_from-pack_all (length (pack_all sents)) sents (omega arith) sent
