-- ===== src/Pcap.antt =====
-- Capture files: backend/src/pcapio/pcap_reader.cpp and backend/src/pcapio/pcap_reader.h.
-- A file is the list of its bytes. `Cursor` is a position in it, and its `u16`, `u32` and `skip` return
-- `none` where the source returns false; a `u32` that is copied from the file is little-endian, as on the
-- hosts that the program is built for. A `size_t` does not wrap here: no file is that long.
pub mod Classic
pub mod Ng
pub mod Merge
pub mod Bounds
pub mod Reads
pub mod RoundTrip
pub mod Order
pub mod Ends
mod Tests
use avb_introspection.Base.{
  ℕ, zero, suc, ◌+◌, ◌-◌, ◌*◌, Bool, ◌||◌, Option, none, some, List, [], ◌∷◌, ltb, leb, ◌==◌,
  if◌then◌else◌, length, drop,
}

-- `PcapPacket`.
pub record PcapPacket : Type 0 where
  pub ts_nanos : ℕ
  pub caplen : ℕ
  pub origlen : ℕ
  pub offset : ℕ

-- The texts of the errors, by what they say.
pub data Error : Type 0 where
  too_small bad_magic truncated_global_header : Error
  bad_link_type : ℕ → Error
  truncated_record : ℕ → Error
  no_packets bad_byte_order truncated_block truncated_idb truncated_epb truncated_spb : Error
  truncated_packet_data : Error
  no_ethernet : List ℕ → Error
  no_sources : Error
  in_source : ℕ → Error → Error

-- What a parser returns; `stuck` is no value of the source: the loop's fuel ran out.
pub data Result {ℓ} (A : Type ℓ) : Type ℓ where
  ok : A → Result A
  err : Error → Result A
  stuck : Result A

abbrev pub magic_us : ℕ
magic_us = 0xa1b2c3d4

abbrev pub magic_us_swap : ℕ
magic_us_swap = 0xd4c3b2a1

abbrev pub magic_ns : ℕ
magic_ns = 0xa1b23c4d

abbrev pub magic_ns_swap : ℕ
magic_ns_swap = 0x4d3cb2a1

abbrev pub magic_ng : ℕ
magic_ng = 0x0a0d0d0a

abbrev pub link_ethernet : ℕ
link_ethernet = 1

abbrev pub link_ethernet_mpacket : ℕ
link_ethernet_mpacket = 274

abbrev pub usable_link_type : ℕ → Bool
usable_link_type lt = (lt == link_ethernet) || (lt == link_ethernet_mpacket)

-- The number of two or four bytes, whose order is swapped or not.
unfoldable pub word16 : Bool → List ℕ → ℕ
word16 swap (a ∷ b ∷ _) = if swap then a * 256 + b else b * 256 + a
word16 swap _ = 0

unfoldable pub word32 : Bool → List ℕ → ℕ
word32 swap (a ∷ b ∷ c ∷ d ∷ _) =
    if swap then ((a * 256 + b) * 256 + c) * 256 + d else ((d * 256 + c) * 256 + b) * 256 + a
word32 swap _ = 0

-- `Cursor::need` at a position.
abbrev pub has : ℕ → List ℕ → ℕ → Bool
has n file pos = leb (pos + n) (length file)

module _ (swap : Bool) (file : List ℕ) where
  -- The value, and the position after it.
  unfoldable pub u16 : ℕ → Option (ℕ × ℕ)
  u16 pos = if has 2 file pos then some (word16 swap (drop pos file), pos + 2) else none

  unfoldable pub u32 : ℕ → Option (ℕ × ℕ)
  u32 pos = if has 4 file pos then some (word32 swap (drop pos file), pos + 4) else none

infixl 5 ◌>>=◌
abbrev pub ◌>>=◌ {ℓ κ} : {A : Type ℓ} {B : Type κ} → Option A → (A → Option B) → Option B
none >>= f = none
some a >>= f = f a

-- The loop of `stripMPacketPreamble` over the bytes from the packet's start on, `left` rounds at most:
-- the index of the SMD-E after the preamble.
unfoldable pub find_smd : ℕ → ℕ → List ℕ → Option ℕ
find_smd zero i bytes = none
find_smd (suc left) i [] = none
find_smd (suc left) i (b ∷ bytes) =
    let next = find_smd left (i + 1) bytes in
    if b == 0xd5 then some i else if b == 0x55 then next else none

abbrev pub min_len : ℕ → ℕ → ℕ
min_len a b = if ltb a b then a else b

abbrev pub strip_at : PcapPacket → Option ℕ → PcapPacket
strip_at p none = p
strip_at p (some i) = record p {
  offset = p.offset + (i + 1);
  caplen = p.caplen - (i + 1);
  origlen = if ltb i p.origlen then p.origlen - (i + 1) else p.origlen;
}

unfoldable pub strip_mpacket_preamble : PcapPacket → List ℕ → PcapPacket
strip_mpacket_preamble p file = strip_at p (find_smd (min_len p.caplen 16) 0 (drop p.offset file))
