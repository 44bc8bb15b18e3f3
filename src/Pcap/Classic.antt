-- ===== src/Pcap/Classic.antt =====
-- `parseClassic` of backend/src/pcapio/pcap_reader.cpp.
use avb_introspection.Base.{
  ℕ, zero, suc, ◌+◌, ◌*◌, ◌%◌, ◌^◌, Bool, true, false, ◌||◌, Option, none, some, List, [], ◌∷◌,
  ◌++◌, ◌==◌, if◌then◌else◌, length,
}
use avb_introspection.Pcap.{
  PcapPacket, ◌>>=◌, truncated_global_header, bad_link_type, truncated_record, no_packets, Result,
  ok, err, stuck, magic_us_swap, magic_ns, magic_ns_swap, link_ethernet_mpacket, usable_link_type,
  word32, has, u16, u32, strip_mpacket_preamble,
}

-- What the global header says.
pub record Header : Type 0 where
  pub swap : Bool
  pub nanos : Bool
  pub link : ℕ

pub record RecordHeader : Type 0 where
  pub ts_sec : ℕ
  pub ts_frac : ℕ
  pub caplen : ℕ
  pub origlen : ℕ

-- The global header's fields after the magic: the link type.
unfoldable pub read_network : Bool → List ℕ → Option ℕ
read_network swap file = do
  (_, p) ← u16 swap file 4
  (_, p) ← u16 swap file p
  (_, p) ← u32 swap file p
  (_, p) ← u32 swap file p
  (_, p) ← u32 swap file p
  (network, _) ← u32 swap file p
  some (network % 2 ^ 16)

unfoldable pub read_record : Bool → List ℕ → ℕ → Option (RecordHeader × ℕ)
read_record swap file pos = do
  (ts_sec, p) ← u32 swap file pos
  (ts_frac, p) ← u32 swap file p
  (caplen, p) ← u32 swap file p
  (origlen, p) ← u32 swap file p
  some (record { ts_sec = ts_sec; ts_frac = ts_frac; caplen = caplen; origlen = origlen }, p)

-- The packet of a record whose data starts at the position.
unfoldable pub packet_of : Header → List ℕ → RecordHeader → ℕ → PcapPacket
packet_of h file r pos =
    let p : PcapPacket = record {
      ts_nanos =
          (r.ts_sec * 1000000000 + (if h.nanos then r.ts_frac else r.ts_frac * 1000)) % 2 ^ 64;
      caplen = r.caplen;
      origlen = r.origlen;
      offset = pos;
    } in
    if h.link == link_ethernet_mpacket then strip_mpacket_preamble p file else p

-- The loop; the packets so far are `found`.
unfoldable pub read_records : Header → List ℕ → ℕ → ℕ → List PcapPacket → Result (List PcapPacket)
read_records h file zero pos found = stuck
read_records h file (suc fuel) pos found = elim (has 16 file pos) [
  | false ↦ ok found
  | true ↦ elim (read_record h.swap file pos) [
    | none ↦ ok found
    | some (r, p) ↦ elim (has r.caplen file p) [
      | false ↦ err (truncated_record (length found + 1))
      | true ↦ read_records h file fuel (p + r.caplen) (found ++ packet_of h file r p ∷ [])
    ]
  ]
]

abbrev pub not_empty : Result (List PcapPacket) → Result (List PcapPacket)
not_empty (ok []) = err no_packets
not_empty r = r

-- Each round takes at least 16 bytes, so as many rounds as the file has bytes are enough.
unfoldable pub parse_classic : List ℕ → Result (List PcapPacket)
parse_classic file =
    let magic = word32 false file in
    let swap = (magic == magic_us_swap) || (magic == magic_ns_swap) in
    let nanos = (magic == magic_ns) || (magic == magic_ns_swap) in
    elim (read_network swap file) [
      | none ↦ err truncated_global_header
      | some link ↦
          if usable_link_type link
          then not_empty (
              read_records (record { swap = swap; nanos = nanos; link = link }) file
                (suc (length file)) 24 [])
          else err (bad_link_type link)
    ]
