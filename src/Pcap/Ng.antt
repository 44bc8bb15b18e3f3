-- ===== src/Pcap/Ng.antt =====
-- `parseNg` of backend/src/pcapio/pcap_reader.cpp.
use avb_introspection.Base.{
  ℕ, zero, suc, ◌+◌, ◌-◌, ◌*◌, ◌/◌, ◌%◌, ◌^◌, Bool, true, false, ◌&&◌, ◌||◌, not, Option, none,
  some, List, [], ◌∷◌, ◌++◌, ltb, leb, ◌==◌, if◌then◌else◌, length, drop, get_or,
}
use avb_introspection.Pcap.{
  PcapPacket, ◌>>=◌, Error, bad_byte_order, truncated_block, truncated_idb, truncated_epb,
  truncated_spb, truncated_packet_data, no_ethernet, Result, ok, err, stuck, magic_ng,
  link_ethernet_mpacket, usable_link_type, word32, has, u16, u32, strip_mpacket_preamble,
}
use avb_introspection.Pcap.Classic.{not_empty}

-- An interface: `ifaceLink` and `ifaceNsPerTick`.
pub record Interface : Type 0 where
  pub link : ℕ
  pub ns_per_tick : ℕ

-- The variables of `parseNg`.
pub record Ng : Type 0 where
  pub swap : Bool
  pub interfaces : List Interface
  pub saw_ethernet : Bool
  pub packets : List PcapPacket

abbrev pub start : Ng
start = record { swap = false; interfaces = []; saw_ethernet = false; packets = [] }

-- `ticksPerSec` of an `if_tsresol` byte, and the nanoseconds of a tick.
unfoldable pub ticks_per_sec : ℕ → ℕ
ticks_per_sec r =
    if leb 0x80 r
    then if ltb (r - 0x80) 63 then 2 ^ (r - 0x80) else 2 ^ 62
    else 10 ^ (if ltb r 18 then r else 18)

unfoldable pub ns_per_tick_of : ℕ → ℕ
ns_per_tick_of r = let ns = 1000000000 / ticks_per_sec r in if ns == 0 then 1 else ns

-- One option of an interface description: its code, its length and the position of its value.
unfoldable pub read_option : Bool → List ℕ → ℕ → Option (ℕ × ℕ × ℕ)
read_option swap file pos = do
  (code, p) ← u16 swap file pos
  (len, p) ← u16 swap file p
  some (code, len, p)

-- The length of a value, padded to four bytes.
abbrev pub padded : ℕ → ℕ
padded len = (len + 3) / 4 * 4

-- The loop over the options; each takes at least four bytes of the block. `skip` stays where it is at
-- the end of the file.
unfoldable pub read_options : Bool → List ℕ → ℕ → ℕ → ℕ → ℕ → Option ℕ
read_options swap file opt_end zero pos ns = none
read_options swap file opt_end (suc fuel) pos ns = elim (leb (pos + 4) opt_end) [
  | false ↦ some ns
  | true ↦ elim (read_option swap file pos) [
    | none ↦ some ns
    | some (code, len, p) ↦ elim (code == 0) [
      | true ↦ some ns
      | false ↦
          read_options swap file opt_end fuel
            (if has (padded len) file p then p + padded len else p)
            (if (code == 9) && not (len == 0) then ns_per_tick_of (get_or file p 0) else ns)
    ]
  ]
]

-- The fixed part of an interface description: the link type, and the position after it.
unfoldable pub read_idb : Bool → List ℕ → ℕ → Option (ℕ × ℕ)
read_idb swap file pos = do
  (link, p) ← u16 swap file pos
  (_, p) ← u16 swap file p
  (_, p) ← u32 swap file p
  some (link, p)

pub record EpbHeader : Type 0 where
  pub iface : ℕ
  pub ts_hi : ℕ
  pub ts_lo : ℕ
  pub caplen : ℕ
  pub origlen : ℕ

unfoldable pub read_epb : Bool → List ℕ → ℕ → Option (EpbHeader × ℕ)
read_epb swap file pos = do
  (iface, p) ← u32 swap file pos
  (ts_hi, p) ← u32 swap file p
  (ts_lo, p) ← u32 swap file p
  (caplen, p) ← u32 swap file p
  (origlen, p) ← u32 swap file p
  some (
    record { iface = iface; ts_hi = ts_hi; ts_lo = ts_lo; caplen = caplen; origlen = origlen },
    p,
  )

abbrev pub get_interface : List Interface → ℕ → Option Interface
get_interface [] i = none
get_interface (x ∷ xs) zero = some x
get_interface (x ∷ xs) (suc i) = get_interface xs i

abbrev pub strip_for : ℕ → List ℕ → PcapPacket → PcapPacket
strip_for link file p = if link == link_ethernet_mpacket then strip_mpacket_preamble p file else p

abbrev pub last_ts : List PcapPacket → ℕ
last_ts [] = 0
last_ts (p ∷ []) = p.ts_nanos
last_ts (p ∷ q ∷ ps) = last_ts (q ∷ ps)

-- What a round of the loop ends with: the next block's position, the `break`, or an error.
pub data Round : Type 0 where
  next : ℕ → Ng → Round
  break : Round
  fails : Error → Round
  spent : Round

abbrev pub after_block : ℕ → Result Ng → Round
after_block pos (ok s) = next pos s
after_block pos (err e) = fails e
after_block pos stuck = spent

-- The bodies of the blocks, from the position after the length on.
module _ (file : List ℕ) where
  -- Interface description block.
  unfoldable pub on_idb : ℕ → Ng → ℕ → Result Ng
  on_idb opt_end s pos = elim (read_idb s.swap file pos) [
    | none ↦ err truncated_idb
    | some (link, p) ↦ elim (read_options s.swap file opt_end (suc (length file)) p 1000) [
      | none ↦ stuck
      | some ns ↦ ok (record s {
        interfaces = s.interfaces ++ record { link = link; ns_per_tick = ns } ∷ [];
        saw_ethernet = s.saw_ethernet || usable_link_type link;
      })
    ]
  ]

  -- Enhanced packet block.
  unfoldable pub add_epb : Ng → EpbHeader → ℕ → Interface → Result Ng
  add_epb s h p iface =
      let packet : PcapPacket = record {
        ts_nanos = (h.ts_hi * 2 ^ 32 + h.ts_lo) * iface.ns_per_tick % 2 ^ 64;
        caplen = h.caplen;
        origlen = h.origlen;
        offset = p;
      } in
      if usable_link_type iface.link
      then if has h.caplen file p
        then ok (record s { packets = s.packets ++ strip_for iface.link file packet ∷ [] })
        else err truncated_packet_data
      else ok s

  unfoldable pub on_epb : Ng → ℕ → Result Ng
  on_epb s pos = elim (read_epb s.swap file pos) [
    | none ↦ err truncated_epb
    | some (h, p) ↦ elim (get_interface s.interfaces h.iface) [
      | none ↦ ok s
      | some iface ↦ add_epb s h p iface
    ]
  ]

  -- Simple packet block; the captured length is a 32-bit number and wraps.
  unfoldable pub on_spb : ℕ → Ng → ℕ → Result Ng
  on_spb block_len s pos = elim (u32 s.swap file pos) [
    | none ↦ err truncated_spb
    | some (origlen, p) ↦ elim (get_interface s.interfaces 0) [
      | none ↦ ok s
      | some iface ↦
          let packet : PcapPacket = record {
            ts_nanos = last_ts s.packets;
            caplen = (block_len + 2 ^ 32 - 16) % 2 ^ 32;
            origlen = origlen;
            offset = p;
          } in
          if usable_link_type iface.link
          then ok (record s { packets = s.packets ++ strip_for iface.link file packet ∷ [] })
          else ok s
    ]
  ]

  unfoldable pub on_block : ℕ → ℕ → ℕ → Ng → ℕ → Result Ng
  on_block block_type block_start block_len s pos =
      if block_type == 1
      then on_idb (block_start + block_len - 4) s pos
      else if block_type == 6
      then on_epb s pos
      else if block_type == 3
      then on_spb block_len s pos
      else ok s

  -- Section header block: the byte order of its magic holds from here on, and its interfaces are its
  -- own. The length is used as it stands.
  unfoldable pub on_shb : Ng → ℕ → Round
  on_shb s block_start =
      let bom = word32 false (drop (block_start + 8) file) in
      let swap = bom == 0x4d3c2b1a in
      if not swap && not (bom == 0x1a2b3c4d)
      then fails bad_byte_order
      else elim (u32 swap file (block_start + 4)) [
        | none ↦ break
        | some (block_len, _) ↦
            next (block_start + block_len) (record s { swap = swap; interfaces = [] })
      ]

  -- Every other block.
  unfoldable pub on_other : Ng → ℕ → ℕ → ℕ → Round
  on_other s block_type block_start pos = elim (u32 s.swap file pos) [
    | none ↦ fails truncated_block
    | some (block_len, p) ↦
        if ltb block_len 12 || ltb (length file) (block_start + block_len)
        then fails truncated_block
        else after_block (block_start + block_len) (on_block block_type block_start block_len s p)
  ]

  unfoldable pub round : Ng → ℕ → Round
  round s block_start = elim (u32 s.swap file block_start) [
    | none ↦ break
    | some (block_type, p) ↦
        if block_type == magic_ng then on_shb s block_start else on_other s block_type block_start p
  ]

  unfoldable pub blocks : ℕ → ℕ → Ng → Result Ng
  blocks zero pos s = stuck
  blocks (suc fuel) pos s = elim (has 12 file pos) [
    | false ↦ ok s
    | true ↦ elim (round s pos) [
      | next pos' s' ↦ blocks fuel pos' s'
      | break ↦ ok s
      | fails e ↦ err e
      | spent ↦ stuck
    ]
  ]

abbrev pub links : List Interface → List ℕ
links [] = []
links (i ∷ is) = i.link ∷ links is

abbrev pub finish : Result Ng → Result (List PcapPacket)
finish (ok s) =
    if s.saw_ethernet then not_empty (ok s.packets) else err (no_ethernet (links s.interfaces))
finish (err e) = err e
finish stuck = stuck

-- With fuel for the loop over the blocks.
unfoldable pub parse_ng : ℕ → List ℕ → Result (List PcapPacket)
parse_ng fuel file = finish (blocks file fuel 0 start)
