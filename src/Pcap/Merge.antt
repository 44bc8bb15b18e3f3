-- ===== src/Pcap/Merge.antt =====
-- `PcapFile::open` and `mergePcaps` of backend/src/pcapio/pcap_reader.cpp, over the contents of the files.
-- That a file cannot be opened, read or written is not modelled; labels stand in error texts only.
use avb_introspection.Base.{
  ℕ, ◌+◌, ◌/◌, ◌%◌, ◌^◌, false, ◌||◌, Option, none, some, List, [], ◌∷◌, ◌++◌, ltb, ◌==◌,
  if◌then◌else◌, length, drop, take, get_elem?,
}
use avb_introspection.Pcap.{
  PcapPacket, too_small, bad_magic, no_sources, in_source, Result, ok, err, stuck, magic_us,
  magic_us_swap, magic_ns, magic_ns_swap, magic_ng, link_ethernet, word32,
}
use avb_introspection.Pcap.Classic.{parse_classic}
use avb_introspection.Pcap.Ng.{parse_ng}

-- `PcapFile::open`, with fuel for the blocks of a pcapng file.
unfoldable pub open_file : ℕ → List ℕ → Result (List PcapPacket)
open_file fuel file =
    let magic = word32 false file in
    if ltb (length file) 4
    then err too_small
    else if magic == magic_ng
    then parse_ng fuel file
    else if (magic == magic_us)
        || ((magic == magic_us_swap) || ((magic == magic_ns) || (magic == magic_ns_swap)))
    then parse_classic file
    else err bad_magic

-- An opened source: its bytes and its packets.
pub record Source : Type 0 where
  pub bytes : List ℕ
  pub packets : List PcapPacket

abbrev pub add_source :
    List ℕ → Result (List PcapPacket) → ℕ → Result (List Source) → Result (List Source)
add_source file (err e) i r = err (in_source i e)
add_source file stuck i r = stuck
add_source file (ok ps) i (ok ss) = ok (record { bytes = file; packets = ps } ∷ ss)
add_source file (ok ps) i (err e) = err e
add_source file (ok ps) i stuck = stuck

-- The loop that loads every source, from the index `i` on.
unfoldable pub load : ℕ → ℕ → List (List ℕ) → Result (List Source)
load fuel i [] = ok []
load fuel i (file ∷ files) = add_source file (open_file fuel file) i (load fuel (i + 1) files)

-- A packet by its time, its source and its place there.
pub record Ref : Type 0 where
  pub ts : ℕ
  pub file : ℕ
  pub pkt : ℕ

unfoldable pub refs_of : ℕ → ℕ → List PcapPacket → List Ref
refs_of file pkt [] = []
refs_of file pkt (p ∷ ps) =
    record { ts = p.ts_nanos; file = file; pkt = pkt } ∷ refs_of file (pkt + 1) ps

unfoldable pub all_refs : ℕ → List Source → List Ref
all_refs file [] = []
all_refs file (s ∷ ss) = refs_of file 0 s.packets ++ all_refs (file + 1) ss

-- `std::stable_sort` by the time: equal times keep their order.
unfoldable pub insert_ref : Ref → List Ref → List Ref
insert_ref r [] = r ∷ []
insert_ref r (q ∷ qs) = if ltb q.ts r.ts then q ∷ insert_ref r qs else r ∷ q ∷ qs

unfoldable pub stable_sort : List Ref → List Ref
stable_sort [] = []
stable_sort (r ∷ rs) = insert_ref r (stable_sort rs)

-- `w16` and `w32`.
unfoldable pub bytes16 : ℕ → List ℕ
bytes16 v = v % 256 ∷ v / 256 % 256 ∷ []

unfoldable pub bytes32 : ℕ → List ℕ
bytes32 v = v % 256 ∷ v / 256 % 256 ∷ v / 65536 % 256 ∷ v / 16777216 % 256 ∷ []

-- One packet as it is written: its header's fields and its bytes.
pub record Written : Type 0 where
  pub ts : ℕ
  pub caplen : ℕ
  pub origlen : ℕ
  pub bytes : List ℕ

unfoldable pub written_of : Source → PcapPacket → Written
written_of s p = record {
  ts = p.ts_nanos;
  caplen = p.caplen;
  origlen = if ltb p.origlen p.caplen then p.caplen else p.origlen;
  bytes = take p.caplen (drop p.offset s.bytes);
}

abbrev pub written_in : Source → Option PcapPacket → List Written
written_in s none = []
written_in s (some p) = written_of s p ∷ []

abbrev pub written_from : Option Source → ℕ → List Written
written_from none pkt = []
written_from (some s) pkt = written_in s (get_elem? s.packets pkt)

-- What the references name; each names a packet that is there.
unfoldable pub written : List Source → List Ref → List Written
written ss [] = []
written ss (r ∷ rs) = written_from (get_elem? ss r.file) r.pkt ++ written ss rs

unfoldable pub write_record : Written → List ℕ
write_record w =
    bytes32 (w.ts / 1000000000)
    ++ (bytes32 (w.ts % 1000000000) ++ (bytes32 w.caplen ++ (bytes32 w.origlen ++ w.bytes)))

unfoldable pub write_records : List Written → List ℕ
write_records [] = []
write_records (w ∷ ws) = write_record w ++ write_records ws

unfoldable pub write_capture : List Written → List ℕ
write_capture ws =
    bytes32 magic_ns
    ++ (bytes16 2
        ++ (bytes16 4
            ++ (bytes32 0
                ++ (bytes32 0 ++ (bytes32 262144 ++ (bytes32 link_ethernet ++ write_records ws))))))

-- The sidecar.
unfoldable pub source_map : List Ref → List ℕ
source_map [] = []
source_map (r ∷ rs) = bytes16 (r.file % 2 ^ 16) ++ source_map rs

-- The merged capture and its source map.
pub record Merged : Type 0 where
  pub capture : List ℕ
  pub sidecar : List ℕ
  pub refs : List Ref

abbrev pub merge_loaded : Result (List Source) → Result Merged
merge_loaded (err e) = err e
merge_loaded stuck = stuck
merge_loaded (ok ss) =
    let refs = stable_sort (all_refs 0 ss) in
    ok
      (record { capture = write_capture (written ss refs); sidecar = source_map refs; refs = refs })

unfoldable pub merge_pcaps : ℕ → List (List ℕ) → Result Merged
merge_pcaps fuel [] = err no_sources
merge_pcaps fuel (f ∷ fs) = merge_loaded (load fuel 0 (f ∷ fs))
