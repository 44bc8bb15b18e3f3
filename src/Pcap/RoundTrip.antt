-- ===== src/Pcap/RoundTrip.antt =====
-- What `mergePcaps` of backend/src/pcapio/pcap_reader.cpp writes, `parseClassic` reads back.
use avb_introspection.Base.{
  ℕ, zero, suc, ◌+◌, ◌*◌, ◌/◌, ◌%◌, ◌^◌, ◌≤◌, ◌<◌, ◌≡◌, refl, sym, ap, subst, ◌∙◌, true, false,
  some, List, [], ◌∷◌, ◌++◌, arith, ltb, if◌then◌else◌, length, length-append, drop, take,
  take-append, map, All,
}
use mathlib.Core.List.{append-nil, append_assoc}
use avb_introspection.Pcap.{PcapPacket, ok, has, u16, u32, word16, word32, magic_ns, link_ethernet}
use avb_introspection.Pcap.Classic.{
  Header, RecordHeader, read_network, read_record, packet_of, read_records, not_empty,
  parse_classic,
}
use avb_introspection.Pcap.Merge.{
  Written, written_of, bytes16, bytes32, write_record, write_records, write_capture,
}
use avb_introspection.Pcap.Reads.{At, At-length, At-append, u32-bytes32, At-bytes32}

abbrev pub Fits : Written → Type 0
Fits w =
    (w.ts < 2 ^ 32 * 1000000000)
    × (w.caplen < 2 ^ 32)
    × (w.origlen < 2 ^ 32)
    × (w.caplen ≤ w.origlen)
    × (length w.bytes ≡ w.caplen)

abbrev header_of : Written → RecordHeader
header_of w = record {
  ts_sec = w.ts / 1000000000;
  ts_frac = w.ts % 1000000000;
  caplen = w.caplen;
  origlen = w.origlen;
}

-- Written records are read one by one.
read-write_record :
    (file : List ℕ) (pos : ℕ) (w : Written) (rest : List ℕ)
    → Fits w
    → At file pos (write_record w ++ rest)
    → (read_record false file pos ≡ some (header_of w, pos + 16))
      × At file (pos + 16) (w.bytes ++ rest)
unfolding read_record write_record bytes32
read-write_record file pos w rest (in_time, in_caplen, in_origlen, _, _) a =
    let r3 = bytes32 w.origlen ++ (w.bytes ++ rest) in
    let r2 = bytes32 w.caplen ++ r3 in
    let r1 = bytes32 (w.ts % 1000000000) ++ r2 in
    let a1 = At-bytes32 file pos (w.ts / 1000000000) r1 a in
    let a2 = At-bytes32 file (pos + 4) (w.ts % 1000000000) r2 a1 in
    let a3 = At-bytes32 file (pos + 4 + 4) w.caplen r3 a2 in
    let a4 = At-bytes32 file (pos + 4 + 4 + 4) w.origlen (w.bytes ++ rest) a3 in
    let there : pos + 4 + 4 + 4 + 4 ≡ pos + 16 = omega arith in
    (
      ground (
        arith,
        in_time,
        in_caplen,
        in_origlen,
        u32-bytes32 file pos (w.ts / 1000000000) r1 a,
        u32-bytes32 file (pos + 4) (w.ts % 1000000000) r2 a1,
        u32-bytes32 file (pos + 4 + 4) w.caplen r3 a2,
        u32-bytes32 file (pos + 4 + 4 + 4) w.origlen (w.bytes ++ rest) a3,
      ),
      subst (λ p. At file p (w.bytes ++ rest)) there a4,
    )

-- The packets of written records that start at a position.
unfoldable pub packets_at : ℕ → List Written → List PcapPacket
packets_at pos [] = []
packets_at pos (w ∷ ws) =
    record { ts_nanos = w.ts; caplen = w.caplen; origlen = w.origlen; offset = pos + 16 }
    ∷ packets_at (pos + 16 + w.caplen) ws

abbrev merged_header : Header
merged_header = record { swap = false; nanos = true; link = link_ethernet }

packet_of-header_of :
    (file : List ℕ) (w : Written) (pos : ℕ)
    → Fits w
    → packet_of merged_header file (header_of w) pos
      ≡ record { ts_nanos = w.ts; caplen = w.caplen; origlen = w.origlen; offset = pos }
unfolding packet_of
packet_of-header_of file w pos f =
    let time : (w.ts / 1000000000 * 1000000000 + w.ts % 1000000000) % 2 ^ 64 ≡ w.ts =
      omega (arith, f.0) in
    rw time refl

At-inside :
    (file : List ℕ) (pos : ℕ) (xs ys : List ℕ)
    → pos ≤ length file
    → At file pos (xs ++ ys)
    → pos + length xs ≤ length file
At-inside file pos xs ys h a = omega (arith, At-length file pos (xs ++ ys) a, length-append xs ys)

At-record :
    (file : List ℕ) (pos : ℕ) (w : Written) (rest : List ℕ)
    → Fits w
    → At file pos (write_record w ++ rest)
    → (has 16 file pos ≡ true)
      × (has w.caplen file (pos + 16) ≡ true)
      × At file (pos + 16 + w.caplen) rest
unfolding write_record bytes32
At-record file pos w rest f a =
    let size = At-length file pos (write_record w ++ rest) a in
    let joined = length-append w.bytes rest in
    let data_at = (read-write_record file pos w rest f a).1 in
    let past = At-append file (pos + 16) w.bytes rest data_at in
    (
      ground (arith, size, joined),
      ground (arith, size, joined, f.4),
      subst (λ n. At file (pos + 16 + n) rest) f.4 past,
    )

read-write_records :
    (file : List ℕ) (ws : List Written) (fuel pos : ℕ) (found : List PcapPacket)
    → All Fits ws
    → length ws < fuel
    → At file pos (write_records ws)
    → read_records merged_header file fuel pos found ≡ ok (found ++ packets_at pos ws)
unfolding read_records write_records packets_at
read-write_records file ws zero pos found f enough a = absurd (omega (arith, enough))
read-write_records file [] (suc fuel) pos found f enough a =
    let none_left : has 16 file pos ≡ false = ground (arith, At-length file pos [] a) in
    rw (none_left, read_records, append-nil found) refl
read-write_records file (w ∷ ws) (suc fuel) pos found f enough a =
    let here = At-record file pos w (write_records ws) f.0 a in
    rw
      (
        here.0,
        read_records,
        (read-write_record file pos w (write_records ws) f.0 a).0,
        here.1,
        packet_of-header_of file w (pos + 16) f.0,
      )
      (read-write_records file ws fuel (pos + 16 + w.caplen) (found ++ packets_at pos (w ∷ [])) f.1
          (omega (arith, enough)) here.2
        ∙ ap ok (append_assoc found _ _))

length-write_records : (ws : List Written) → length ws ≤ length (write_records ws)
unfolding write_records write_record bytes32
length-write_records [] = omega arith
length-write_records (w ∷ ws) =
    ground (arith, length-write_records ws, length-append w.bytes (write_records ws))

-- The header of a written capture, and where its records start.
read-write_capture :
    (ws : List Written)
    → (word32 false (write_capture ws) ≡ magic_ns)
      × (read_network false (write_capture ws) ≡ some link_ethernet)
      × At (write_capture ws) 24 (write_records ws)
unfolding write_capture word32 read_network u16 u32 word16 bytes16 bytes32
read-write_capture ws = (refl, ground arith, refl)

-- What `parse_classic` comes down to on a written capture.
parse-write_capture :
    (ws : List Written)
    → All Fits ws
    → parse_classic (write_capture ws) ≡ not_empty (ok (packets_at 24 ws))
unfolding parse_classic
parse-write_capture ws f =
    let (magic, network, records) = read-write_capture ws in
    let size : length ws < suc (length (write_capture ws)) = omega (
      arith,
      length-write_records ws,
      At-length (write_capture ws) 24 (write_records ws) records,
    ) in
    rw (parse_classic, magic, network, magic)
      (ap not_empty (
        read-write_records (write_capture ws) ws (suc (length (write_capture ws))) 24 [] f size
          records))

-- The bytes of a packet that is read back.
reread :
    (file : List ℕ) (ps : List PcapPacket) (pos : ℕ) (ws : List Written)
    → All Fits ws
    → At file pos (write_records ws)
    → map (written_of (record { bytes = file; packets = ps })) (packets_at pos ws) ≡ ws
unfolding packets_at written_of write_records
reread file ps pos [] f a = refl
reread file ps pos (w ∷ ws) f a =
    let here = At-record file pos w (write_records ws) f.0 a in
    let data_at = (read-write_record file pos w (write_records ws) f.0 a).1 in
    let wire : (if ltb w.origlen w.caplen then w.caplen else w.origlen) ≡ w.origlen =
      ground (arith, f.0.3) in
    let content : take w.caplen (drop (pos + 16) file) ≡ w.bytes =
      ap (take w.caplen) data_at
      ∙ ap (λ n. take n (w.bytes ++ write_records ws)) (sym f.0.4)
      ∙ take-append w.bytes (write_records ws) in
    rw (wire, content, reread file ps (pos + 16 + w.caplen) ws f.1 here.2) refl

-- Capturing what is written: if at least one packet is written, and every packet's time is below 2^32
-- seconds, its lengths fit 32 bits, its captured length is that of its bytes and at most its original
-- length, then the classic parser reads the written capture without an error, and the packets that it
-- finds, with their bytes in that file, are exactly the ones written, in order.
pub parse_classic-write_capture :
    (w : Written) (ws : List Written)
    → All Fits (w ∷ ws)
    → (parse_classic (write_capture (w ∷ ws)) ≡ ok (packets_at 24 (w ∷ ws)))
      × (map
            (written_of
              (record { bytes = write_capture (w ∷ ws); packets = packets_at 24 (w ∷ ws) }))
            (packets_at 24 (w ∷ ws))
          ≡ w ∷ ws)
parse_classic-write_capture w ws f = (
  parse-write_capture (w ∷ ws) f ∙ unfold packets_at in refl,
  reread (write_capture (w ∷ ws)) (packets_at 24 (w ∷ ws)) 24 (w ∷ ws) f
      (read-write_capture (w ∷ ws)).2,
)
