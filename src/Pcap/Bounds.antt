-- ===== src/Pcap/Bounds.antt =====
-- `parseClassic` of backend/src/pcapio/pcap_reader.cpp ends, and its packets lie in the file.
use avb_introspection.Base.{
  ℕ, zero, suc, ◌+◌, ◌≤◌, ◌<◌, ◌≡◌, ◌≢◌, refl, sym, ◌∙◌, ◌⊎◌, ◌||◌, Bool, true, false, some, List,
  [], ◌∷◌, ◌++◌, arith, ◌==◌, length, drop, All, All-append, subst, inl, inr, Bool-cases,
  Option-cases,
}
use avb_introspection.Pcap.{
  PcapPacket, Error, bad_link_type, truncated_global_header, Result, ok, err, stuck,
  link_ethernet_mpacket, usable_link_type, has, u32, find_smd, min_len, strip_mpacket_preamble,
  magic_us_swap, magic_ns, magic_ns_swap, word32,
}
use avb_introspection.Pcap.Classic.{
  Header, RecordHeader, read_network, read_record, packet_of, read_records, not_empty,
  parse_classic,
}

-- The packet's bytes are in the file.
abbrev pub InBounds : List ℕ → PcapPacket → Type 0
InBounds file p = p.offset + p.caplen ≤ length file

find_smd-lt : (left i : ℕ) (bytes : List ℕ) (j : ℕ) → find_smd left i bytes ≡ some j → j < i + left
unfolding find_smd
find_smd-lt zero i bytes j e = cc
find_smd-lt (suc left) i [] j e = cc
find_smd-lt (suc left) i (b ∷ bytes) j e = ground (arith, e, find_smd-lt left (i + 1) bytes j)

pub strip-InBounds :
    (p : PcapPacket) (file : List ℕ)
    → InBounds file p
    → InBounds file (strip_mpacket_preamble p file)
unfolding strip_mpacket_preamble
strip-InBounds p file h =
    elim (Option-cases (find_smd (min_len p.caplen 16) 0 (drop p.offset file))) [
      | inl none_found ↦ rw none_found h
      | inr (i, found) ↦
          let below = find_smd-lt (min_len p.caplen 16) 0 (drop p.offset file) i found in
          rw found (ground (arith, h, below))
    ]

read_record-pos :
    (swap : Bool) (file : List ℕ) (pos : ℕ) (r : RecordHeader) (p : ℕ)
    → read_record swap file pos ≡ some (r, p)
    → p ≡ pos + 16
unfolding read_record u32
read_record-pos swap file pos r p e = ground (arith, e)

packet_of-InBounds :
    (h : Header) (file : List ℕ) (r : RecordHeader) (pos : ℕ)
    → has r.caplen file pos ≡ true
    → InBounds file (packet_of h file r pos)
unfolding packet_of
packet_of-InBounds h file r pos e = elim (Bool-cases (h.link == link_ethernet_mpacket)) [
  | inl mpacket ↦ rw mpacket (strip-InBounds _ file (ground (arith, e)))
  | inr plain ↦ rw plain (ground (arith, e))
]

module _ (h : Header) (file : List ℕ) where
  read_records-InBounds :
      (fuel pos : ℕ) (found ps : List PcapPacket)
      → All (InBounds file) found
      → read_records h file fuel pos found ≡ ok ps
      → All (InBounds file) ps
  unfolding read_records
  read_records-InBounds zero pos found ps a e = cc
  read_records-InBounds (suc fuel) pos found ps a e = elim (Bool-cases (has 16 file pos)) [
    | inr short ↦
        let same : found ≡ ps = ground (arith, e, short) in subst (All (InBounds file)) same a
    | inl more ↦ elim (Option-cases (read_record h.swap file pos)) [
      | inl nothing ↦
          let same : found ≡ ps = ground (arith, e, more, nothing) in
          subst (All (InBounds file)) same a
      | inr ((r, p), read) ↦ elim (Bool-cases (has r.caplen file p)) [
        | inr cut ↦ absurd (ground (arith, e, more, read, cut))
        | inl whole ↦
            read_records-InBounds fuel (p + r.caplen) (found ++ packet_of h file r p ∷ []) ps
              (All-append (InBounds file) found _ a (packet_of-InBounds h file r p whole, tt))
              (ground (arith, e, more, read, whole))
      ]
    ]
  ]

  read_records-ends :
      (fuel pos : ℕ) (found : List PcapPacket)
      → 0 < fuel
      → length file < pos + fuel
      → read_records h file fuel pos found ≢ stuck
  unfolding read_records
  read_records-ends zero pos found some_fuel enough e = absurd (omega (arith, some_fuel))
  read_records-ends (suc fuel) pos found some_fuel enough e = elim (Bool-cases (has 16 file pos)) [
    | inr short ↦ ground (arith, e, short)
    | inl more ↦ elim (Option-cases (read_record h.swap file pos)) [
      | inl nothing ↦ ground (arith, e, more, nothing)
      | inr ((r, p), read) ↦ elim (Bool-cases (has r.caplen file p)) [
        | inr cut ↦ ground (arith, e, more, read, cut)
        | inl whole ↦
            read_records-ends fuel (p + r.caplen) (found ++ packet_of h file r p ∷ [])
              (ground (arith, enough, more))
              (ground (arith, enough, more, read_record-pos h.swap file pos r p read))
              (ground (arith, e, more, read, whole))
      ]
    ]
  ]

not_empty-ok :
    (r : Result (List PcapPacket)) (ps : List PcapPacket) → not_empty r ≡ ok ps → r ≡ ok ps
not_empty-ok (ok []) ps e = cc
not_empty-ok (ok (p ∷ qs)) ps e = e
not_empty-ok (err x) ps e = e
not_empty-ok stuck ps e = e

pub not_empty-stuck : (r : Result (List PcapPacket)) → not_empty r ≡ stuck → r ≡ stuck
not_empty-stuck (ok []) e = cc
not_empty-stuck (ok (p ∷ qs)) e = e
not_empty-stuck (err x) e = e
not_empty-stuck stuck e = e

not_empty-length :
    (r : Result (List PcapPacket)) (ps : List PcapPacket) → not_empty r ≡ ok ps → 0 < length ps
not_empty-length (ok []) ps e = cc
not_empty-length (ok (p ∷ qs)) [] e = cc
not_empty-length (ok (p ∷ qs)) (q ∷ rs) e = omega arith
not_empty-length (err x) ps e = cc
not_empty-length stuck ps e = cc

-- What `parse_classic` comes down to: an error of the header, or the loop.
parsed :
    (file : List ℕ)
    → ((x : Error) × (parse_classic file ≡ err x))
      ⊎ ((h : Header) × (parse_classic file
            ≡ not_empty (read_records h file (suc (length file)) 24 [])))
unfolding parse_classic
parsed file = elim (Option-cases (read_network swap file)) [
  | inl cut ↦ inl (truncated_global_header, rw (cut, parse_classic) refl)
  | inr (link, read) ↦ elim (Bool-cases (usable_link_type link)) [
    | inl usable ↦
        inr (
          record { swap = swap; nanos = nanos; link = link },
          rw (read, parse_classic, usable) refl,
        )
    | inr other ↦ inl (bad_link_type link, rw (read, parse_classic, other) refl)
  ]
]
  where
    magic : ℕ
    magic = word32 false file

    swap : Bool
    swap = (magic == magic_us_swap) || (magic == magic_ns_swap)

    nanos : Bool
    nanos = (magic == magic_ns) || (magic == magic_ns_swap)

-- Every packet of a classic capture that is read without an error lies in the file, with its preamble
-- stripped or not, and there is at least one.
pub parse_classic-InBounds :
    (file : List ℕ) (ps : List PcapPacket)
    → parse_classic file ≡ ok ps
    → All (InBounds file) ps × (0 < length ps)
parse_classic-InBounds file ps e = elim (parsed file) [
  | inl (x, fails) ↦ cc
  | inr (h, reads) ↦
      let r = read_records h file (suc (length file)) 24 [] in
      let loop : not_empty r ≡ ok ps = sym reads ∙ e in
      (
        read_records-InBounds h file (suc (length file)) 24 [] ps tt (not_empty-ok r ps loop),
        not_empty-length r ps loop,
      )
]

-- Reading a classic capture always ends, whatever the bytes are: with packets or with an error.
pub parse_classic-ends : (file : List ℕ) → parse_classic file ≢ stuck
parse_classic-ends file e = elim (parsed file) [
  | inl (x, fails) ↦ cc
  | inr (h, reads) ↦
      let r = read_records h file (suc (length file)) 24 [] in
      read_records-ends h file (suc (length file)) 24 [] (omega arith) (omega arith)
        (not_empty-stuck r (sym reads ∙ e))
]
