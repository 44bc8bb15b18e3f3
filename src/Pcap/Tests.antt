-- ===== src/Pcap/Tests.antt =====
-- The theorems on capture files at concrete inputs.
use avb_introspection.Base.{
  ℕ, suc, ◌<◌, ◌≡◌, ◌≢◌, ◌⊎◌, inl, inr, refl, arith, List, [], ◌∷◌, map, length, All,
}
use avb_introspection.Pcap.{ok, stuck, word32, u32}
use avb_introspection.Pcap.Classic.{parse_classic}
use avb_introspection.Pcap.Ng.{Ng, start, round, on_shb, parse_ng}
use avb_introspection.Pcap.Merge.{Source, Written, written_of, write_capture}
use avb_introspection.Pcap.Bounds.{InBounds, parse_classic-InBounds, parse_classic-ends}
use avb_introspection.Pcap.RoundTrip.{Fits, packets_at, parse_classic-write_capture}
use avb_introspection.Pcap.Ends.{
  Visits, at_start, at_next, NoEmptySection, parse_ng-ends, parse_ng_spins,
}

-- A packet of three bytes, 2.5 s into the epoch.
abbrev packet : Written
packet = record { ts = 2500000000; caplen = 3; origlen = 60; bytes = 7 ∷ 8 ∷ 9 ∷ [] }

packet-Fits : All Fits (packet ∷ [])
packet-Fits = ((omega arith, omega arith, omega arith, omega arith, refl), tt)

abbrev capture : List ℕ
capture = write_capture (packet ∷ [])

parse_classic-write_capture_example :
    (parse_classic capture ≡ ok (packets_at 24 (packet ∷ [])))
    × (map
          (written_of (record { bytes = capture; packets = packets_at 24 (packet ∷ []) }))
          (packets_at 24 (packet ∷ []))
        ≡ packet ∷ [])
parse_classic-write_capture_example = parse_classic-write_capture packet [] packet-Fits

parse_classic-InBounds_example :
    All (InBounds capture) (packets_at 24 (packet ∷ []))
    × (0 < length (packets_at 24 (packet ∷ [])))
parse_classic-InBounds_example =
    parse_classic-InBounds capture (packets_at 24 (packet ∷ []))
      (parse_classic-write_capture packet [] packet-Fits).0

parse_classic-ends_example : parse_classic capture ≢ stuck
parse_classic-ends_example = parse_classic-ends capture

-- A second capture, of an earlier packet.
abbrev earlier_capture : List ℕ
earlier_capture = write_capture (record packet { ts = 1000000000 } ∷ [])

abbrev taps : List Source
taps =
    record { bytes = capture; packets = packets_at 24 (packet ∷ []) }
    ∷ record {
      bytes = earlier_capture;
      packets = packets_at 24 (record packet { ts = 1000000000 } ∷ []);
    }
    ∷ []

-- A section header of 12 bytes in which the length is 0.
abbrev empty_section : List ℕ
empty_section = 0x0a ∷ 0x0d ∷ 0x0d ∷ 0x0a ∷ 0 ∷ 0 ∷ 0 ∷ 0 ∷ 0x4d ∷ 0x3c ∷ 0x2b ∷ 0x1a ∷ []

parse_ng_spins_example : parse_ng 1000 empty_section ≡ stuck
unfolding word32
parse_ng_spins_example = parse_ng_spins 1000 empty_section (omega arith) refl refl refl

-- The same header with its length, 12.
abbrev one_section : List ℕ
one_section = 0x0a ∷ 0x0d ∷ 0x0d ∷ 0x0a ∷ 12 ∷ 0 ∷ 0 ∷ 0 ∷ 0x4d ∷ 0x3c ∷ 0x2b ∷ 0x1a ∷ []

-- The loop comes to the header and to the end of the file.
one_section-Visits :
    {pos : ℕ} {s : Ng} → Visits one_section pos s → ((pos ≡ 0) × (s ≡ start)) ⊎ (pos ≡ 12)
unfolding round on_shb u32 word32
one_section-Visits at_start = inl (refl, refl)
one_section-Visits (at_next {pos} {pos'} {s} {s'} here more q) = elim (one_section-Visits here) [
  | inl (e, f) ↦ inr (ground (arith, q, e, f))
  | inr e ↦ absurd (ground (arith, more, e))
]

one_section-NoEmptySection : NoEmptySection one_section
unfolding word32
one_section-NoEmptySection pos s here magic = elim (one_section-Visits here) [
  | inl (e, f) ↦ ground (arith, e)
  | inr e ↦ absurd (ground (arith, magic, e))
]

parse_ng-ends_example : parse_ng (suc (length one_section)) one_section ≢ stuck
parse_ng-ends_example = parse_ng-ends one_section one_section-NoEmptySection
