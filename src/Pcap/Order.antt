-- ===== src/Pcap/Order.antt =====
-- The order of the packets that `mergePcaps` of backend/src/pcapio/pcap_reader.cpp writes.
use avb_introspection.Base.{◌≡◌, Bool, true, ◌&&◌, ◌||◌, List, [], ◌∷◌, ltb, ◌==◌, All}
use mathlib.Core.List.{Perm}
use mathlib.Core.List.Perm
use avb_introspection.Pcap.{Result, ok}
use avb_introspection.Pcap.Merge.{Source, Ref, all_refs, Merged, written, write_capture, source_map}

-- By source, and by the place in the source.
abbrev pub earlier : Ref → Ref → Bool
earlier a b = ltb a.file b.file || ((a.file == b.file) && ltb a.pkt b.pkt)

-- By time, and at the same time by source and place.
abbrev pub before : Ref → Ref → Bool
before a b = ltb a.ts b.ts || ((a.ts == b.ts) && earlier a b)

module _ (rel : Ref → Ref → Bool) where
  abbrev pub Ordered : List Ref → Type 0
  Ordered [] = Unit
  Ordered (r ∷ rs) = All (λ q. rel r q ≡ true) rs × Ordered rs

-- What the merge makes of its sources: one reference for each packet of each source, ordered by time and at
-- the same time by source and place, and a capture and a source map in this order.
pub record Merges (ss : List Source) (r : Result Merged) : Type 0 where
  pub merged : Merged
  pub made : r ≡ ok merged
  pub ordered : Ordered before merged.refs
  pub complete : Perm merged.refs (all_refs 0 ss)
  pub capture : merged.capture ≡ write_capture (written ss merged.refs)
  pub sidecar : merged.sidecar ≡ source_map merged.refs
