-- ===== src/Maap/Tests.antt =====
-- The MAAP theorems at concrete inputs.
use avb_introspection.Base.{
  ◌≡◌, [], ◌∷◌, AllEntries, find, nat_key, string_key, arith, ◌+◌, ◌%◌, ◌^◌,
}
use avb_introspection.Context.{VarLayerContext}
use avb_introspection.Maap.{World, on_decode}
use avb_introspection.Maap.Claims.{RangeWf, on_decode-RangeWf}
use avb_introspection.Maap.Counts.{run, sent, range_at, run-counts}

abbrev probe : VarLayerContext
probe = record {
  vars =
      ("message_type", 1)
      ∷ ("src_mac", 5)
      ∷ ("requested_start_address", 100)
      ∷ ("requested_count", 8)
      ∷ [];
  bytes = [];
}

abbrev none_yet : World
none_yet = record { ranges = []; pending = [] }

on_decode-RangeWf_example : AllEntries (λ _ r. RangeWf r) (on_decode probe none_yet).ranges
on_decode-RangeWf_example = on_decode-RangeWf probe none_yet tt

run-counts_example :
    ((range_at 5 (run none_yet (probe ∷ probe ∷ []))).conflicts
      ≡ (0 + sent 2 5 (probe ∷ probe ∷ [])) % 2 ^ 32)
    × ((range_at 5 (run none_yet (probe ∷ probe ∷ []))).probes
        ≡ (0 + sent 1 5 (probe ∷ probe ∷ [])) % 2 ^ 32)
unfolding find
run-counts_example = run-counts 5 (probe ∷ probe ∷ []) none_yet (omega arith) (omega arith)
