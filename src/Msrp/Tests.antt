-- ===== src/Msrp/Tests.antt =====
-- The MSRP theorems at concrete inputs.
use avb_introspection.Base.{refl, [], ◌∷◌, find, contains, nat_key, string_key}
use avb_introspection.Context.{VarLayerContext}
use avb_introspection.Shared.{new_model}
use avb_introspection.Msrp.{World}
use avb_introspection.Msrp.Publish
use avb_introspection.Msrp.Publish.{IsPublished, run_keeps-IsPublished}
use avb_introspection.Msrp.Interest.{Agree}
use avb_introspection.Msrp.Listeners.{decodes, ticks, run, run_keeps-Agree}

abbrev start : World
start = record {
  reservations = [];
  domains = [];
  out = record { shared = new_model; pending = [] };
}

start-IsPublished : IsPublished start
unfolding find contains
start-IsPublished = record { settled = tt; places = λ id. refl; decls = λ id. refl }

start-Agree : Agree start
unfolding find
start-Agree id src e = cc

-- Source 3 advertises stream 40, and source 9 is ready for it.
abbrev advertisement : VarLayerContext
advertisement = record {
  vars = ("attribute_type", 1) ∷ ("mrp_event", 0) ∷ ("src_mac", 3) ∷ ("stream_id", 40) ∷ [];
  bytes = [];
}

abbrev ready : VarLayerContext
ready = record {
  vars =
      ("attribute_type", 3)
      ∷ ("mrp_event", 1)
      ∷ ("src_mac", 9)
      ∷ ("stream_id", 40)
      ∷ ("four_packed_event", 2)
      ∷ [];
  bytes = [];
}

run_keeps-IsPublished_example : IsPublished (Publish.run start (advertisement ∷ ready ∷ []))
run_keeps-IsPublished_example =
    run_keeps-IsPublished start (advertisement ∷ ready ∷ []) start-IsPublished

run_keeps-Agree_example : Agree (run start (decodes advertisement ∷ decodes ready ∷ ticks 5 ∷ []))
run_keeps-Agree_example =
    run_keeps-Agree start (decodes advertisement ∷ decodes ready ∷ ticks 5 ∷ []) start-Agree
