-- ===== src/Mvrp/Tests.antt =====
-- The MVRP theorems at concrete inputs.
use avb_introspection.Base.{[], ◌∷◌, AllEntries, find, nat_key, string_key}
use avb_introspection.Context.{VarLayerContext}
use avb_introspection.Shared.{new_model}
use avb_introspection.Mvrp.{World, on_decode}
use avb_introspection.Mvrp.Members.{VlanWf, on_decode-VlanWf}
use avb_introspection.Mvrp.Registered.{Agree, decodes, ticks, run, run-Agree}

-- Source 17 joins VLAN 5.
abbrev join : VarLayerContext
join = record {
  vars = ("mrp_event", 1) ∷ ("src_mac", 17) ∷ ("vid", 5) ∷ ("ts_ns", 1000) ∷ [];
  bytes = [];
}

abbrev start : World
start = record { vlans = []; pending = []; shared = new_model }

start-Agree : Agree start
unfolding find
start-Agree vid member e = cc

on_decode-VlanWf_example : AllEntries (λ _ v. VlanWf v) (on_decode join start).vlans
on_decode-VlanWf_example = on_decode-VlanWf join start tt

run-Agree_example : Agree (run start (decodes join ∷ ticks 2000 ∷ []))
run-Agree_example = run-Agree start (decodes join ∷ ticks 2000 ∷ []) start-Agree
