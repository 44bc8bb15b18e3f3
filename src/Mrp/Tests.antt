-- ===== src/Mrp/Tests.antt =====
-- Runs of the registrar, and the theorems at concrete inputs.
use avb_introspection.Base.{
  some, ◌≡◌, refl, [], ◌∷◌, List, false, AllEntries, find, insert, for_values, push_capped,
  ℕ_discrete,
}
use avb_introspection.Mrp.{
  Mrp, MrpAttr, MrpKey, mvrp, vlan, lv, inn, empty, event, leave_all, tick, tick_loop, is_overdue,
  mrp_key, new_attr, event_attr, touch, react, join, leave, set_registrar, write_log,
  leave_all_attr, mrp_event_name, MrpKey-discrete, Proto-discrete, Label-discrete,
}
use avb_introspection.Mrp.Wf.{IsWf}
use avb_introspection.Mrp.Sweep.{Call, events, leaves_all, run, step, run-IsWf}
use avb_introspection.Mrp.Timer.{tick-tick_loop, tick_in_time}
use avb_introspection.Mrp.Table.{registrar_at, timer_at, table, event-table, leave_all_scope}

abbrev join_then_leave : List Call
join_then_leave =
    events mvrp "VID" (vlan 5) 17 1 1000 1
    ∷ events mvrp "VID" (vlan 6) 17 1 2000 2
    ∷ leaves_all mvrp "VID" 3000 3
    ∷ events mvrp "VID" (vlan 6) 17 1 4000 4
    ∷ []

abbrev vlan5 : MrpKey
vlan5 = (mvrp, vlan 5, 17)

abbrev after : Mrp
after = run empty join_then_leave

after-IsWf : IsWf after
after-IsWf = run-IsWf join_then_leave

-- VLAN 5 is leaving, VLAN 6 has joined again.
one_leaving : after.lv_count ≡ 1
unfolding run step event leave_all event_attr touch react join leave set_registrar write_log
    leave_all_attr find insert for_values push_capped mrp_event_name MrpKey-discrete Proto-discrete
    Label-discrete ℕ_discrete
one_leaving = refl

run-IsWf_example : IsWf (run empty join_then_leave)
run-IsWf_example = run-IsWf join_then_leave

tick-tick_loop_example : tick 2000000000 after ≡ tick_loop 2000000000 after
tick-tick_loop_example = tick-tick_loop 2000000000 after after-IsWf

tick_in_time_example :
    AllEntries (λ _ a. is_overdue 2000000000 a ≡ false) (tick 2000000000 after).attrs
tick_in_time_example = tick_in_time 2000000000 after after-IsWf

abbrev registered : MrpAttr
registered = record new_attr { proto = mvrp; kind = "VID"; registrar = inn }

abbrev one_vlan : Mrp
one_vlan = record { attrs = (vlan5, registered) ∷ []; lv_count = 0 }

event-table_example : registrar_at vlan5 (event mvrp "VID" (vlan 5) 17 5 9000 7 one_vlan) ≡ lv
unfolding find MrpKey-discrete Proto-discrete Label-discrete ℕ_discrete table
event-table_example = event-table mvrp "VID" (vlan 5) 17 5 9000 7 one_vlan vlan5

leave_all_scope_example :
    (registrar_at vlan5 (leave_all mvrp "VID" 9000 7 one_vlan) ≡ lv)
    × (timer_at vlan5 (leave_all mvrp "VID" 9000 7 one_vlan) ≡ some 9000)
unfolding find MrpKey-discrete Proto-discrete Label-discrete ℕ_discrete
leave_all_scope_example = leave_all_scope mvrp "VID" 9000 7 one_vlan vlan5 registered refl
