-- ===== src/Gptp/Tests.antt =====
-- The gPTP theorems at concrete inputs.
use avb_introspection.Base.{
  ℕ, ◌≡◌, refl, inl, true, false, some, [], ◌∷◌, find, AllEntries, nat_key, string_key,
}
use avb_introspection.Context.{VarLayerContext}
use avb_introspection.Shared.{new_model}
use avb_introspection.Gptp.Types.{overdue}
use avb_introspection.Gptp.State.{AnnVec, new_vec, Domain, new_domain, World}
use avb_introspection.Gptp.Domains.{better_than, is_aged, eval_bmca}
use avb_introspection.Gptp.Bmca.{Announced, eval_bmca-best}
use avb_introspection.Gptp.Pdelay.{has_expired}
use avb_introspection.Gptp.Overdue.{domain_in_time, port_in_time, on_time_tick_none_overdue}
use avb_introspection.Gptp.Published.{IsTold, run_keeps-IsTold}
use avb_introspection.Gptp.Capable.{PortsSound}
use avb_introspection.Gptp.Sound.{run_keeps-PortsSound}
use avb_introspection.Gptp.{on_time_tick, decodes, ticks, run}

abbrev clock : AnnVec
clock = record new_vec { p1 = 246; gm_id = 7; src_clock = 7; src_port = 1; last_ts = some 5 }

abbrev with_clock : Domain
with_clock = record new_domain { announcers = (458753, clock) ∷ [] }

clock_fresh : is_aged 9 clock ≡ false
unfolding overdue
clock_fresh = refl

eval_bmca-best_example :
    let e = eval_bmca 9 with_clock in
    Announced clock e.announcers
    × (((e.have_expected_vec ≡ true) × (e.expected_gm ≡ e.expected_vec.gm_id))
        × ((Announced e.expected_vec with_clock.announcers × (is_aged 9 e.expected_vec ≡ false))
            × (better_than clock e.expected_vec ≡ false)))
eval_bmca-best_example = eval_bmca-best 9 with_clock clock (inl refl) clock_fresh

abbrev start : World
start = record {
  domains = [];
  ports = [];
  exchanges = [];
  out = record { shared = new_model; pending = [] };
}

abbrev sync : VarLayerContext
sync = record {
  vars =
      ("ts_ns", 20)
      ∷ ("pkt_num", 1)
      ∷ ("source_clock_id", 7)
      ∷ ("source_port_number", 1)
      ∷ ("sequence_id", 4)
      ∷ ("two_step", 1)
      ∷ [];
  bytes = [];
}

-- A Sync, and no other for more than three intervals.
abbrev silence : World
silence = run start (decodes sync ∷ [])

on_time_tick_none_overdue_example :
    ((b : ℕ) → domain_in_time 900000000 b (on_time_tick 900000000 silence) ≡ true)
    × (AllEntries (λ _ p. port_in_time 900000000 p ≡ true) (on_time_tick 900000000 silence).ports
        × AllEntries
            (λ key e. has_expired 900000000 (on_time_tick 900000000 silence).ports key e ≡ false)
            (on_time_tick 900000000 silence).exchanges)
on_time_tick_none_overdue_example = on_time_tick_none_overdue 900000000 silence

start-IsTold : IsTold start
unfolding find
start-IsTold = record { told = λ b. refl }

run_keeps-IsTold_example : IsTold (run start (decodes sync ∷ ticks 900000000 ∷ []))
run_keeps-IsTold_example = run_keeps-IsTold start (decodes sync ∷ ticks 900000000 ∷ []) start-IsTold

start-PortsSound : PortsSound start
start-PortsSound = record { ports = tt }

run_keeps-PortsSound_example : PortsSound (run start (decodes sync ∷ ticks 900000000 ∷ []))
run_keeps-PortsSound_example =
    run_keeps-PortsSound start (decodes sync ∷ ticks 900000000 ∷ []) start-PortsSound
