-- ===== src/Engine/Tests.antt =====
-- The theorems on the state pass at concrete inputs.
use avb_introspection.Base.{
  ℕ, ◌+◌, ◌%◌, ◌^◌, ◌≡◌, refl, arith, inl, inr, true, false, none, some, List, [], ◌∷◌,
}
use avb_introspection.Engine.Stamps.{InOrder}
use avb_introspection.Decode.Types.{truncated, Proto, msrp, mvrp, maap, adp, aecp, acmp, gptp}
use avb_introspection.Decode.Declarations.{empty_ctx}
use avb_introspection.Context.{set_value}
use avb_introspection.Engine.{
  Captured, Packet, new_pass, handle, run, rel_ts, stamped, by_time, analyze,
}
use avb_introspection.Engine.Log.{IsLogged, all_called_for, analyze-IsLogged}
use avb_introspection.Engine.Inventory.{packets_at, from_devices, run-packets}
use avb_introspection.Engine.Order.{Between, NotBefore, analyze-Between}
use avb_introspection.Engine.InTime.{InTime, adp_watches, handle-InTime}

abbrev services : List Proto
services = gptp ∷ mvrp ∷ adp ∷ aecp ∷ msrp ∷ acmp ∷ maap ∷ []

-- An entity that announces itself for two seconds, a broken frame ten seconds later, and one in between.
abbrev available : Captured
available = record {
  ts_nanos = 1000000000;
  decoded = record {
    src_mac = 5;
    dst_mac = 6;
    proto = adp;
    interesting = true;
    is_ok = true;
    error = none;
    logic_ctxs =
        record {
          service = "atdecc_adp";
          vars =
              set_value (set_value (set_value empty_ctx "message_type" 0) "valid_time" 2)
                "entity_id" 77;
        }
        ∷ [];
  };
}

abbrev broken : Captured
broken = record {
  ts_nanos = 11000000000;
  decoded = record {
    src_mac = 5;
    dst_mac = 6;
    proto = maap;
    interesting = true;
    is_ok = false;
    error = some (truncated "stream_id" 8 3);
    logic_ctxs = [];
  };
}

abbrev between : Captured
between = record broken { ts_nanos = 5000000000 }

abbrev capture : List Captured
capture = available ∷ broken ∷ between ∷ []

abbrev first_packet : Packet
first_packet = record { num = 1; ts_nanos = 1000000000; ts = 0; decoded = available.decoded }

abbrev second_packet : Packet
second_packet = record {
  num = 2;
  ts_nanos = 11000000000;
  ts = 10000000000;
  decoded = broken.decoded;
}

-- A packet from ten seconds before the first one of the file gets a time of more than five hundred years.
rel_ts_wraps : rel_ts 11000000000 1000000000 ≡ 18446744063709551616
rel_ts_wraps = refl

analyze-IsLogged_example :
    IsLogged (all_called_for (by_time (stamped capture))) (analyze services capture)
    × InOrder capture (by_time (stamped capture))
analyze-IsLogged_example = analyze-IsLogged services capture

handle-InTime_example :
    InTime adp 10000000000
      (handle services second_packet (handle services first_packet new_pass)).logic
handle-InTime_example =
    handle-InTime services second_packet (handle services first_packet new_pass) adp_watches
      (inr (inr (inl refl))) refl

run-packets_example :
    packets_at 5 (run services (first_packet ∷ second_packet ∷ []) new_pass).devices % 2 ^ 64
    ≡ (packets_at 5 new_pass.devices + from_devices 5 (first_packet ∷ second_packet ∷ [])) % 2 ^ 64
run-packets_example = run-packets 5 services (first_packet ∷ second_packet ∷ []) new_pass refl

capture-NotBefore : NotBefore 1000000000 capture
capture-NotBefore =
    ((omega arith, omega arith), ((omega arith, omega arith), ((omega arith, omega arith), tt)))

analyze-Between_example : (last : ℕ) × Between 0 (analyze services capture).events last
analyze-Between_example =
    analyze-Between services available (broken ∷ between ∷ []) capture-NotBefore
