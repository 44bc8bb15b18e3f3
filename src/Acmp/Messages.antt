-- ===== src/Acmp/Messages.antt =====
-- `milanOnMessage` and `milanTick` of `AcmpLogic` in backend/src/logic/acmp_logic.cpp: the maps
-- `mSinks` and `mTalkers`, and the reports so far.
use avb_introspection.Base.{
  ℕ, ◌+◌, ◌%◌, ◌^◌, none, some, List, ◌==◌, Option, if◌then◌else◌, Dict, find, find_or, insert,
  for_values,
}
use avb_introspection.Context.{VarLayerContext, at, ts_of, num_of}
use avb_introspection.Shared.{SharedModel}
use avb_introspection.Acmp.Types.{
  PortKey, port_key, MilanSink, new_sink, MilanTalker, new_talker, disconnect_refused,
  get_tx_connection_seen, Report,
}
use avb_introspection.Acmp.Sinks.{
  on_bind, on_bind_response, on_unbind, on_probe, on_probe_response, talker_warning, tick_sink,
}

pub record Milan : Type 0 where
  pub sinks : Dict PortKey MilanSink
  pub talkers : Dict PortKey MilanTalker
  pub out : List Report

abbrev pub listener_port : VarLayerContext → PortKey
listener_port v = (at v "listener_entity_id", at v "listener_unique_id" % 2 ^ 16)

abbrev pub talker_port : VarLayerContext → PortKey
talker_port v = (at v "talker_entity_id", at v "talker_unique_id" % 2 ^ 16)

-- `mSinks[port]` with its two ids set, then `op` on it.
unfoldable pub with_sink :
    PortKey → (MilanSink × List Report → MilanSink × List Report) → Milan → Milan
with_sink port op m =
    let found = record (find_or new_sink port m.sinks) { listener = port.0; uid = port.1 } in
    let (s, out) = op (found, m.out) in record m { sinks = insert port s m.sinks; out = out }

-- `op` on what a search for the port has found.
unfoldable pub with_found :
    PortKey → (MilanSink × List Report → MilanSink × List Report) → Option MilanSink → Milan → Milan
with_found port op none m = m
with_found port op (some found) m =
    let (s, out) = op (found, m.out) in record m { sinks = insert port s m.sinks; out = out }

-- `mSinks.find(port)`, then `op` on what it finds.
unfoldable pub with_known_sink :
    PortKey → (MilanSink × List Report → MilanSink × List Report) → Milan → Milan
with_known_sink port op m = with_found port op (find port m.sinks) m

-- `mTalkers[port]` with its two ids set, then `op` on it.
unfoldable pub with_talker :
    PortKey → (MilanTalker × List Report → MilanTalker × List Report) → Milan → Milan
with_talker port op m =
    let found = record (find_or new_talker port m.talkers) { talker = port.0; uid = port.1 } in
    let (t, out) = op (found, m.out) in record m { talkers = insert port t m.talkers; out = out }

unfoldable pub count_probe : MilanTalker × List Report → MilanTalker × List Report
count_probe (t, out) = (record t { probes_received = (t.probes_received + 1) % 2 ^ 32 }, out)

unfoldable pub count_disconnect : MilanTalker × List Report → MilanTalker × List Report
count_disconnect (t, out) = (record t { disconnect_tx = (t.disconnect_tx + 1) % 2 ^ 32 }, out)

module _ (v : VarLayerContext) where
  unfoldable pub count_response : ℕ → MilanTalker × List Report → MilanTalker × List Report
  count_response status (t, out) = (
    record t {
      probe_responses = (t.probe_responses + 1) % 2 ^ 32;
      last_status = status;
      stream_id = if status == 0 then at v "stream_id" else t.stream_id;
    },
    out,
  )

  unfoldable pub count_get_tx : MilanTalker × List Report → MilanTalker × List Report
  count_get_tx (t, out) =
      talker_warning (ts_of v) (num_of v) get_tx_connection_seen
        (record t { get_tx_connection = (t.get_tx_connection + 1) % 2 ^ 32 }, out)

unfoldable pub milan_on_message : SharedModel → VarLayerContext → ℕ → ℕ → Milan → Milan
milan_on_message shared v msg status m =
    let sink = listener_port v in
    let talker = talker_port v in
    if msg == 6
    then with_sink sink (on_bind shared v) m
    else if msg == 7
    then with_known_sink sink (on_bind_response shared v status) m
    else if msg == 8
    then with_sink sink (on_unbind shared v) m
    else if msg == 0
    then with_sink sink (on_probe shared v) (with_talker talker count_probe m)
    else if msg == 1
    then with_known_sink sink (on_probe_response shared v status)
        (with_talker talker (count_response v status) m)
    else if msg == 2
    then with_talker talker count_disconnect m
    else if msg == 3
    then if status == 0
      then m
      else with_talker talker (talker_warning (ts_of v) (num_of v) (disconnect_refused status)) m
    else if msg == 12
    then with_talker talker (count_get_tx v) m
    else m

unfoldable pub milan_tick : SharedModel → ℕ → Milan → Milan
milan_tick shared ts m =
    let (sinks, out) = for_values (tick_sink shared ts) m.sinks m.out in
    record m { sinks = sinks; out = out }
