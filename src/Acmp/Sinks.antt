-- ===== src/Acmp/Sinks.antt =====
-- The Milan listener sink and talker records of `AcmpLogic` in backend/src/logic/acmp_logic.cpp:
-- `sinkTransition`, `sinkWarning`, `talkerWarning`, `milanOnMessage` and `milanTick`.
use avb_introspection.Base.{
  ℕ, ◌+◌, ◌-◌, ◌/◌, ◌%◌, ◌^◌, Bool, true, false, ◌&&◌, not, Option, none, some, List, [], ◌∷◌, ◌++◌,
  ltb, ◌==◌, if◌then◌else◌, find, contains, HistEntry, Transition, push_capped, nat_key,
}
use avb_introspection.Context.{VarLayerContext, at, ts_of, num_of}
use avb_introspection.Shared.{SharedModel, name_of}
use avb_introspection.Acmp.Types.{
  PortKey, port_key, SinkState, tag, unbound, w_avail, w_delay, w_resp, w_resp2, w_retry,
  settled_no_rsv, settled_rsv_ok, SinkWhy, bind_received, bind_rejected, probe_failed,
  unbind_received, second_probe, retry_expired, probe_restored, probe_discovered, probe_delayed,
  probe_sent, probe_succeeded, already_registered, tk_registered, tk_unregistered, tk_discovered,
  tk_departed, no_resp_twice, no_second_probe, retry_overdue, no_tk, MilanSink, TalkerState,
  stateless, TalkerWhy, MilanTalker, Report,
}

abbrev pub shown : SinkState → SinkState
shown SinkState.unset = unbound
shown s = s

abbrev pub same : SinkState → SinkState → Bool
same a b = tag a == tag b

-- `s.state.empty() || s.state == "UNBOUND"`.
abbrev pub is_unbound : SinkState → Bool
is_unbound SinkState.unset = true
is_unbound unbound = true
is_unbound _ = false

abbrev pub sink_hist_cap : ℕ
sink_hist_cap = 200

abbrev pub talker_hist_cap : ℕ
talker_hist_cap = 50

unfoldable pub sink_transition :
    SharedModel → ℕ → ℕ → SinkState → SinkWhy → MilanSink × List Report → MilanSink × List Report
sink_transition shared ts n to why (s, out) =
    let from = shown s.state in
    let entry : HistEntry SinkState SinkWhy = record {
      ts = ts;
      n = n;
      from = from;
      to = to;
      why = why;
    } in
    let report : Transition PortKey SinkState SinkWhy = record {
      object = (s.listener, s.uid);
      from = from;
      to = to;
      why = why;
      name = name_of s.listener shared;
      stream = if s.stream_id == 0 then none else some s.stream_id;
    } in
    if same from to then (s, out) else (
      record s { state = to; hist = push_capped sink_hist_cap s.hist entry },
      out ++ Report.sink report ∷ [],
    )

unfoldable pub sink_warning : ℕ → ℕ → SinkWhy → MilanSink × List Report → MilanSink × List Report
sink_warning ts n why (s, out) =
    let at_state = shown s.state in
    let entry : HistEntry SinkState SinkWhy = record {
      ts = ts;
      n = n;
      from = at_state;
      to = at_state;
      why = why;
    } in
    let report : Transition PortKey SinkState SinkWhy = record {
      object = (s.listener, s.uid);
      from = at_state;
      to = at_state;
      why = why;
      name = "";
      stream = none;
    } in
    (record s { hist = push_capped sink_hist_cap s.hist entry }, out ++ Report.sink report ∷ [])

unfoldable pub talker_warning :
    ℕ → ℕ → TalkerWhy → MilanTalker × List Report → MilanTalker × List Report
talker_warning ts n why (t, out) =
    let entry : HistEntry TalkerState TalkerWhy = record {
      ts = ts;
      n = n;
      from = stateless;
      to = stateless;
      why = why;
    } in
    let report : Transition PortKey TalkerState TalkerWhy = record {
      object = (t.talker, t.uid);
      from = stateless;
      to = stateless;
      why = why;
      name = "";
      stream = none;
    } in
    (record t { hist = push_capped talker_hist_cap t.hist entry }, out ++ Report.talker report ∷ [])

unfoldable pub talker_available : SharedModel → ℕ → Bool
talker_available shared talker = contains talker shared.adp_available

unfoldable pub talker_attr_registered : SharedModel → ℕ → Bool
talker_attr_registered shared stream_id = elim (find stream_id shared.msrp_talker_decl) [
  | none ↦ false
  | some d ↦ true
]

-- `ts > start + d` and `ts - start < d`, where a time that was never set stands for -1 second.
abbrev pub is_past : Option ℕ → ℕ → ℕ → Bool
is_past none d ts = ltb d (ts + 1000000000)
is_past (some start) d ts = ltb (start + d) ts

abbrev pub is_within : Option ℕ → ℕ → ℕ → Bool
is_within none d ts = ltb (ts + 1000000000) d
is_within (some start) d ts = ltb ts (start + d)

-- The milliseconds since `start`, as the reason of a second probe shows them.
abbrev pub elapsed_ms : Option ℕ → ℕ → ℕ
elapsed_ms none ts = (ts + 1000000000) / 1000000
elapsed_ms (some start) ts = (ts - start) / 1000000

-- `kMilanNoRespS + 0.3`, `kMilanNoRespS + 0.05`, `kMilanNoRespS + 1.0`, `kMilanRetryS + 1.0` and
-- `kMilanNoTkS`, in nanoseconds.
abbrev pub second_probe_window : ℕ
second_probe_window = 500000000

abbrev pub resp2_timeout : ℕ
resp2_timeout = 250000000

abbrev pub resp_timeout : ℕ
resp_timeout = 1200000000

abbrev pub retry_timeout : ℕ
retry_timeout = 5000000000

abbrev pub no_tk_timeout : ℕ
no_tk_timeout = 10000000000

module _ (shared : SharedModel) (v : VarLayerContext) where
  -- BIND_RX_COMMAND (6); the sink's own id is set by the caller.
  unfoldable pub on_bind : MilanSink × List Report → MilanSink × List Report
  on_bind (s, out) =
      let talker = at v "talker_entity_id" in
      let avail = talker_available shared talker in
      let bound = record s {
        bound_talker = talker;
        bound_talker_uid = at v "talker_unique_id" % 2 ^ 16;
        controller = at v "controller_entity_id";
        talker_avail = avail;
      } in
      sink_transition shared (ts_of v) (num_of v) (if avail then w_delay else w_avail)
        (bind_received (at v "controller_entity_id") avail) (bound, out)

  -- BIND_RX_RESPONSE (7), for a known sink.
  unfoldable pub on_bind_response : ℕ → MilanSink × List Report → MilanSink × List Report
  on_bind_response status q =
      if status == 0
      then q
      else sink_transition shared (ts_of v) (num_of v) unbound (bind_rejected status) q

  -- UNBIND_RX_COMMAND (8).
  unfoldable pub on_unbind : MilanSink × List Report → MilanSink × List Report
  on_unbind q =
      sink_transition shared (ts_of v) (num_of v) unbound
        (unbind_received (at v "controller_entity_id")) q

  -- The reason and the binding of a first probe, by the state before it.
  abbrev pub probe_why : SinkState → ℕ → SinkWhy
  probe_why SinkState.unset = probe_restored
  probe_why unbound = probe_restored
  probe_why w_avail = probe_discovered
  probe_why w_delay = probe_delayed
  probe_why _ = probe_sent

  unfoldable pub restore : MilanSink → MilanSink
  restore s =
      if is_unbound s.state
      then record s {
        bound_talker = at v "talker_entity_id";
        bound_talker_uid = at v "talker_unique_id" % 2 ^ 16;
      }
      else s

  -- PROBE_TX_COMMAND (0), up to the time of the last probe.
  unfoldable pub probe_move : MilanSink × List Report → MilanSink × List Report
  probe_move (s, out) =
      if same s.state w_resp && is_within s.last_probe_ts second_probe_window (ts_of v)
      then sink_transition shared (ts_of v) (num_of v) w_resp2
          (second_probe (elapsed_ms s.last_probe_ts (ts_of v))) (s, out)
      else if same s.state w_retry
      then sink_transition shared (ts_of v) (num_of v) w_resp retry_expired
          (record s { retry_warned = false }, out)
      else sink_transition shared (ts_of v) (num_of v) w_resp
          (probe_why s.state (at v "talker_entity_id")) (restore s, out)

  unfoldable pub on_probe : MilanSink × List Report → MilanSink × List Report
  on_probe (s, out) =
      let (s', out') = probe_move (record s { probes = (s.probes + 1) % 2 ^ 32 }, out) in
      (record s' { last_probe_ts = some (ts_of v) }, out')

  -- PROBE_TX_RESPONSE (1), for a known sink.
  unfoldable pub settle : MilanSink × List Report → MilanSink × List Report
  settle (s, out) =
      sink_transition shared (ts_of v) (num_of v) settled_no_rsv
        (probe_succeeded (at v "stream_id"))
        (
          record s {
            stream_id = at v "stream_id";
            dest_mac = at v "stream_dest_mac";
            vlan = at v "stream_vlan_id" % 2 ^ 16;
            settled_no_rsv_ts = some (ts_of v);
          },
          out,
        )

  unfoldable pub on_probe_response : ℕ → MilanSink × List Report → MilanSink × List Report
  on_probe_response status q =
      if status == 0
      then if talker_attr_registered shared (at v "stream_id")
        then sink_transition shared (ts_of v) (num_of v) settled_rsv_ok already_registered
            (settle q)
        else settle q
      else sink_warning (ts_of v) (num_of v) (probe_failed status) q

-- EVT_TK_DEPARTED in `milanTick`, after which the round ends.
abbrev pub departs : SharedModel → MilanSink → Bool
departs shared s =
    s.talker_avail && (not (talker_available shared s.bound_talker) && not (same s.state w_avail))

module _ (shared : SharedModel) (ts : ℕ) where
  -- EVT_TK_DISCOVERED.
  unfoldable pub discover : MilanSink × List Report → MilanSink × List Report
  discover (s, out) =
      let s' = record s { talker_avail = true } in
      if not s.talker_avail && talker_available shared s.bound_talker
      then if same s.state w_avail
        then sink_transition shared ts 0 w_delay tk_discovered (s', out)
        else (s', out)
      else (s, out)

  -- EVT_TK_REGISTERED and EVT_TK_UNREGISTERED.
  unfoldable pub follow_registration : MilanSink × List Report → MilanSink × List Report
  follow_registration (s, out) =
      let reg = talker_attr_registered shared s.stream_id in
      if s.stream_id == 0
      then (s, out)
      else if same s.state settled_no_rsv && reg
      then sink_transition shared ts 0 settled_rsv_ok tk_registered (s, out)
      else if same s.state settled_rsv_ok && not reg
      then sink_transition shared ts 0 settled_no_rsv tk_unregistered
          (record s { settled_no_rsv_ts = some ts }, out)
      else (s, out)

  -- The timers, observed through capture time.
  unfoldable pub run_timers : MilanSink × List Report → MilanSink × List Report
  run_timers (s, out) =
      let retrying = record s { retry_start_ts = some ts } in
      if same s.state w_resp2 && is_past s.last_probe_ts resp2_timeout ts
      then sink_transition shared ts 0 w_retry no_resp_twice (retrying, out)
      else if same s.state w_resp && is_past s.last_probe_ts resp_timeout ts
      then sink_transition shared ts 0 w_retry no_second_probe (retrying, out)
      else if same s.state w_retry
          && (not s.retry_warned && is_past s.retry_start_ts retry_timeout ts)
      then sink_warning ts 0 retry_overdue (record s { retry_warned = true }, out)
      else if same s.state settled_no_rsv && is_past s.settled_no_rsv_ts no_tk_timeout ts
      then sink_transition shared ts 0 w_delay no_tk (s, out)
      else (s, out)

  -- One round of the loop of `milanTick`.
  unfoldable pub tick_sink : MilanSink → List Report → MilanSink × List Report
  tick_sink s out =
      if is_unbound s.state
      then (s, out)
      else if departs shared s
      then sink_transition shared ts 0 w_avail (tk_departed s.bound_talker)
          (record s { talker_avail = false }, out)
      else run_timers (follow_registration (discover (s, out)))
