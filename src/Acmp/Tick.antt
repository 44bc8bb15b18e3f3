-- ===== src/Acmp/Tick.antt =====
-- What `milanTick` of `AcmpLogic` in backend/src/logic/acmp_logic.cpp leaves a Milan listener sink in:
-- in step with the shared model, and with no timer overdue.
use avb_introspection.Base.{
  ℕ, ◌≡◌, Bool, false, ◌&&◌, ◌||◌, not, List, [], ◌∷◌, Dict, AllEntries, AllEntries-after_loop,
  if◌then◌else◌, true, ◌==◌, arith,
}
use avb_introspection.Shared.{SharedModel}
use avb_introspection.Acmp.Types.{
  w_resp, w_resp2, w_retry, settled_no_rsv, settled_rsv_ok, MilanSink, PortKey, Report,
}
use avb_introspection.Acmp.Sinks.{
  same, is_unbound, is_past, sink_transition, sink_warning, talker_available,
  talker_attr_registered, discover, follow_registration, run_timers, tick_sink, resp2_timeout,
  resp_timeout, retry_timeout, no_tk_timeout,
}
use avb_introspection.Acmp.{World, on_time_tick}
use avb_introspection.Acmp.Messages.{milan_tick}
use avb_introspection.Acmp.Sound.{SinkWf}
use avb_introspection.Acmp.Run.{IsWf}
use avb_introspection.Acmp.Timers.{tag-shown, is_unbound-tag, Fits}

-- A timer of the sink has expired, and nothing has come of it.
unfoldable pub is_overdue : ℕ → MilanSink → Bool
is_overdue ts s =
    (same s.state w_resp2 && is_past s.last_probe_ts resp2_timeout ts)
    || ((same s.state w_resp && is_past s.last_probe_ts resp_timeout ts)
        || ((same s.state w_retry
              && (not s.retry_warned && is_past s.retry_start_ts retry_timeout ts))
            || (same s.state settled_no_rsv && is_past s.settled_no_rsv_ts no_tk_timeout ts)))

-- The flag of a bound sink is what ADP says of its talker, and a settled sink with a stream says
-- whether MSRP has the stream's talker attribute.
unfoldable pub is_in_step : SharedModel → MilanSink → Bool
is_in_step shared s =
    let reg = talker_attr_registered shared s.stream_id in
    is_unbound s.state
    || ((if talker_available shared s.bound_talker then s.talker_avail else not s.talker_avail)
        && ((s.stream_id == 0)
            || (if same s.state settled_rsv_ok
                then reg
                else not (same s.state settled_no_rsv && reg))))

tick_sink_in_time :
    (shared : SharedModel) (ts : ℕ) (s : MilanSink) (out : List Report)
    → is_overdue ts (tick_sink shared ts s out).0 ≡ false
unfolding is_overdue tick_sink discover follow_registration run_timers sink_transition sink_warning
tick_sink_in_time shared ts s out = ground (arith, tag-shown s.state, is_unbound-tag s.state)

tick_sink_in_step :
    (shared : SharedModel) (ts : ℕ) (s : MilanSink) (out : List Report)
    → Fits (s, out)
    → is_in_step shared (tick_sink shared ts s out).0 ≡ true
unfolding is_in_step tick_sink discover follow_registration run_timers sink_transition sink_warning
tick_sink_in_step shared ts s out f = ground (
  arith,
  tag-shown s.state,
  is_unbound-tag s.state,
  is_unbound-tag (tick_sink shared ts s out).0.state,
)

-- After `onTimeTick` no sink has a timer overdue: none waits in PRB_W_RESP2 for more than 250 ms or in
-- PRB_W_RESP for more than 1.2 s after its last probe, in SETTLED_NO_RSV for more than 10 s, or in
-- PRB_W_RETRY for more than 5 s without the warning.
pub on_time_tick-sinks_in_time :
    (shared : SharedModel) (ts : ℕ) (w : World)
    → AllEntries (λ port s. is_overdue ts s ≡ false) (on_time_tick shared ts w).milan.sinks
unfolding on_time_tick milan_tick
on_time_tick-sinks_in_time shared ts w =
    AllEntries-after_loop (λ _ _. Unit) (λ _ s. is_overdue ts s ≡ false) (tick_sink shared ts)
      w.milan.sinks w.milan.out (λ _ s out _. tick_sink_in_time shared ts s out) (all w.milan.sinks)
  where
    all : (m : Dict PortKey MilanSink) → AllEntries (λ _ _. Unit) m
    all [] = tt
    all (e ∷ m) = (tt, all m)

-- After `onTimeTick` of a well-formed module every bound sink is in step with the shared model: its
-- talker's flag is up exactly if the talker is AVAILABLE in ADP, and if it has a stream, it is not
-- SETTLED_RSV_OK without a talker attribute of the stream in MSRP, nor SETTLED_NO_RSV with one.
pub on_time_tick-sinks_in_step :
    (shared : SharedModel) (ts : ℕ) (w : World)
    → IsWf w
    → AllEntries (λ port s. is_in_step shared s ≡ true) (on_time_tick shared ts w).milan.sinks
unfolding on_time_tick milan_tick
on_time_tick-sinks_in_step shared ts w h =
    AllEntries-after_loop SinkWf (λ _ s. is_in_step shared s ≡ true) (tick_sink shared ts)
      w.milan.sinks w.milan.out (λ _ s out g. tick_sink_in_step shared ts s out g.1) h.sinks
