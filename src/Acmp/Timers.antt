-- ===== src/Acmp/Timers.antt =====
-- The timers of a Milan listener sink, in `sinkTransition`, `milanOnMessage` and `milanTick` of
-- `AcmpLogic` in backend/src/logic/acmp_logic.cpp: each state that waits knows since when it does, and
-- the flag of an available talker is down while the sink waits for the talker.
use avb_introspection.Base.{
  ℕ, ◌≡◌, refl, Bool, true, false, ◌||◌, not, Option, none, some, List, ltb, ◌==◌, if◌then◌else◌,
  arith,
}
use avb_introspection.Context.{VarLayerContext}
use avb_introspection.Shared.{SharedModel}
use avb_introspection.Acmp.Types.{
  SinkState, tag, w_avail, w_delay, w_resp, w_resp2, w_retry, settled_no_rsv, settled_rsv_ok,
  unbound, SinkWhy, MilanSink, Report,
}
use avb_introspection.Acmp.Sinks.{
  shown, same, is_unbound, sink_transition, sink_warning, on_bind, on_bind_response, on_unbind,
  on_probe, probe_move, restore, settle, on_probe_response, discover, follow_registration,
  run_timers, tick_sink,
}

abbrev pub is_set : Option ℕ → Bool
is_set none = false
is_set (some _) = true

-- What a sink in state `st` needs of its timers and of its flag.
abbrev pub timers_fit : SinkState → MilanSink → Bool
timers_fit st s =
    if same st w_resp || same st w_resp2
    then is_set s.last_probe_ts
    else if same st w_retry
    then is_set s.retry_start_ts
    else if same st settled_no_rsv
    then is_set s.settled_no_rsv_ts
    else if same st w_avail
    then not s.talker_avail
    else true

pub tag-shown : (a : SinkState) → tag (shown a) ≡ (if tag a == 0 then 1 else tag a)
tag-shown SinkState.unset = refl
tag-shown unbound = refl
tag-shown w_avail = refl
tag-shown w_delay = refl
tag-shown w_resp = refl
tag-shown w_resp2 = refl
tag-shown w_retry = refl
tag-shown settled_no_rsv = refl
tag-shown settled_rsv_ok = refl

pub is_unbound-tag : (a : SinkState) → is_unbound a ≡ ltb (tag a) 2
is_unbound-tag SinkState.unset = refl
is_unbound-tag unbound = refl
is_unbound-tag w_avail = refl
is_unbound-tag w_delay = refl
is_unbound-tag w_resp = refl
is_unbound-tag w_resp2 = refl
is_unbound-tag w_retry = refl
is_unbound-tag settled_no_rsv = refl
is_unbound-tag settled_rsv_ok = refl

abbrev pub Fits : MilanSink × List Report → Type 0
Fits r = timers_fit r.0.state r.0 ≡ true

module _ (shared : SharedModel) (ts n : ℕ) where
  pub sink_transition-Fits :
      (to : SinkState) (why : SinkWhy) (r : MilanSink × List Report)
      → timers_fit to r.0 ≡ true
      → Fits (sink_transition shared ts n to why r)
  unfolding sink_transition
  sink_transition-Fits to why (s, out) h = ground (arith, tag-shown s.state)

module _ (shared : SharedModel) (v : VarLayerContext) where
  pub on_bind-Fits : (r : MilanSink × List Report) → Fits (on_bind shared v r)
  unfolding on_bind sink_transition
  on_bind-Fits (s, out) = ground (arith, tag-shown s.state)

  pub on_bind_response-Fits :
      (status : ℕ) (r : MilanSink × List Report)
      → Fits r
      → Fits (on_bind_response shared v status r)
  unfolding on_bind_response sink_transition
  on_bind_response-Fits status (s, out) h = ground (arith, tag-shown s.state)

  pub on_unbind-Fits : (r : MilanSink × List Report) → Fits r → Fits (on_unbind shared v r)
  unfolding on_unbind sink_transition
  on_unbind-Fits (s, out) h = ground (arith, tag-shown s.state)

  pub on_probe-Fits : (r : MilanSink × List Report) → Fits (on_probe shared v r)
  unfolding on_probe probe_move sink_transition restore
  on_probe-Fits (s, out) = ground (arith, tag-shown s.state)

  pub on_probe_response-Fits :
      (status : ℕ) (r : MilanSink × List Report)
      → Fits r
      → Fits (on_probe_response shared v status r)
  unfolding on_probe_response settle sink_transition sink_warning
  on_probe_response-Fits status (s, out) h = ground (arith, tag-shown s.state)

module _ (shared : SharedModel) (ts : ℕ) where
  pub tick_sink-Fits :
      (s : MilanSink) (out : List Report) → Fits (s, out) → Fits (tick_sink shared ts s out)
  unfolding tick_sink discover follow_registration run_timers sink_transition sink_warning
  tick_sink-Fits s out h = ground (arith, tag-shown s.state)
