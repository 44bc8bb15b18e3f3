-- ===== src/Acmp/Drawing.antt =====
-- `milanOnMessage` and `milanTick` of `AcmpLogic` in backend/src/logic/acmp_logic.cpp keep a sink's
-- history on its diagram.
use avb_introspection.Base.{ℕ, ◌≡◌, refl, ◌&&◌, not, List, ◌==◌, inl, inr, Bool-cases, arith}
use avb_introspection.Context.{VarLayerContext, at, ts_of}
use avb_introspection.Shared.{SharedModel}
use avb_introspection.Acmp.Types.{
  PortKey, tag, w_avail, w_delay, w_resp, w_resp2, w_retry, settled_no_rsv, settled_rsv_ok, unbound,
  MilanSink, Report,
}
use avb_introspection.Acmp.Sinks.{
  same, is_unbound, is_past, is_within, sink_transition, talker_available, talker_attr_registered,
  on_bind, on_bind_response, on_unbind, on_probe, probe_move, restore, settle, on_probe_response,
  departs, discover, follow_registration, run_timers, tick_sink, resp2_timeout, resp_timeout,
  no_tk_timeout, second_probe_window, retry_timeout,
}
use avb_introspection.Acmp.Timers.{tag-shown}
use avb_introspection.Acmp.Diagram.{DrawnAt, sink_transition-Drawn, sink_warning-Drawn}

module _ (port : PortKey) where
  module _ (shared : SharedModel) (v : VarLayerContext) where
    pub on_bind-Drawn :
        (r : MilanSink × List Report) → DrawnAt port r → DrawnAt port (on_bind shared v r)
    unfolding on_bind
    on_bind-Drawn (s, out) g =
        elim (Bool-cases (talker_available shared (at v "talker_entity_id"))) [
          | inl avail ↦
              rw avail (sink_transition-Drawn port shared _ _ w_delay _ (_, out) refl refl g)
          | inr gone ↦
              rw gone (sink_transition-Drawn port shared _ _ w_avail _ (_, out) refl refl g)
        ]

    pub on_bind_response-Drawn :
        (status : ℕ) (r : MilanSink × List Report)
        → DrawnAt port r
        → DrawnAt port (on_bind_response shared v status r)
    unfolding on_bind_response
    on_bind_response-Drawn status (s, out) g = elim (Bool-cases (status == 0)) [
      | inl ok ↦ rw ok g
      | inr refused ↦
          rw refused (sink_transition-Drawn port shared _ _ unbound _ (s, out) refl refl g)
    ]

    pub on_unbind-Drawn :
        (r : MilanSink × List Report) → DrawnAt port r → DrawnAt port (on_unbind shared v r)
    unfolding on_unbind
    on_unbind-Drawn (s, out) g =
        sink_transition-Drawn port shared _ _ unbound _ (s, out) refl refl g

    restore-Drawn :
        (s : MilanSink) (out : List Report)
        → DrawnAt port (s, out)
        → DrawnAt port (restore shared v s, out)
    unfolding restore
    restore-Drawn s out g = elim (Bool-cases (is_unbound s.state)) [
      | inl fresh ↦ rw fresh g
      | inr known ↦ rw known g
    ]

    probe_move-Drawn :
        (r : MilanSink × List Report) → DrawnAt port r → DrawnAt port (probe_move shared v r)
    unfolding probe_move
    probe_move-Drawn (s, out) g =
        elim (Bool-cases
          (same s.state w_resp && is_within s.last_probe_ts second_probe_window (ts_of v))) [
            | inl second ↦ rw second (
                sink_transition-Drawn port shared _ _ w_resp2 _ (s, out) refl
                  (ground (arith, tag-shown s.state)) g)
            | inr first ↦ rw first (elim (Bool-cases (same s.state w_retry)) [
              | inl retry ↦
                  rw retry (sink_transition-Drawn port shared _ _ w_resp _ (_, out) refl refl g)
              | inr new ↦ rw new (
                  sink_transition-Drawn port shared _ _ w_resp _ (restore shared v s, out) refl refl
                    (restore-Drawn s out g))
            ])
          ]

    pub on_probe-Drawn :
        (r : MilanSink × List Report) → DrawnAt port r → DrawnAt port (on_probe shared v r)
    unfolding on_probe
    on_probe-Drawn (s, out) g = probe_move-Drawn (_, out) g

    settle-Drawn : (r : MilanSink × List Report) → DrawnAt port r → DrawnAt port (settle shared v r)
    unfolding settle
    settle-Drawn (s, out) g =
        sink_transition-Drawn port shared _ _ settled_no_rsv _ (_, out) refl refl g

    settle-state :
        (r : MilanSink × List Report) → tag (settle shared v r).0.state ≡ tag settled_no_rsv
    unfolding settle sink_transition
    settle-state (s, out) = ground (arith, tag-shown s.state)

    pub on_probe_response-Drawn :
        (status : ℕ) (r : MilanSink × List Report)
        → DrawnAt port r
        → DrawnAt port (on_probe_response shared v status r)
    unfolding on_probe_response
    on_probe_response-Drawn status r g = elim (Bool-cases (status == 0)) [
      | inl ok ↦ rw ok (elim (Bool-cases (talker_attr_registered shared (at v "stream_id"))) [
        | inl reg ↦ rw reg (
            sink_transition-Drawn port shared _ _ settled_rsv_ok _ (settle shared v r) refl
              (ground (arith, settle-state r, tag-shown (settle shared v r).0.state))
              (settle-Drawn r g))
        | inr unknown ↦ rw unknown (settle-Drawn r g)
      ])
      | inr failed ↦ rw failed (sink_warning-Drawn port _ _ _ r g)
    ]

  module _ (shared : SharedModel) (ts : ℕ) where
    discover-Drawn :
        (r : MilanSink × List Report) → DrawnAt port r → DrawnAt port (discover shared ts r)
    unfolding discover
    discover-Drawn (s, out) g =
        elim (Bool-cases (not s.talker_avail && talker_available shared s.bound_talker)) [
          | inl found ↦ rw found (elim (Bool-cases (same s.state w_avail)) [
            | inl waits ↦
                rw waits (sink_transition-Drawn port shared ts 0 w_delay _ (_, out) refl refl g)
            | inr other ↦ rw other g
          ])
          | inr not_found ↦ rw not_found g
        ]

    follow_registration-Drawn :
        (r : MilanSink × List Report)
        → DrawnAt port r
        → DrawnAt port (follow_registration shared ts r)
    unfolding follow_registration
    follow_registration-Drawn (s, out) g = elim (Bool-cases (s.stream_id == 0)) [
      | inl zero ↦ rw zero g
      | inr stream ↦
          rw stream
            (elim (Bool-cases
              (same s.state settled_no_rsv && talker_attr_registered shared s.stream_id)) [
                | inl reg ↦ rw reg (
                    sink_transition-Drawn port shared ts 0 settled_rsv_ok _ (s, out) refl
                      (ground (arith, tag-shown s.state)) g)
                | inr other ↦
                    rw other
                      (elim (Bool-cases (
                        same s.state settled_rsv_ok
                        && not (talker_attr_registered shared s.stream_id))) [
                          | inl unreg ↦ rw unreg (
                              sink_transition-Drawn port shared ts 0 settled_no_rsv _ (_, out) refl
                                refl g)
                          | inr same_as ↦ rw same_as g
                        ])
              ])
    ]

    run_timers-Drawn :
        (r : MilanSink × List Report) → DrawnAt port r → DrawnAt port (run_timers shared ts r)
    unfolding run_timers
    run_timers-Drawn (s, out) g =
        elim (Bool-cases (same s.state w_resp2 && is_past s.last_probe_ts resp2_timeout ts)) [
          | inl twice ↦ rw twice (
              sink_transition-Drawn port shared ts 0 w_retry _ (_, out) refl
                (ground (arith, tag-shown s.state)) g)
          | inr a ↦
              rw a
                (elim (Bool-cases
                  (same s.state w_resp && is_past s.last_probe_ts resp_timeout ts)) [
                    | inl once ↦ rw once (
                        sink_transition-Drawn port shared ts 0 w_retry _ (_, out) refl
                          (ground (arith, tag-shown s.state)) g)
                    | inr b ↦
                        rw b
                          (elim (Bool-cases (
                            same s.state w_retry
                            && (not s.retry_warned && is_past s.retry_start_ts retry_timeout ts))) [
                              | inl late ↦ rw late (sink_warning-Drawn port ts 0 _ (_, out) g)
                              | inr c ↦
                                  rw c
                                    (elim (Bool-cases (
                                      same s.state settled_no_rsv
                                      && is_past s.settled_no_rsv_ts no_tk_timeout ts)) [
                                        | inl alone ↦ rw alone (
                                            sink_transition-Drawn port shared ts 0 w_delay _
                                              (s, out) refl refl g)
                                        | inr d ↦ rw d g
                                      ])
                            ])
                  ])
        ]

    pub tick_sink-Drawn :
        (s : MilanSink) (out : List Report)
        → DrawnAt port (s, out)
        → DrawnAt port (tick_sink shared ts s out)
    unfolding tick_sink
    tick_sink-Drawn s out g = elim (Bool-cases (is_unbound s.state)) [
      | inl idle ↦ rw idle g
      | inr bound ↦ rw bound (elim (Bool-cases (departs shared s)) [
        | inl gone ↦ rw gone (sink_transition-Drawn port shared ts 0 w_avail _ (_, out) refl refl g)
        | inr here ↦
            rw here (run_timers-Drawn _ (follow_registration-Drawn _ (discover-Drawn (s, out) g)))
      ])
    ]
