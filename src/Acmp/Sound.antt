-- ===== src/Acmp/Sound.antt =====
-- `milanOnMessage` and `milanTick` of `AcmpLogic` in backend/src/logic/acmp_logic.cpp keep every sink
-- well-formed: on its diagram, with the timers that its state needs.
use avb_introspection.Base.{
  ℕ, ◌≡◌, refl, List, [], none, some, ◌==◌, arith, Dict, AllEntries, AllEntries-insert,
  AllEntries-find, AllEntries-for_values, find, find_or, inl, inr, subst, Option, Bool-cases,
  Option-cases,
}
use avb_introspection.Context.{VarLayerContext}
use avb_introspection.Shared.{SharedModel}
use avb_introspection.Acmp.Types.{
  conn_key, inflight_key, PortKey, port_key, MilanSink, new_sink, Report, SinkState,
}
use avb_introspection.Acmp.Sinks.{tick_sink}
use avb_introspection.Acmp.Messages.{
  Milan, listener_port, with_sink, with_found, with_known_sink, with_talker, milan_on_message,
  milan_tick,
}
use avb_introspection.Acmp.Timers.{
  Fits, on_bind-Fits, on_bind_response-Fits, on_unbind-Fits, on_probe-Fits, on_probe_response-Fits,
  tick_sink-Fits,
}
use avb_introspection.Acmp.Diagram.{DrawnAt, all_drawn}
use avb_introspection.Acmp.Drawing.{
  on_bind-Drawn, on_bind_response-Drawn, on_unbind-Drawn, on_probe-Drawn, on_probe_response-Drawn,
  tick_sink-Drawn,
}

-- A sink on its diagram, with the timers that its state needs.
abbrev pub GoodSink : PortKey → MilanSink × List Report → Type 0
GoodSink port r = DrawnAt port r × Fits r

abbrev pub SinkWf : PortKey → MilanSink → Type 0
SinkWf port s = GoodSink port (s, [])

found-SinkWf :
    (port : PortKey) (m : Dict PortKey MilanSink)
    → AllEntries SinkWf m
    → SinkWf port (record (find_or new_sink port m) { listener = port.0; uid = port.1 })
unfolding all_drawn
found-SinkWf port m h = elim (Option-cases (find port m)) [
  | inl missing ↦
      rw (missing, find_or)
        (
          record {
            own_listener = refl;
            own_uid = refl;
            short = ground arith;
            leads = (SinkState.unbound, refl);
            drawn = refl;
          },
          refl,
        )
  | inr (s, found) ↦
      rw (found, find_or)
        (let g : SinkWf port s = AllEntries-find SinkWf port s m h found in
          (
            record {
              own_listener = refl;
              own_uid = refl;
              short = g.0.short;
              leads = g.0.leads;
              drawn = g.0.drawn;
            },
            g.1,
          ))
]

-- An operation that keeps a good sink good.
abbrev Keeps : PortKey → (MilanSink × List Report → MilanSink × List Report) → Type 0
Keeps port op = (r : MilanSink × List Report) → GoodSink port r → GoodSink port (op r)

with_sink-SinkWf :
    (port : PortKey) (op : MilanSink × List Report → MilanSink × List Report) (m : Milan)
    → Keeps port op
    → AllEntries SinkWf m.sinks
    → AllEntries SinkWf (with_sink port op m).sinks
unfolding with_sink
with_sink-SinkWf port op m keep h =
    AllEntries-insert SinkWf port _ m.sinks (keep (_, m.out) (found-SinkWf port m.sinks h)) h

with_found-SinkWf :
    (port : PortKey) (op : MilanSink × List Report → MilanSink × List Report) (o : Option MilanSink)
    (m : Milan)
    → find port m.sinks ≡ o
    → Keeps port op
    → AllEntries SinkWf m.sinks
    → AllEntries SinkWf (with_found port op o m).sinks
unfolding with_found
with_found-SinkWf port op none m e keep h = h
with_found-SinkWf port op (some s) m e keep h =
    AllEntries-insert SinkWf port _ m.sinks
      (keep (s, m.out) (AllEntries-find SinkWf port s m.sinks h e)) h

with_known_sink-SinkWf :
    (port : PortKey) (op : MilanSink × List Report → MilanSink × List Report) (m : Milan)
    → Keeps port op
    → AllEntries SinkWf m.sinks
    → AllEntries SinkWf (with_known_sink port op m).sinks
unfolding with_known_sink
with_known_sink-SinkWf port op m keep h =
    with_found-SinkWf port op (find port m.sinks) m refl keep h

pub milan_on_message-SinkWf :
    (shared : SharedModel) (v : VarLayerContext) (msg status : ℕ) (m : Milan)
    → AllEntries SinkWf m.sinks
    → AllEntries SinkWf (milan_on_message shared v msg status m).sinks
unfolding milan_on_message with_talker
milan_on_message-SinkWf shared v msg status m h = elim (Bool-cases (msg == 6)) [
  | inl a ↦
      rw a (
        with_sink-SinkWf p _ m (λ r g. (on_bind-Drawn p shared v r g.0, on_bind-Fits shared v r)) h)
  | inr a ↦ rw a (elim (Bool-cases (msg == 7)) [
    | inl b ↦ rw b (
        with_known_sink-SinkWf p _ m
          (λ r g. (
            on_bind_response-Drawn p shared v status r g.0,
            on_bind_response-Fits shared v status r g.1,
          ))
          h)
    | inr b ↦ rw b (elim (Bool-cases (msg == 8)) [
      | inl c ↦ rw c (
          with_sink-SinkWf p _ m
            (λ r g. (on_unbind-Drawn p shared v r g.0, on_unbind-Fits shared v r g.1)) h)
      | inr c ↦ rw c (elim (Bool-cases (msg == 0)) [
        | inl d ↦ rw d (
            with_sink-SinkWf p _ _
              (λ r g. (on_probe-Drawn p shared v r g.0, on_probe-Fits shared v r)) h)
        | inr d ↦ rw d (elim (Bool-cases (msg == 1)) [
          | inl e ↦ rw e (
              with_known_sink-SinkWf p _ _
                (λ r g. (
                  on_probe_response-Drawn p shared v status r g.0,
                  on_probe_response-Fits shared v status r g.1,
                ))
                h)
          | inr e ↦ rw e (subst (AllEntries SinkWf) (ground arith) h)
        ])
      ])
    ])
  ])
]
  where
    p : PortKey
    p = listener_port v

pub milan_tick-SinkWf :
    (shared : SharedModel) (ts : ℕ) (m : Milan)
    → AllEntries SinkWf m.sinks
    → AllEntries SinkWf (milan_tick shared ts m).sinks
unfolding milan_tick
milan_tick-SinkWf shared ts m h =
    AllEntries-for_values SinkWf (tick_sink shared ts) m.sinks m.out
      (λ port s out g.
        (tick_sink-Drawn port shared ts s out g.0, tick_sink-Fits shared ts s out g.1))
      h
