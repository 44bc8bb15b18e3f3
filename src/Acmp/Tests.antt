-- ===== src/Acmp/Tests.antt =====
-- The ACMP theorems at concrete inputs.
use avb_introspection.Base.{◌≡◌, true, false, [], ◌∷◌, AllEntries, string_key}
use avb_introspection.Context.{VarLayerContext}
use avb_introspection.Shared.{new_model}
use avb_introspection.Acmp.{World, on_time_tick}
use avb_introspection.Acmp.Types.{ConnKey, inflight_key, new_conn, connecting}
use avb_introspection.Acmp.Run.{IsWf, decodes, ticks, run, run_keeps-IsWf}
use avb_introspection.Acmp.Tick.{
  is_in_step, is_overdue, on_time_tick-sinks_in_step, on_time_tick-sinks_in_time,
}
use avb_introspection.Acmp.Timeouts.{
  has_late, after_timeouts, conn_state_at, on_time_tick-conn_state,
}

abbrev start : World
start = record { inflight = []; conns = []; milan = record { sinks = []; talkers = []; out = [] } }

start-IsWf : IsWf start
start-IsWf = record { sinks = tt; conns = tt }

-- Listener 7 asks talker 5 for a stream at 1 s, and talker 5 answers.
abbrev probe : VarLayerContext
probe = record {
  vars =
      ("ts_ns", 1000000000)
      ∷ ("message_type", 0)
      ∷ ("sequence_id", 3)
      ∷ ("talker_entity_id", 5)
      ∷ ("listener_entity_id", 7)
      ∷ [];
  bytes = [];
}

abbrev answer : VarLayerContext
answer = record {
  vars =
      ("ts_ns", 1001000000)
      ∷ ("message_type", 1)
      ∷ ("sequence_id", 3)
      ∷ ("talker_entity_id", 5)
      ∷ ("listener_entity_id", 7)
      ∷ ("stream_id", 99)
      ∷ [];
  bytes = [];
}

run_keeps-IsWf_example : IsWf (
    run start
      (decodes new_model probe ∷ decodes new_model answer ∷ ticks new_model 12000000000 ∷ []))
run_keeps-IsWf_example =
    run_keeps-IsWf start
      (decodes new_model probe ∷ decodes new_model answer ∷ ticks new_model 12000000000 ∷ [])
      start-IsWf

abbrev probed : World
probed = run start (decodes new_model probe ∷ [])

on_time_tick-sinks_in_step_example :
    AllEntries
      (λ port s. is_in_step new_model s ≡ true)
      (on_time_tick new_model 3000000000 probed).milan.sinks
on_time_tick-sinks_in_step_example =
    on_time_tick-sinks_in_step new_model 3000000000 probed
      (run_keeps-IsWf start (decodes new_model probe ∷ []) start-IsWf)

on_time_tick-sinks_in_time_example :
    AllEntries
      (λ port s. is_overdue 3000000000 s ≡ false)
      (on_time_tick new_model 3000000000 probed).milan.sinks
on_time_tick-sinks_in_time_example = on_time_tick-sinks_in_time new_model 3000000000 probed

-- A connection that is CONNECTING, and its command of 1 s in flight.
abbrev link : ConnKey
link = (5, 0, 7, 0)

abbrev waiting : World
waiting = record start {
  inflight = ((0, 3, link), record { sent_ts = 1000000000; n = 1 }) ∷ [];
  conns = (link, record new_conn { key = link; state = connecting }) ∷ [];
}

on_time_tick-conn_state_example :
    conn_state_at link (on_time_tick new_model 1300000000 waiting).conns
    ≡ after_timeouts
        (has_late 1300000000 0 6 link waiting.inflight)
        (has_late 1300000000 2 8 link waiting.inflight)
        (conn_state_at link waiting.conns)
on_time_tick-conn_state_example = on_time_tick-conn_state new_model 1300000000 waiting link
