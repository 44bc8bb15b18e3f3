-- ===== src/Acmp/Run.antt =====
-- Any run of `AcmpLogic` of backend/src/logic/acmp_logic.cpp keeps its sinks and connections well-formed.
use avb_introspection.Base.{
  ℕ, ◌+◌, ◌≡◌, refl, List, [], ◌∷◌, ltb, Dict, AllEntries, AllEntries-insert, AllEntries-find_or,
  find_or, inl, inr, ◌⊎◌, Bool-cases,
}
use avb_introspection.Context.{VarLayerContext}
use avb_introspection.Shared.{SharedModel}
use avb_introspection.Acmp.{
  World, Expiring, Inflight, acmp_timeout, message_of, status_of, key_of, open_conn, time_out,
  sweep_inflight, on_decode, on_time_tick,
}
use avb_introspection.Acmp.Types.{
  ConnKey, conn_key, Conn, new_conn, ConnState, disconnected, connecting, connected, disconnecting,
  failed, InflightKey, inflight_key, port_key, Report,
}
use avb_introspection.Acmp.Connections.{on_timeout, shown}
use avb_introspection.Acmp.Messages.{milan_on_message}
use avb_introspection.Acmp.Traces.{
  Traced, TracedAt, react-Traced, on_timeout-Traced, on_timeout_unset,
}
use avb_introspection.Acmp.Sound.{SinkWf, milan_on_message-SinkWf, milan_tick-SinkWf}

-- A connection that no message has opened, or one whose history leads to its state.
abbrev pub ConnWf : ConnKey → Conn → Type 0
ConnWf key c = ((c.state ≡ ConnState.unset) × (c.hist ≡ [])) ⊎ Traced key c.key c.state c.hist

shown-shown : (a : ConnState) → shown (shown a) ≡ shown a
shown-shown ConnState.unset = refl
shown-shown disconnected = refl
shown-shown connecting = refl
shown-shown connected = refl
shown-shown disconnecting = refl
shown-shown failed = refl

found-Traced :
    (v : VarLayerContext) (m : Dict ConnKey Conn) (out : List Report)
    → AllEntries ConnWf m
    → TracedAt (key_of v) (open_conn v m, out)
unfolding open_conn
found-Traced v m out h =
    opened (find_or new_conn (key_of v) m)
      (AllEntries-find_or ConnWf new_conn (key_of v) m (inl (refl, refl)) h)
  where
    opened : (c : Conn) → ConnWf (key_of v) c → Traced (key_of v) (key_of v) (shown c.state) c.hist
    opened c (inl (e, blank)) = record { own_key = refl; linked = rw (e, blank) refl }
    opened c (inr g) = record { own_key = refl; linked = rw (shown-shown c.state) g.linked }

on_timeout-ConnWf :
    (shared : SharedModel) (ts cmd : ℕ) (key : ConnKey) (c : Conn) (out : List Report)
    → ConnWf key c
    → ConnWf key (on_timeout shared ts cmd (c, out)).0
on_timeout-ConnWf shared ts cmd key c out (inl u) =
    rw (on_timeout_unset shared ts cmd c out u.0) (inl u)
on_timeout-ConnWf shared ts cmd key c out (inr g) =
    inr (on_timeout-Traced key shared ts cmd (c, out) g)

sweep_inflight-ConnWf :
    (shared : SharedModel) (ts : ℕ) (m : Dict InflightKey Inflight) (t : Expiring)
    → AllEntries ConnWf t.conns
    → AllEntries ConnWf (sweep_inflight shared ts m t).1.conns
unfolding sweep_inflight time_out
sweep_inflight-ConnWf shared ts [] t h = h
sweep_inflight-ConnWf shared ts (((cmd, seq, key), f) ∷ m) t h =
    elim (Bool-cases (ltb (f.sent_ts + acmp_timeout) ts)) [
      | inl late ↦ rw late (
          sweep_inflight-ConnWf shared ts m _ (
            AllEntries-insert ConnWf key _ t.conns
              (on_timeout-ConnWf shared ts cmd key _ t.out
                (AllEntries-find_or ConnWf new_conn key t.conns (inl (refl, refl)) h))
              h))
      | inr young ↦ rw young (sweep_inflight-ConnWf shared ts m t h)
    ]

-- The sinks and the connections are well-formed.
pub record IsWf (w : World) : Type 0 where
  pub sinks : AllEntries SinkWf w.milan.sinks
  pub conns : AllEntries ConnWf w.conns

on_decode-IsWf :
    (shared : SharedModel) (v : VarLayerContext) (w : World) → IsWf w → IsWf (on_decode shared v w)
unfolding on_decode
on_decode-IsWf shared v w h = record {
  sinks = milan_on_message-SinkWf shared v (message_of v) (status_of v) w.milan h.sinks;
  conns =
      AllEntries-insert ConnWf (key_of v) _ w.conns
        (inr (
          react-Traced (key_of v) shared v (message_of v) (status_of v) (open_conn v w.conns, out)
            (found-Traced v w.conns out h.conns)))
        h.conns;
}
  where
    out : List Report
    out = (milan_on_message shared v (message_of v) (status_of v) w.milan).out

on_time_tick-IsWf :
    (shared : SharedModel) (ts : ℕ) (w : World) → IsWf w → IsWf (on_time_tick shared ts w)
unfolding on_time_tick
on_time_tick-IsWf shared ts w h = record {
  sinks = milan_tick-SinkWf shared ts w.milan h.sinks;
  conns = sweep_inflight-ConnWf shared ts w.inflight _ h.conns;
}

-- A call of the module, with the shared model as the other modules have left it.
pub data Call : Type 0 where
  decodes : SharedModel → VarLayerContext → Call
  ticks : SharedModel → ℕ → Call

unfoldable pub step : World → Call → World
step w (decodes shared v) = on_decode shared v w
step w (ticks shared ts) = on_time_tick shared ts w

unfoldable pub run : World → List Call → World
run w [] = w
run w (c ∷ cs) = run (step w c) cs

step-IsWf : (w : World) (c : Call) → IsWf w → IsWf (step w c)
unfolding step
step-IsWf w (decodes shared v) h = on_decode-IsWf shared v w h
step-IsWf w (ticks shared ts) h = on_time_tick-IsWf shared ts w h

-- Any messages and time ticks, whatever the shared model holds at each, keep the module well-formed.
-- Every Milan sink bears the ids of its port; its history has at most 200 entries, leads to its state,
-- and takes only the steps of the diagram (PRB_W_RESP2 only from PRB_W_RESP, PRB_W_RETRY only from
-- those two, SETTLED_RSV_OK only from SETTLED_NO_RSV); each state that waits has its timer set, and the
-- talker's flag is down in PRB_W_AVAIL. Every connection that a message has opened bears its key, and
-- its history leads from DISCONNECTED to its state without a gap.
pub run_keeps-IsWf : (w : World) (cs : List Call) → IsWf w → IsWf (run w cs)
unfolding run
run_keeps-IsWf w [] h = h
run_keeps-IsWf w (c ∷ cs) h = run_keeps-IsWf (step w c) cs (step-IsWf w c h)
