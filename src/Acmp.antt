-- ===== src/Acmp.antt =====
-- ACMP: `AcmpLogic` of backend/src/logic/acmp_logic.cpp.
-- `on_decode` and `on_time_tick` are `onDecode` and `onTimeTick`, the fields of `World` the class's maps
-- and the transitions not yet drained. Times are nanoseconds. A shared model is always attached, as the
-- engine does.
pub mod Types
pub mod Connections
pub mod Sinks
pub mod Messages
pub mod Timers
pub mod Tick
pub mod Diagram
pub mod Drawing
pub mod Traces
pub mod Timeouts
pub mod Sound
pub mod Run
mod Tests
use avb_introspection.Base.{
  ℕ, ◌+◌, ◌-◌, ◌%◌, ◌^◌, List, [], ◌∷◌, ltb, ◌==◌, if◌then◌else◌, Dict, find_or, insert, erase,
}
use avb_introspection.Context.{VarLayerContext, at, ts_of, num_of}
use avb_introspection.Shared.{SharedModel}
use avb_introspection.Acmp.Types.{
  ConnKey, conn_key, Conn, new_conn, InflightKey, inflight_key, Inflight, Report,
}
use avb_introspection.Acmp.Messages.{Milan, milan_on_message, milan_tick}

pub record World : Type 0 where
  pub inflight : Dict InflightKey Inflight
  pub conns : Dict ConnKey Conn
  pub milan : Milan

-- 200 ms.
abbrev pub acmp_timeout : ℕ
acmp_timeout = 200000000

abbrev pub message_of : VarLayerContext → ℕ
message_of v = at v "message_type" % 2 ^ 8

abbrev pub status_of : VarLayerContext → ℕ
status_of v = at v "status" % 2 ^ 8

abbrev pub sequence_of : VarLayerContext → ℕ
sequence_of v = at v "sequence_id" % 2 ^ 16

abbrev pub key_of : VarLayerContext → ConnKey
key_of v = (
  at v "talker_entity_id",
  at v "talker_unique_id" % 2 ^ 16,
  at v "listener_entity_id",
  at v "listener_unique_id" % 2 ^ 16,
)

-- `mConns[key]` with its key, state and controller set.
unfoldable pub open_conn : VarLayerContext → Dict ConnKey Conn → Conn
open_conn v conns =
    let c = find_or new_conn (key_of v) conns in
    record c {
      key = key_of v;
      state = Connections.shown c.state;
      controller = at v "controller_entity_id";
    }

-- A command is put in flight, a response takes its command out.
unfoldable pub note_inflight :
    VarLayerContext → Dict InflightKey Inflight → Dict InflightKey Inflight
note_inflight v inflight =
    let msg = message_of v in
    if msg % 2 == 0
    then insert (msg, sequence_of v, key_of v) (record { sent_ts = ts_of v; n = num_of v }) inflight
    else erase (msg - 1, sequence_of v, key_of v) inflight

unfoldable pub on_decode : SharedModel → VarLayerContext → World → World
on_decode shared v w =
    let milan = milan_on_message shared v (message_of v) (status_of v) w.milan in
    let (c, out) =
      Connections.react shared v (message_of v) (status_of v) (open_conn v w.conns, milan.out) in
    record {
      inflight = note_inflight v w.inflight;
      conns = insert (key_of v) c w.conns;
      milan = record milan { out = out };
    }

-- What the loop of `onTimeTick` works on beside the commands in flight.
pub record Expiring : Type 0 where
  pub conns : Dict ConnKey Conn
  pub out : List Report

module _ (shared : SharedModel) (ts : ℕ) where
  unfoldable pub time_out : InflightKey → Expiring → Expiring
  time_out (cmd, _, key) t =
      let (c, out) = Connections.on_timeout shared ts cmd (find_or new_conn key t.conns, t.out) in
      record { conns = insert key c t.conns; out = out }

  -- The loop of `onTimeTick`: the commands that stay in flight, and what the others did.
  unfoldable pub sweep_inflight :
      Dict InflightKey Inflight → Expiring → Dict InflightKey Inflight × Expiring
  sweep_inflight [] t = ([], t)
  sweep_inflight ((key, f) ∷ rest) t =
      let late = ltb (f.sent_ts + acmp_timeout) ts in
      let (kept, t') = sweep_inflight rest (if late then time_out key t else t) in
      (if late then kept else (key, f) ∷ kept, t')

unfoldable pub on_time_tick : SharedModel → ℕ → World → World
on_time_tick shared ts w =
    let milan = milan_tick shared ts w.milan in
    let (kept, t) =
      sweep_inflight shared ts w.inflight (record { conns = w.conns; out = milan.out }) in
    record { inflight = kept; conns = t.conns; milan = record milan { out = t.out } }
