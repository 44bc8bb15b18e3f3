-- ===== src/Acmp/Connections.antt =====
-- The connection state of `AcmpLogic` in backend/src/logic/acmp_logic.cpp: `transition`, the `switch`
-- of `onDecode`, and what a command's timeout does.
use avb_introspection.Base.{
  ℕ, ◌%◌, ◌^◌, Bool, ◌||◌, none, some, List, [], ◌∷◌, ◌++◌, ◌==◌, if◌then◌else◌, HistEntry,
  Transition,
}
use avb_introspection.Context.{VarLayerContext, at, ts_of, num_of}
use avb_introspection.Shared.{SharedModel, name_of}
use avb_introspection.Acmp.Types.{
  Conn, ConnKey, ConnState, conn_tag, ConnWhy, Report, disconnected, connecting, connected,
  disconnecting, failed, command_from, fast_connect, rx_success, tx_failed, rx_failed, command,
  disconnect_success, command_timed_out, assumed_disconnected, disconnect_rejected,
}

abbrev pub shown : ConnState → ConnState
shown ConnState.unset = disconnected
shown s = s

abbrev pub same : ConnState → ConnState → Bool
same a b = conn_tag a == conn_tag b

unfoldable pub transition :
    SharedModel → ℕ → ℕ → ConnState → ConnWhy → Conn × List Report → Conn × List Report
transition shared ts n to why (c, out) =
    let from = shown c.state in
    let entry : HistEntry ConnState ConnWhy = record {
      ts = ts;
      n = n;
      from = from;
      to = to;
      why = why;
    } in
    let report : Transition ConnKey ConnState ConnWhy = record {
      object = c.key;
      from = from;
      to = to;
      why = why;
      name = name_of c.key.2 shared;
      stream = if c.stream_id == 0 then none else some c.stream_id;
    } in
    if same from to then (c, out) else (
      record c { state = to; hist = c.hist ++ entry ∷ [] },
      out ++ Report.conn (name_of c.key.0 shared) report ∷ [],
    )

-- The stream that a successful response names.
unfoldable pub learn_stream : VarLayerContext → Conn → Conn
learn_stream v c = record c {
  stream_id = at v "stream_id";
  dest_mac = at v "stream_dest_mac";
  vlan = at v "stream_vlan_id" % 2 ^ 16;
}

module _ (shared : SharedModel) (v : VarLayerContext) where
  unfoldable pub moves : ConnState → ConnWhy → Conn × List Report → Conn × List Report
  moves = transition shared (ts_of v) (num_of v)

  -- CONNECT_TX_COMMAND (0), CONNECT_RX_COMMAND (6).
  unfoldable pub on_connect : ℕ → Conn × List Report → Conn × List Report
  on_connect msg (c, out) =
      if same c.state connecting || same c.state connected
      then (c, out)
      else moves connecting (command_from msg c.controller) (c, out)

  -- CONNECT_TX_RESPONSE (1).
  unfoldable pub on_tx_response : ℕ → Conn × List Report → Conn × List Report
  on_tx_response status (c, out) =
      if status == 0
      then if same c.state connected || same c.state connecting
        then (learn_stream v c, out)
        else moves connecting fast_connect (learn_stream v c, out)
      else moves failed (tx_failed status) (c, out)

  -- CONNECT_RX_RESPONSE (7).
  unfoldable pub on_rx_response : ℕ → Conn × List Report → Conn × List Report
  on_rx_response status (c, out) =
      let c' = record (learn_stream v c) { conn_count = at v "connection_count" % 2 ^ 16 } in
      if status == 0
      then moves connected rx_success (c', out)
      else moves failed (rx_failed status) (c, out)

  -- DISCONNECT_TX_COMMAND (2), DISCONNECT_RX_COMMAND (8).
  unfoldable pub on_disconnect : ℕ → Conn × List Report → Conn × List Report
  on_disconnect msg (c, out) =
      if same c.state disconnected then (c, out) else moves disconnecting (command msg) (c, out)

  -- DISCONNECT_TX_RESPONSE (3), DISCONNECT_RX_RESPONSE (9).
  unfoldable pub on_disconnected : ℕ → ℕ → Conn × List Report → Conn × List Report
  on_disconnected msg status (c, out) =
      let counted = record c { conn_count = at v "connection_count" % 2 ^ 16 } in
      if status == 0
      then if same c.state disconnected
        then (c, out)
        else moves disconnected (disconnect_success msg) (if msg == 9 then counted else c, out)
      else if same c.state disconnecting
      then moves connected (disconnect_rejected msg status) (c, out)
      else (c, out)

  -- The `switch` of `onDecode`.
  unfoldable pub react : ℕ → ℕ → Conn × List Report → Conn × List Report
  react msg status q =
      if (msg == 0) || (msg == 6)
      then on_connect msg q
      else if msg == 1
      then on_tx_response status q
      else if msg == 7
      then on_rx_response status q
      else if (msg == 2) || (msg == 8)
      then on_disconnect msg q
      else if (msg == 3) || (msg == 9)
      then on_disconnected msg status q
      else q

-- A command that nobody answered in time.
unfoldable pub on_timeout : SharedModel → ℕ → ℕ → Conn × List Report → Conn × List Report
on_timeout shared ts cmd (c, out) =
    if (cmd == 0) || (cmd == 6)
    then if same c.state connecting
      then transition shared ts 0 failed (command_timed_out cmd) (c, out)
      else (c, out)
    else if (cmd == 2) || (cmd == 8)
    then if same c.state disconnecting
      then transition shared ts 0 disconnected (assumed_disconnected cmd) (c, out)
      else (c, out)
    else (c, out)
