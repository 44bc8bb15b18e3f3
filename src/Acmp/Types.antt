-- ===== src/Acmp/Types.antt =====
-- The data of `AcmpLogic` in backend/src/logic/acmp_logic.cpp: connections, Milan listener sinks and
-- talker records, and what is reported of them. The texts "" of the two states are `unset`.
use avb_introspection.Base.{
  ℕ, Bool, false, Option, none, List, [], String, ℕ_discrete, Key, discrete_key, HistEntry,
  Transition,
}

-- Talker, talker's unique id, listener, listener's unique id.
abbrev pub ConnKey : Type 0
ConnKey = ℕ × ℕ × ℕ × ℕ

pub conn_key_discrete : Discrete ConnKey
conn_key_discrete = hlevel ℕ_discrete

instance abbrev pub conn_key : Key ConnKey
conn_key = discrete_key conn_key_discrete

-- Command, sequence id, connection.
abbrev pub InflightKey : Type 0
InflightKey = ℕ × ℕ × ConnKey

pub inflight_key_discrete : Discrete InflightKey
inflight_key_discrete = hlevel ℕ_discrete

instance abbrev pub inflight_key : Key InflightKey
inflight_key = discrete_key inflight_key_discrete

-- An entity and its unique id.
abbrev pub PortKey : Type 0
PortKey = ℕ × ℕ

pub port_key_discrete : Discrete PortKey
port_key_discrete = hlevel ℕ_discrete

instance abbrev pub port_key : Key PortKey
port_key = discrete_key port_key_discrete

pub data ConnState : Type 0 where
  unset disconnected connecting connected disconnecting failed : ConnState

-- The place of a state in the list, by which states are compared.
abbrev pub conn_tag : ConnState → ℕ
conn_tag ConnState.unset = 0
conn_tag disconnected = 1
conn_tag connecting = 2
conn_tag connected = 3
conn_tag disconnecting = 4
conn_tag failed = 5

pub data ConnWhy : Type 0 where
  command_from : ℕ → ℕ → ConnWhy
  fast_connect rx_success : ConnWhy
  tx_failed rx_failed : ℕ → ConnWhy
  command disconnect_success command_timed_out assumed_disconnected : ℕ → ConnWhy
  disconnect_rejected : ℕ → ℕ → ConnWhy

pub record Conn : Type 0 where
  pub key : ConnKey
  pub controller : ℕ
  pub stream_id : ℕ
  pub dest_mac : ℕ
  pub vlan : ℕ
  pub conn_count : ℕ
  pub state : ConnState
  pub hist : List (HistEntry ConnState ConnWhy)

abbrev pub new_conn : Conn
new_conn = record {
  key = (0, 0, 0, 0);
  controller = 0;
  stream_id = 0;
  dest_mac = 0;
  vlan = 0;
  conn_count = 0;
  state = unset;
  hist = [];
}

-- `sentTs` and the packet number of a command in flight.
pub record Inflight : Type 0 where
  pub sent_ts : ℕ
  pub n : ℕ

-- The states of the Milan listener sink; "PRB_W_" is `w_`.
pub data SinkState : Type 0 where
  unset unbound w_avail w_delay w_resp w_resp2 w_retry settled_no_rsv settled_rsv_ok : SinkState

-- The place of a state in the list, by which states are compared.
abbrev pub tag : SinkState → ℕ
tag SinkState.unset = 0
tag unbound = 1
tag w_avail = 2
tag w_delay = 3
tag w_resp = 4
tag w_resp2 = 5
tag w_retry = 6
tag settled_no_rsv = 7
tag settled_rsv_ok = 8

pub data SinkWhy : Type 0 where
  bind_received : ℕ → Bool → SinkWhy
  bind_rejected probe_failed unbind_received : ℕ → SinkWhy
  second_probe : ℕ → SinkWhy
  retry_expired : SinkWhy
  probe_restored probe_discovered probe_delayed probe_sent : ℕ → SinkWhy
  probe_succeeded : ℕ → SinkWhy
  already_registered tk_registered tk_unregistered tk_discovered : SinkWhy
  tk_departed : ℕ → SinkWhy
  no_resp_twice no_second_probe retry_overdue no_tk : SinkWhy

pub record MilanSink : Type 0 where
  pub listener : ℕ
  pub uid : ℕ
  pub state : SinkState
  pub bound_talker : ℕ
  pub controller : ℕ
  pub bound_talker_uid : ℕ
  pub stream_id : ℕ
  pub dest_mac : ℕ
  pub vlan : ℕ
  pub probes : ℕ
  pub last_probe_ts : Option ℕ
  pub retry_start_ts : Option ℕ
  pub settled_no_rsv_ts : Option ℕ
  pub talker_avail : Bool
  pub retry_warned : Bool
  pub hist : List (HistEntry SinkState SinkWhy)

abbrev pub new_sink : MilanSink
new_sink = record {
  listener = 0;
  uid = 0;
  state = unset;
  bound_talker = 0;
  controller = 0;
  bound_talker_uid = 0;
  stream_id = 0;
  dest_mac = 0;
  vlan = 0;
  probes = 0;
  last_probe_ts = none;
  retry_start_ts = none;
  settled_no_rsv_ts = none;
  talker_avail = false;
  retry_warned = false;
  hist = [];
}

-- Milan talkers keep no state: the one state is "STATELESS".
pub data TalkerState : Type 0 where
  stateless : TalkerState

pub data TalkerWhy : Type 0 where
  disconnect_refused : ℕ → TalkerWhy
  get_tx_connection_seen : TalkerWhy

pub record MilanTalker : Type 0 where
  pub talker : ℕ
  pub uid : ℕ
  pub probes_received : ℕ
  pub probe_responses : ℕ
  pub disconnect_tx : ℕ
  pub get_tx_connection : ℕ
  pub last_status : ℕ
  pub stream_id : ℕ
  pub hist : List (HistEntry TalkerState TalkerWhy)

abbrev pub new_talker : MilanTalker
new_talker = record {
  talker = 0;
  uid = 0;
  probes_received = 0;
  probe_responses = 0;
  disconnect_tx = 0;
  get_tx_connection = 0;
  last_status = 0;
  stream_id = 0;
  hist = [];
}

-- One reported transition; that of a connection has the talker's name beside the listener's.
pub data Report : Type 0 where
  conn : String → Transition ConnKey ConnState ConnWhy → Report
  sink : Transition PortKey SinkState SinkWhy → Report
  talker : Transition PortKey TalkerState TalkerWhy → Report
