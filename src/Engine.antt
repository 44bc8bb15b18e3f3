-- ===== src/Engine.antt =====
-- The state pass of an analysis: `AnalysisState` of backend/src/engine/session.h with the modules that share
-- one `SharedModel`, and the loop over the decoded packets of backend/src/engine/engine.cpp. Reading the
-- capture, the threads that decode, and the texts of the events are left out.
pub mod Devices
pub mod Modules
pub mod Keeps
pub mod Log
pub mod Order
pub mod Stamps
pub mod Frames
pub mod InTime
pub mod Inventory
mod Tests
use avb_introspection.Base.{
  ℕ, ◌+◌, ◌-◌, ◌%◌, ◌^◌, not, Option, none, some, List, [], ◌∷◌, ◌++◌, String, ◌==◌, ltb,
  if◌then◌else◌, Dict, find, find_or, insert, string_key, nat_key,
}
use avb_introspection.Context.{set_value}
use avb_introspection.Shared.{new_model}
use avb_introspection.Decode.Types.{
  Fault, Proto, msrp, mvrp, maap, adp, aecp, acmp, gptp, LogicCtx, DecodedPacket,
}
use avb_introspection.Engine.Devices.{DeviceInfo, new_device, note_packet, number_of}
use avb_introspection.Engine.Modules.{AnalysisState, Told, on_decode, on_time_tick}

-- A packet as the capture file has it, with what it is decoded to.
pub record Captured : Type 0 where
  pub ts_nanos : ℕ
  pub decoded : DecodedPacket

-- A packet with its number, and with its time `ts` since the first packet of the file, which its events and the
-- ticks get; the packets are sorted by `ts_nanos`.
pub record Packet : Type 0 where
  pub num : ℕ
  pub ts_nanos : ℕ
  pub ts : ℕ
  pub decoded : DecodedPacket

pub data Kind : Type 0 where
  of_packet : Kind
  of_error : Option Fault → Kind
  of_transition : Told → Kind

pub record Event : Type 0 where
  pub i : ℕ
  pub n : ℕ
  pub ts : ℕ
  pub kind : Kind
  pub proto : Proto

-- What the loop works on; `event_index` is an `uint32_t`, and the batches together are `events`.
pub record Pass : Type 0 where
  pub logic : AnalysisState
  pub devices : Dict ℕ DeviceInfo
  pub decode_errors : ℕ
  pub proto_counts : Dict ℕ ℕ
  pub event_index : ℕ
  pub events : List Event

unfoldable pub push_event : ℕ → ℕ → Kind → Proto → Pass → Pass
push_event n ts kind proto p = record p {
  event_index = (p.event_index + 1) % 2 ^ 32;
  events =
      p.events ++ record { i = p.event_index; n = n; ts = ts; kind = kind; proto = proto } ∷ [];
}

-- The loop over `drain()`.
unfoldable pub push_transitions : ℕ → ℕ → Proto → List Told → Pass → Pass
push_transitions n ts proto [] p = p
push_transitions n ts proto (t ∷ told) p =
    push_transitions n ts proto told (push_event n ts (of_transition t) proto p)

-- `byService`; the protocol stands for the module.
abbrev pub by_service : Dict String Proto
by_service =
    ("atdecc_adp", adp)
    ∷ ("mrp_msrp", msrp)
    ∷ ("mrp_mvrp", mvrp)
    ∷ ("1722_maap", maap)
    ∷ ("atdecc_acmp", acmp)
    ∷ ("atdecc_aecp", aecp)
    ∷ ("8021as_gptp", gptp)
    ∷ []

unfoldable pub feed : ℕ → ℕ → LogicCtx → Pass → Pass
feed num ts c p = elim (find c.service by_service) [
  | none ↦ p
  | some service ↦
      let (logic, told) =
        on_decode service (set_value (set_value c.vars "ts_ns" ts) "pkt_num" num) p.logic in
      push_transitions num ts service told (record p { logic = logic })
]

unfoldable pub feed_all : ℕ → ℕ → List LogicCtx → Pass → Pass
feed_all num ts [] p = p
feed_all num ts (c ∷ cs) p = feed_all num ts cs (feed num ts c p)

-- The modules' time ticks, in the order in which the map has them.
unfoldable pub tick : ℕ → Proto → Pass → Pass
tick ts service p =
    let (logic, told) = on_time_tick service ts p.logic in
    push_transitions 0 ts service told (record p { logic = logic })

unfoldable pub tick_all : ℕ → List Proto → Pass → Pass
tick_all ts [] p = p
tick_all ts (s ∷ services) p = tick_all ts services (tick ts s p)

unfoldable pub note_device : DecodedPacket → Pass → Pass
note_device d p = if d.src_mac == 0 then p else record p {
  devices = insert d.src_mac (note_packet d (find_or new_device d.src_mac p.devices)) p.devices;
}

unfoldable pub on_error : Packet → Pass → Pass
on_error x p =
    push_event x.num x.ts (of_error x.decoded.error) x.decoded.proto
      (record p { decode_errors = (p.decode_errors + 1) % 2 ^ 64 })

unfoldable pub on_packet : Packet → Pass → Pass
on_packet x p =
    let k = number_of x.decoded.proto in
    feed_all x.num x.ts x.decoded.logic_ctxs (
      push_event x.num x.ts of_packet x.decoded.proto (record p {
        proto_counts = insert k ((find_or 0 k p.proto_counts + 1) % 2 ^ 64) p.proto_counts;
      }))

-- One round of the loop; `services` is the order of the map `byService`, which the library does not fix.
unfoldable pub handle : List Proto → Packet → Pass → Pass
handle services x p =
    if not x.decoded.interesting
    then p
    else (let noted = note_device x.decoded p in
        tick_all x.ts services (if x.decoded.is_ok then on_packet x noted else on_error x noted))

unfoldable pub run : List Proto → List Packet → Pass → Pass
run services [] p = p
run services (x ∷ xs) p = run services xs (handle services x p)

-- `AnalysisState::create`, and the state before the loop.
abbrev pub new_state : AnalysisState
new_state = record {
  shared = new_model;
  adp_world = record { entities = []; out = record { shared = new_model; pending = [] } };
  maap_world = record { ranges = []; pending = [] };
  mvrp_world = record { vlans = []; pending = []; shared = new_model };
  acmp_world = record {
    inflight = [];
    conns = [];
    milan = record { sinks = []; talkers = []; out = [] };
  };
  aecp_world = record { inflight = []; pairs = []; shared = new_model; pending = [] };
  msrp_world = record {
    reservations = [];
    domains = [];
    out = record { shared = new_model; pending = [] };
  };
  gptp_world = record {
    domains = [];
    ports = [];
    exchanges = [];
    out = record { shared = new_model; pending = [] };
  };
}

abbrev pub new_pass : Pass
new_pass = record {
  logic = new_state;
  devices = [];
  decode_errors = 0;
  proto_counts = [];
  event_index = 0;
  events = [];
}

-- `relTs`: the difference of two unsigned 64-bit numbers, which wraps for a packet from before the first one of
-- the file.
abbrev pub rel_ts : ℕ → ℕ → ℕ
rel_ts first ts_nanos = (ts_nanos + 2 ^ 64 - first) % 2 ^ 64

unfoldable pub stamp : ℕ → ℕ → List Captured → List Packet
stamp first i [] = []
stamp first i (c ∷ cs) =
    record {
      num = (i + 1) % 2 ^ 32;
      ts_nanos = c.ts_nanos;
      ts = rel_ts first c.ts_nanos;
      decoded = c.decoded;
    }
    ∷ stamp first (i + 1) cs

abbrev pub stamped : List Captured → List Packet
stamped [] = []
stamped (c ∷ cs) = stamp c.ts_nanos 0 (c ∷ cs)

-- `std::stable_sort` by the time in the file: packets of the same time keep their order.
unfoldable pub insert_packet : Packet → List Packet → List Packet
insert_packet x [] = x ∷ []
insert_packet x (y ∷ ys) = if ltb y.ts_nanos x.ts_nanos then y ∷ insert_packet x ys else x ∷ y ∷ ys

unfoldable pub by_time : List Packet → List Packet
by_time [] = []
by_time (x ∷ xs) = insert_packet x (by_time xs)

-- The whole state pass.
unfoldable pub analyze : List Proto → List Captured → Pass
analyze services cs = run services (by_time (stamped cs)) new_pass
