-- ===== src/Gptp/State.antt =====
-- What `GptpLogic` of backend/src/logic/gptp_logic.cpp keeps: its structs `Domain`, `AnnVec`, `Port` and
-- `Exchange`. A number the source computes for display only is kept as what it is computed from: a gap
-- as its two ends.
use avb_introspection.Base.{
  ℕ, ◌+◌, ◌*◌, ◌%◌, ◌^◌, Bool, false, Option, none, List, [], String, Dict,
}
use avb_introspection.Shared.{SharedModel}
use avb_introspection.Gptp.Types.{
  second, default_sync_interval, default_announce_interval, default_pdelay_interval, GmState,
  gm_unset, SyncState, sync_unset, PortState, unset, MdState, not_enabled, Entry, Report,
}

pub record AnnVec : Type 0 where
  pub p1 : ℕ
  pub clock_class : ℕ
  pub accuracy : ℕ
  pub variance : ℕ
  pub p2 : ℕ
  pub gm_id : ℕ
  pub steps_removed : ℕ
  pub src_clock : ℕ
  pub src_port : ℕ
  pub last_ts : Option ℕ
  pub announce_interval : ℕ

abbrev pub new_vec : AnnVec
new_vec = record {
  p1 = 255;
  clock_class = 255;
  accuracy = 254;
  variance = 65535;
  p2 = 255;
  gm_id = 0;
  steps_removed = 0;
  src_clock = 0;
  src_port = 0;
  last_ts = none;
  announce_interval = default_announce_interval;
}

pub record Domain : Type 0 where
  pub num : ℕ
  pub gm_state : GmState
  pub sync_state : SyncState
  pub gm_id : ℕ
  pub p1 : ℕ
  pub p2 : ℕ
  pub clock_class : ℕ
  pub clock_accuracy : ℕ
  pub time_source : ℕ
  pub variance : ℕ
  pub steps_removed : ℕ
  pub gm_time_base_indicator : ℕ
  pub utc_offset : ℕ
  pub last_announce : Option ℕ
  pub announce_interval : ℕ
  pub last_sync : Option ℕ
  pub sync_interval : ℕ
  pub last_gap : Option (ℕ × ℕ)
  pub rate_offset : ℕ
  pub sync_sender : ℕ
  pub sync_count : ℕ
  pub follow_up_count : ℕ
  pub announce_count : ℕ
  pub unmatched_follow_ups : ℕ
  pub have_time_base : Bool
  pub path_trace : String
  pub pending_syncs : Dict ℕ ℕ
  pub announcers : Dict ℕ AnnVec
  pub expected_gm : ℕ
  pub expected_p1 : ℕ
  pub expected_vec : AnnVec
  pub sync_vec : AnnVec
  pub have_expected_vec : Bool
  pub have_sync_vec : Bool
  pub sync_sender_gm : ℕ
  pub sync_sender_p1 : ℕ
  pub hist : List Entry

abbrev pub new_domain : Domain
new_domain = record {
  num = 0;
  gm_state = gm_unset;
  sync_state = sync_unset;
  gm_id = 0;
  p1 = 0;
  p2 = 0;
  clock_class = 0;
  clock_accuracy = 0;
  time_source = 0;
  variance = 0;
  steps_removed = 0;
  gm_time_base_indicator = 0;
  utc_offset = 0;
  last_announce = none;
  announce_interval = default_announce_interval;
  last_sync = none;
  sync_interval = default_sync_interval;
  last_gap = none;
  rate_offset = 0;
  sync_sender = 0;
  sync_count = 0;
  follow_up_count = 0;
  announce_count = 0;
  unmatched_follow_ups = 0;
  have_time_base = false;
  path_trace = "";
  pending_syncs = [];
  announcers = [];
  expected_gm = 0;
  expected_p1 = 0;
  expected_vec = new_vec;
  sync_vec = new_vec;
  have_expected_vec = false;
  have_sync_vec = false;
  sync_sender_gm = 0;
  sync_sender_p1 = 255;
  hist = [];
}

pub record Port : Type 0 where
  pub clock_id : ℕ
  pub port_num : ℕ
  pub src_mac : ℕ
  pub domain : ℕ
  pub role : PortState
  pub capable : PortState
  pub sync_sent : ℕ
  pub announce_sent : ℕ
  pub signaling_sent : ℕ
  pub pdelay_initiated : ℕ
  pub pdelay_complete : ℕ
  pub pdelay_lost : ℕ
  pub consecutive_lost : ℕ
  pub req_interval : ℕ
  pub last_sync_sent : Option ℕ
  pub last_turnaround : Option ℕ
  pub last_observed_gap : Option (ℕ × ℕ)
  pub md_req_state : MdState
  pub md_resp_state : MdState
  pub md_resets : ℕ
  pub md_sync_send_state : MdState
  pub pending_fu_seq : ℕ
  pub announce_state : PortState
  pub last_announce : Option ℕ
  pub announce_interval : ℕ
  pub gptp_capable_state : PortState
  pub last_capable : Option ℕ
  pub capable_interval : ℕ
  pub req_intervals_seen : Bool
  pub req_link_delay : ℕ
  pub req_time_sync : ℕ
  pub req_announce : ℕ
  pub hist : List Entry

abbrev pub new_port : Port
new_port = record {
  clock_id = 0;
  port_num = 0;
  src_mac = 0;
  domain = 0;
  role = unset;
  capable = unset;
  sync_sent = 0;
  announce_sent = 0;
  signaling_sent = 0;
  pdelay_initiated = 0;
  pdelay_complete = 0;
  pdelay_lost = 0;
  consecutive_lost = 0;
  req_interval = default_pdelay_interval;
  last_sync_sent = none;
  last_turnaround = none;
  last_observed_gap = none;
  md_req_state = not_enabled;
  md_resp_state = not_enabled;
  md_resets = 0;
  md_sync_send_state = not_enabled;
  pending_fu_seq = 0;
  announce_state = unset;
  last_announce = none;
  announce_interval = default_announce_interval;
  gptp_capable_state = unset;
  last_capable = none;
  capable_interval = second;
  req_intervals_seen = false;
  req_link_delay = 0;
  req_time_sync = 0;
  req_announce = 0;
  hist = [];
}

pub record Exchange : Type 0 where
  pub seq : ℕ
  pub req_ts : ℕ
  pub resp_ts : Option ℕ
  pub responder_key : ℕ
  pub req_receipt : ℕ
  pub have_resp : Bool

-- What a call changes beside the one domain or port: the shared model and the reports.
pub record Out : Type 0 where
  pub shared : SharedModel
  pub pending : List Report

pub record World : Type 0 where
  pub domains : Dict ℕ Domain
  pub ports : Dict ℕ Port
  pub exchanges : Dict ℕ Exchange
  pub out : Out

abbrev pub port_key : ℕ → ℕ → ℕ
port_key clock_id port_num = (clock_id * 2 ^ 16) % 2 ^ 64 + port_num
