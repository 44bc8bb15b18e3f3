-- ===== src/Gptp/Types.antt =====
-- The states of `GptpLogic` of backend/src/logic/gptp_logic.cpp, texts in the source, its intervals, in
-- nanoseconds, and the reports.
use avb_introspection.Base.{
  ℕ, ◌+◌, ◌-◌, ◌*◌, ◌/◌, ◌%◌, ◌^◌, Bool, true, false, not, ◌&&◌, ◌||◌, Option, none, some, String,
  ltb, ◌==◌, if◌then◌else◌, HistEntry, Transition,
}

abbrev pub second : ℕ
second = 1000000000

abbrev pub sync_timeout_n : ℕ
sync_timeout_n = 3

abbrev pub announce_timeout_n : ℕ
announce_timeout_n = 3

abbrev pub allowed_lost_responses : ℕ
allowed_lost_responses = 3

abbrev pub default_sync_interval : ℕ
default_sync_interval = 125000000

abbrev pub default_announce_interval : ℕ
default_announce_interval = second

abbrev pub default_pdelay_interval : ℕ
default_pdelay_interval = second

abbrev pub turnaround_limit : ℕ
turnaround_limit = 10000000

abbrev pub gptp_capable_timeout_n : ℕ
gptp_capable_timeout_n = 9

abbrev pub hist_cap : ℕ
hist_cap = 200

unfoldable pub interval_from_log : ℕ → ℕ → ℕ
interval_from_log raw dflt =
    let r = raw % 2 ^ 8 in
    let positive = ltb r 128 in
    if (r == 127) || ((not positive && ltb r 249) || (positive && ltb 5 r))
    then dflt
    else if positive
    then second * 2 ^ r
    else second / 2 ^ (256 - r)

-- `ts > last + limit`, where a time that was never set is the source's -1 s.
unfoldable pub overdue : ℕ → Option ℕ → ℕ → Bool
overdue ts none limit = ltb limit (ts + second)
overdue ts (some last) limit = ltb (last + limit) ts

pub data GmState : Type 0 where
  gm_unset gm_present gm_timed_out : GmState

abbrev pub gm_tag : GmState → ℕ
gm_tag gm_unset = 0
gm_tag gm_present = 1
gm_tag gm_timed_out = 2

pub data SyncState : Type 0 where
  sync_unset healthy lost : SyncState

abbrev pub sync_tag : SyncState → ℕ
sync_tag sync_unset = 0
sync_tag healthy = 1
sync_tag lost = 2

-- The texts that the state members of a port hold, or that stand for an empty one.
pub data PortState : Type 0 where
  unset unknown master slave as_capable not_as_capable : PortState
  nothing received aged gptp_capable capable_timed_out : PortState

abbrev pub tag : PortState → ℕ
tag unset = 0
tag unknown = 1
tag master = 2
tag slave = 3
tag as_capable = 4
tag not_as_capable = 5
tag nothing = 6
tag received = 7
tag aged = 8
tag gptp_capable = 9
tag capable_timed_out = 10

-- `mdReqState`, `mdRespState` and `mdSyncSendState`.
pub data MdState : Type 0 where
  not_enabled waiting_for_pdelay_resp waiting_for_pdelay_resp_follow_up : MdState
  waiting_for_pdelay_interval_timer reset sent_pdelay_resp_waiting_for_timestamp : MdState
  waiting_for_pdelay_req follow_up_pending idle : MdState

abbrev pub is_follow_up_pending : MdState → Bool
is_follow_up_pending follow_up_pending = true
is_follow_up_pending _ = false

-- The two ends of a transition. An unset state of a domain stands for NO_GM and SYNC_UNKNOWN.
pub data Label : Type 0 where
  of_gm : GmState → Label
  of_sync : SyncState → Label
  of_gm_id of_time_base : ℕ → Label
  of_port : PortState → Label

-- What the text of a reason is put together from.
pub data Why : Type 0 where
  no_sync : Option ℕ → ℕ → ℕ → ℕ → Why
  no_announce no_capable_tlv announces_resumed port_aged : Why
  sent_sync : ℕ → ℕ → Why
  sent_announce : ℕ → Why
  inferred_slave took_over : ℕ → ℕ → Why
  first_sync : ℕ → ℕ → Why
  sync_resumed : Option (ℕ × ℕ) → Why
  capable_tlv : ℕ → Why
  first_announce : ℕ → ℕ → ℕ → ℕ → Why
  announce_resumed : ℕ → Option ℕ → Why
  reselected : ℕ → ℕ → String → Why
  time_base_step : Why
  exchange_complete : ℕ → Why
  slow_turnaround lost_responses : ℕ → Why
  too_many_lost : Why

abbrev pub Entry : Type 0
Entry = HistEntry Label Why

-- A domain, with the grandmaster the report names, or a port of a clock.
pub data Object : Type 0 where
  of_domain : ℕ → ℕ → Object
  of_clock_port : ℕ → ℕ → Object

abbrev pub Report : Type 0
Report = Transition Object Label Why
