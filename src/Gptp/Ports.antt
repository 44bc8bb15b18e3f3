-- ===== src/Gptp/Ports.antt =====
-- What `GptpLogic` of backend/src/logic/gptp_logic.cpp does to one port whatever the message, and its
-- loops over the ports. The member of a port that a transition changes is a pair of a getter and a
-- setter, a pointer to a member in the source.
use avb_introspection.Base.{
  ℕ, ◌+◌, ◌*◌, ◌%◌, ◌^◌, Bool, true, false, ◌&&◌, Option, none, some, [], ◌∷◌, ◌++◌, String, ltb,
  ◌==◌, if◌then◌else◌, Dict, push_capped,
}
use avb_introspection.Shared.{name_of}
use avb_introspection.Gptp.Types.{
  sync_timeout_n, allowed_lost_responses, hist_cap, overdue, PortState, unset, unknown, master,
  slave, not_as_capable, tag, reset, of_port, Why, inferred_slave, took_over, lost_responses,
  too_many_lost, of_clock_port, Entry, Report,
}
use avb_introspection.Gptp.State.{Port, Out}

abbrev pub is_unset : PortState → Bool
is_unset unset = true
is_unset _ = false

abbrev pub is_set : Option ℕ → Bool
is_set none = false
is_set (some ts) = true

pub record Field : Type 0 where
  pub get : Port → PortState
  pub put : PortState → Port → Port

abbrev pub role_field : Field
role_field = record { get = λ p. p.role; put = λ s p. record p { role = s } }

abbrev pub capable_field : Field
capable_field = record { get = λ p. p.capable; put = λ s p. record p { capable = s } }

abbrev pub announce_field : Field
announce_field = record {
  get = λ p. p.announce_state;
  put = λ s p. record p { announce_state = s };
}

abbrev pub gptp_field : Field
gptp_field = record {
  get = λ p. p.gptp_capable_state;
  put = λ s p. record p { gptp_capable_state = s };
}

abbrev pub port_report : Port → PortState → PortState → Why → String → Report
port_report p from to why name = record {
  object = of_clock_port p.clock_id p.port_num;
  from = of_port from;
  to = of_port to;
  why = why;
  name = name;
  stream = none;
}

abbrev pub port_entry : ℕ → ℕ → PortState → PortState → Why → Entry
port_entry ts n from to why = record {
  ts = ts;
  n = n;
  from = of_port from;
  to = of_port to;
  why = why;
}

unfoldable pub port_transition :
    Field → ℕ → ℕ → PortState → PortState → Why → Port × Out → Port × Out
port_transition field ts n empty_label to why (p, o) =
    let now = field.get p in
    let from = if is_unset now then empty_label else now in
    let report = port_report p from to why (name_of p.clock_id o.shared) in
    let p' = field.put to p in
    if tag from == tag to then (p, o) else (
      record p' { hist = push_capped hist_cap p'.hist (port_entry ts n from to why) },
      record o { pending = o.pending ++ report ∷ [] },
    )

unfoldable pub port_warning : ℕ → ℕ → Why → Port × Out → Port × Out
port_warning ts n why (p, o) =
    let state = if is_unset p.role then unknown else p.role in
    (
      record p { hist = push_capped hist_cap p.hist (port_entry ts n state state why) },
      record o { pending = o.pending ++ port_report p state state why "" ∷ [] },
    )

abbrev pub count_up : ℕ → ℕ
count_up n = (n + 1) % 2 ^ 32

-- `pdelayLost`.
abbrev pub count_lost : Port → Port
count_lost p = record p {
  pdelay_lost = count_up p.pdelay_lost;
  consecutive_lost = count_up p.consecutive_lost;
  md_req_state = reset;
  md_resets = count_up p.md_resets;
}

unfoldable pub pdelay_lost : ℕ → Port × Out → Port × Out
pdelay_lost ts (p, o) =
    let (q, o') =
      port_warning ts 0 (lost_responses (count_lost p).consecutive_lost) (count_lost p, o) in
    if ltb q.consecutive_lost allowed_lost_responses
    then (q, o')
    else port_transition capable_field ts 0 unknown not_as_capable too_many_lost (q, o')

-- A loop over the ports that skips the one port of the key given.
unfoldable pub for_others : ℕ → (Port → Out → Port × Out) → Dict ℕ Port → Out → Dict ℕ Port × Out
for_others self f [] o = ([], o)
for_others self f ((key, p) ∷ m) o =
    let (p', o') = (if key == self then (p, o) else f p o) in
    let (m', o'') = for_others self f m o' in ((key, p') ∷ m', o'')

-- The body of the loop in `becomeMaster`, for the port that became master.
unfoldable pub infer_slave : Port → ℕ → ℕ → ℕ → Port → Out → Port × Out
infer_slave sender dom ts n other o =
    if (other.domain == dom)
      && ((other.sync_sent == 0) && ((other.announce_sent == 0) && is_unset other.role))
    then port_transition role_field ts n unknown slave
        (inferred_slave sender.clock_id sender.port_num) (other, o)
    else (other, o)

-- The body of the loop in `onSync` that demotes masters that went silent.
unfoldable pub demote : Port → ℕ → ℕ → ℕ → ℕ → Port → Out → Port × Out
demote sender dom sync_interval ts n other o =
    if (other.domain == dom)
      && ((tag other.role == tag master)
          && (is_set other.last_sync_sent
              && overdue ts other.last_sync_sent (sync_timeout_n * sync_interval)))
    then port_transition role_field ts n master slave (took_over sender.clock_id sender.port_num)
        (other, o)
    else (other, o)
