-- ===== src/Gptp/Announce.antt =====
-- The handlers of Announce and Signaling of `GptpLogic` in
-- backend/src/logic/gptp_logic.cpp.
use avb_introspection.Base.{
  ℕ, ◌%◌, ◌^◌, true, not, Option, none, some, ltb, ◌==◌, if◌then◌else◌, insert, erase, nat_key,
}
use avb_introspection.Context.{VarLayerContext, at, get_bytes, ts_of, num_of}
use avb_introspection.Shared.{name_of}
use avb_introspection.Gptp.Types.{
  second, default_announce_interval, interval_from_log, gm_present, gm_tag, unknown, nothing,
  received, aged, gptp_capable, tag, of_gm_id, sent_announce, capable_tlv, first_announce,
  announce_resumed, reselected, announces_resumed,
}
use avb_introspection.Gptp.State.{AnnVec, Domain, Port, Out, World}
use avb_introspection.Gptp.Domains.{emit_dom, dom_transition}
use avb_introspection.Gptp.Ports.{announce_field, gptp_field, port_transition, count_up}
use avb_introspection.Gptp.Access.{
  domain_at, in_domain, port_at, in_port, fields, become_master, settle,
}

-- `dom` is the domain's number and `key` the sender's port key.
module _ (v : VarLayerContext) (dom key : ℕ) where
  abbrev pub announced_interval : ℕ
  announced_interval = interval_from_log (at v "log_message_interval") default_announce_interval

  unfoldable pub announce_domain : Domain → Domain
  announce_domain d = record d {
    last_announce = some (ts_of v);
    announce_interval = announced_interval;
    announce_count = count_up d.announce_count;
  }

  unfoldable pub announce_port : Port → Port
  announce_port p = record p {
    announce_interval = announced_interval;
    announce_sent = count_up p.announce_sent;
  }

  -- `setGmAttrs`.
  unfoldable pub set_gm_attrs : Domain → Domain
  set_gm_attrs d = record d {
    gm_id = at v "gm_identity";
    p1 = at v "gm_priority1" % 2 ^ 8;
    p2 = at v "gm_priority2" % 2 ^ 8;
    clock_class = at v "gm_clock_class" % 2 ^ 8;
    clock_accuracy = at v "gm_clock_accuracy" % 2 ^ 8;
    variance = at v "gm_clock_variance" % 2 ^ 16;
    steps_removed = at v "steps_removed" % 2 ^ 16;
    time_source = at v "time_source" % 2 ^ 8;
    utc_offset = at v "current_utc_offset" % 2 ^ 16;
  }

  -- The grandmaster of an Announce; `before` is the time of the one before it.
  unfoldable pub gm_on_announce : Option ℕ → Domain × Out → Domain × Out
  gm_on_announce before (d, o) =
      let gm = at v "gm_identity" in
      let p1 = at v "gm_priority1" % 2 ^ 8 in
      let set = set_gm_attrs d in
      if gm_tag d.gm_state == 0
      then dom_transition (ts_of v) (num_of v) gm_present
          (first_announce gm p1 (at v "gm_clock_class") (at v "steps_removed")) (set, o)
      else if gm_tag d.gm_state == 2
      then dom_transition (ts_of v) (num_of v) gm_present (announce_resumed (ts_of v) before)
          (set, o)
      else if not (d.gm_id == gm)
      then emit_dom (ts_of v) (num_of v) (of_gm_id d.gm_id) (of_gm_id gm)
          (reselected p1 d.p1 (name_of gm o.shared)) (set, o)
      else (set, o)

  unfoldable pub trace_path : Domain → Domain
  trace_path d = elim (get_bytes v "path_trace") [
    | none ↦ d
    | some trace ↦ record d { path_trace = trace }
  ]

  unfoldable pub reception : Port × Out → Port × Out
  reception (p, o) =
      let q = record p { last_announce = some (ts_of v) } in
      if tag p.announce_state == tag aged
      then port_transition announce_field (ts_of v) (num_of v) nothing received announces_resumed
          (q, o)
      else (record q { announce_state = received }, o)

  unfoldable pub announced_vec : Port → AnnVec
  announced_vec p = record {
    p1 = at v "gm_priority1" % 2 ^ 8;
    clock_class = at v "gm_clock_class" % 2 ^ 8;
    accuracy = at v "gm_clock_accuracy" % 2 ^ 8;
    variance = at v "gm_clock_variance" % 2 ^ 16;
    p2 = at v "gm_priority2" % 2 ^ 8;
    gm_id = at v "gm_identity";
    steps_removed = at v "steps_removed" % 2 ^ 16;
    src_clock = p.clock_id;
    src_port = p.port_num;
    last_ts = some (ts_of v);
    announce_interval = announced_interval;
  }

  unfoldable pub note_announcer : AnnVec → Domain → Domain
  note_announcer vec d =
      let sends = key == d.sync_sender in
      if ltb vec.steps_removed 255
      then record d {
        announcers = insert key vec d.announcers;
        sync_sender_gm = if sends then at v "gm_identity" else d.sync_sender_gm;
      }
      else record d {
        announcers = erase key d.announcers;
        sync_sender_gm = if sends then 0 else d.sync_sender_gm;
      }

  unfoldable pub on_announce : World → World
  on_announce w =
      let before = (domain_at dom w).last_announce in
      let w1 = in_port key (fields announce_port) (in_domain dom (fields announce_domain) w) in
      let w2 = become_master key dom (ts_of v) (num_of v) (sent_announce dom) w1 in
      let w3 = in_domain dom (gm_on_announce before) w2 in
      let w4 = in_port key reception (in_domain dom (fields trace_path) w3) in
      in_domain dom
        (λ (d, o). settle (ts_of v) (note_announcer (announced_vec (port_at key w4)) d, o)) w4

  unfoldable pub count_signaling : Port → Port
  count_signaling p = record p { signaling_sent = count_up p.signaling_sent }

  unfoldable pub on_capable_tlv : Port × Out → Port × Out
  on_capable_tlv (p, o) =
      let interval = interval_from_log (at v "gptp_capable_interval") second in
      let q = record p { last_capable = some (ts_of v); capable_interval = interval } in
      if at v "signaling_gptp_capable" == 0
      then (p, o)
      else if tag p.gptp_capable_state == tag gptp_capable
      then (q, o)
      else port_transition gptp_field (ts_of v) (num_of v) unknown gptp_capable
          (capable_tlv interval) (q, o)

  unfoldable pub on_interval_request : Port → Port
  on_interval_request p = if at v "signaling_interval_request" == 0 then p else record p {
    req_intervals_seen = true;
    req_link_delay = at v "req_link_delay_interval" % 2 ^ 8;
    req_time_sync = at v "req_time_sync_interval" % 2 ^ 8;
    req_announce = at v "req_announce_interval" % 2 ^ 8;
  }

  unfoldable pub on_signaling : World → World
  on_signaling w =
      in_port key (fields on_interval_request)
        (in_port key on_capable_tlv (in_port key (fields count_signaling) w))
