-- ===== src/Gptp/Pdelay.antt =====
-- The handlers of the peer delay messages of `GptpLogic` in backend/src/logic/gptp_logic.cpp, and the
-- loop of `onTimeTick` over the exchanges. A turnaround is the 64-bit difference in nanoseconds that the
-- source reads as a signed number.
use avb_introspection.Base.{
  ℕ, ◌+◌, ◌-◌, ◌*◌, ◌%◌, ◌^◌, Bool, true, false, ◌&&◌, Option, none, some, [], ◌∷◌, ltb, ◌==◌,
  if◌then◌else◌, Dict, find, insert, erase, nat_key,
}
use avb_introspection.Context.{VarLayerContext, at, ts_of, num_of}
use avb_introspection.Gptp.Types.{
  second, default_pdelay_interval, turnaround_limit, interval_from_log, overdue, unknown,
  as_capable, waiting_for_pdelay_resp, waiting_for_pdelay_resp_follow_up,
  waiting_for_pdelay_interval_timer, sent_pdelay_resp_waiting_for_timestamp, waiting_for_pdelay_req,
  exchange_complete, slow_turnaround,
}
use avb_introspection.Gptp.State.{Port, Exchange, Out, World, port_key}
use avb_introspection.Gptp.Ports.{
  capable_field, port_transition, port_warning, count_up, pdelay_lost,
}
use avb_introspection.Gptp.Access.{in_port, in_port_if_found, fields}

abbrev pub set_exchange : ℕ → Exchange → World → World
set_exchange key e w = record w { exchanges = insert key e w.exchanges }

abbrev pub drop_exchange : ℕ → World → World
drop_exchange key w = record w { exchanges = erase key w.exchanges }

-- `v` is the message and `key` the sender's port key.
module _ (v : VarLayerContext) (key : ℕ) where
  abbrev pub seq_of : ℕ
  seq_of = at v "sequence_id" % 2 ^ 16

  abbrev pub req_key : ℕ
  req_key = port_key (at v "requesting_clock_id") (at v "requesting_port_number" % 2 ^ 16)

  unfoldable pub request_port : Port → Port
  request_port p = record p {
    pdelay_initiated = count_up p.pdelay_initiated;
    req_interval = interval_from_log (at v "log_message_interval") default_pdelay_interval;
  }

  -- The previous exchange that never completed.
  unfoldable pub give_up_previous : World → World
  give_up_previous w = elim (find key w.exchanges) [
    | none ↦ w
    | some e ↦ drop_exchange key (in_port key (pdelay_lost (ts_of v)) w)
  ]

  abbrev pub request_exchange : Exchange
  request_exchange = record {
    seq = seq_of;
    req_ts = ts_of v;
    resp_ts = none;
    responder_key = 0;
    req_receipt = 0;
    have_resp = false;
  }

  unfoldable pub on_pdelay_req : World → World
  on_pdelay_req w =
      let w1 = give_up_previous (in_port key (fields request_port) w) in
      set_exchange key request_exchange
        (in_port key (fields (λ p. record p { md_req_state = waiting_for_pdelay_resp })) w1)

  abbrev pub answered : Exchange → Exchange
  answered e = record e {
    resp_ts = some (ts_of v);
    have_resp = true;
    responder_key = key;
    req_receipt = (at v "req_receipt_seconds" * second + at v "req_receipt_ns") % 2 ^ 64;
  }

  unfoldable pub match_resp : World → World
  match_resp w = elim (find req_key w.exchanges) [
    | none ↦ w
    | some e ↦
        if e.seq == seq_of
        then set_exchange req_key (answered e) (
            in_port_if_found req_key
              (fields (λ p. record p { md_req_state = waiting_for_pdelay_resp_follow_up })) w)
        else w
  ]

  unfoldable pub on_pdelay_resp : World → World
  on_pdelay_resp w = match_resp (
      in_port key
        (fields (λ p. record p { md_resp_state = sent_pdelay_resp_waiting_for_timestamp })) w)

  unfoldable pub turnaround : Exchange → ℕ
  turnaround e =
      let resp_origin = (at v "resp_origin_seconds" * second + at v "resp_origin_ns") % 2 ^ 64 in
      (resp_origin + (2 ^ 64 - e.req_receipt)) % 2 ^ 64

  -- `turnaroundS > kPdelayTurnaroundLimitS`, of a signed number.
  unfoldable pub is_slow : ℕ → Bool
  is_slow t = ltb t (2 ^ 63) && ltb turnaround_limit t

  unfoldable pub complete : Exchange → Port × Out → Port × Out
  complete e (p, o) =
      port_transition capable_field (ts_of v) (num_of v) unknown as_capable
        (exchange_complete (at v "sequence_id"))
        (
          record p {
            md_req_state = waiting_for_pdelay_interval_timer;
            pdelay_complete = count_up p.pdelay_complete;
            consecutive_lost = 0;
            last_turnaround = some (turnaround e);
            last_observed_gap = elim e.resp_ts [
              | none ↦ p.last_observed_gap
              | some resp ↦ some (e.req_ts, resp)
            ];
          },
          o,
        )

  unfoldable pub warn_if_slow : Exchange → World → World
  warn_if_slow e w =
      if is_slow (turnaround e)
      then in_port_if_found e.responder_key
          (port_warning (ts_of v) (num_of v) (slow_turnaround (turnaround e))) w
      else w

  unfoldable pub match_resp_fu : World → World
  match_resp_fu w = elim (find req_key w.exchanges) [
    | none ↦ w
    | some e ↦
        if e.have_resp && (e.seq == seq_of)
        then drop_exchange req_key (elim (find req_key w.ports) [
          | none ↦ w
          | some p ↦ warn_if_slow e (in_port req_key (complete e) w)
        ])
        else w
  ]

  unfoldable pub on_pdelay_resp_fu : World → World
  on_pdelay_resp_fu w =
      match_resp_fu
        (in_port key (fields (λ p. record p { md_resp_state = waiting_for_pdelay_req })) w)

-- The time that an exchange may take.
unfoldable pub limit_of : Option Port → ℕ
limit_of none = second
limit_of (some p) = if ltb p.req_interval second then second else p.req_interval

abbrev pub has_expired : ℕ → Dict ℕ Port → ℕ → Exchange → Bool
has_expired ts ports key e = overdue ts (some e.req_ts) (limit_of (find key ports))

unfoldable pub lose : ℕ → ℕ → Dict ℕ Port × Out → Dict ℕ Port × Out
lose ts key (ports, o) = elim (find key ports) [
  | none ↦ (ports, o)
  | some p ↦ let (p', o') = pdelay_lost ts (p, o) in (insert key p' ports, o')
]

unfoldable pub expire :
    ℕ → Dict ℕ Exchange → Dict ℕ Port × Out → Dict ℕ Exchange × (Dict ℕ Port × Out)
expire ts [] s = ([], s)
expire ts ((key, e) ∷ m) s =
    let (m', s') = expire ts m (if has_expired ts s.0 key e then lose ts key s else s) in
    (if has_expired ts s.0 key e then m' else (key, e) ∷ m', s')
