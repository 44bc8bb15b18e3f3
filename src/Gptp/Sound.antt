-- ===== src/Gptp/Sound.antt =====
-- Every call to `GptpLogic` of backend/src/logic/gptp_logic.cpp keeps its ports sound.
use avb_introspection.Base.{
  ℕ, refl, inl, inr, ◌&&◌, List, [], ◌∷◌, arith, ◌==◌, Bool-cases, Option-cases, if_either,
  if◌then◌else◌, Dict, find, AllEntries, AllEntries-insert, AllEntries-find, AllEntries-for_values,
  length-push_capped, nat_key,
}
use avb_introspection.Context.{VarLayerContext, at, ts_of, num_of}
use avb_introspection.Gptp.Types.{
  hist_cap, aged, gptp_capable, tag, unknown, as_capable, exchange_complete,
}
use avb_introspection.Gptp.State.{Domain, Port, Exchange, Out, World}
use avb_introspection.Gptp.Ports.{gptp_field, announce_field, is_unset, port_entry, port_transition}
use avb_introspection.Gptp.Access.{fields}
use avb_introspection.Gptp.Sync.{
  sync_port, two_step_port, demote_silent, on_sync, follow_up_port, on_follow_up,
}
use avb_introspection.Gptp.Announce.{
  announce_port, reception, on_announce, count_signaling, on_capable_tlv, on_interval_request,
  on_signaling,
}
use avb_introspection.Gptp.Pdelay.{
  request_port, give_up_previous, on_pdelay_req, match_resp, on_pdelay_resp, complete, warn_if_slow,
  is_slow, turnaround, match_resp_fu, on_pdelay_resp_fu, req_key, seq_of, lose, expire, has_expired,
}
use avb_introspection.Gptp.Capable.{
  PortWf, Keeps, PortsSound, in_domain-PortsSound, in_port-PortsSound, in_port_if_found-PortsSound,
  in_others-PortsSound, port_transition-Keeps, port_warning-Keeps, pdelay_lost-Keeps, fields-Keeps,
  demote-Wf, become_master-PortsSound,
}
use avb_introspection.Gptp.{
  arrive, key_of, dispatch, on_decode, tick_announce, tick_capable, tick_port, tick_ports,
  tick_domain, tick_domains, tick_exchanges, on_time_tick, Call, decodes, ticks, step, run,
}

-- `v` is the message, `dom` its domain and `key` its sender's port key.
module _ (v : VarLayerContext) (dom key : ℕ) where
  demote_silent-PortsSound : (w : World) → PortsSound w → PortsSound (demote_silent v dom key w)
  unfolding demote_silent
  demote_silent-PortsSound w h = in_others-PortsSound key _ w (λ p o. demote-Wf _ dom _ _ _ p o) h

  two_step_port-Keeps : Keeps (fields (two_step_port v dom key))
  unfolding two_step_port
  two_step_port-Keeps =
      fields-Keeps (two_step_port v dom key) (λ p. (ground arith, (ground arith, ground arith)))

  sync_port-Keeps : Keeps (fields (sync_port v dom key))
  unfolding sync_port
  sync_port-Keeps = fields-Keeps (sync_port v dom key) (λ p. (refl, (refl, refl)))

  on_sync-PortsSound : (w : World) → PortsSound w → PortsSound (on_sync v dom key w)
  unfolding on_sync
  on_sync-PortsSound w h = in_domain-PortsSound dom _ _ (
      in_port-PortsSound key _ _ two_step_port-Keeps (
        in_domain-PortsSound dom _ _ (
          in_domain-PortsSound dom _ _ (
            demote_silent-PortsSound _ (
              become_master-PortsSound key dom _ _ _ _
                (in_port-PortsSound key _ _ sync_port-Keeps (in_domain-PortsSound dom _ w h)))))))

  follow_up_port-Keeps : Keeps (fields (follow_up_port v dom key))
  unfolding follow_up_port
  follow_up_port-Keeps =
      fields-Keeps (follow_up_port v dom key) (λ p. (ground arith, (ground arith, ground arith)))

  on_follow_up-PortsSound : (w : World) → PortsSound w → PortsSound (on_follow_up v dom key w)
  unfolding on_follow_up
  on_follow_up-PortsSound w h =
      in_domain-PortsSound dom _ _ (in_port-PortsSound key _ w follow_up_port-Keeps h)

  announce_port-Keeps : Keeps (fields (announce_port v dom key))
  unfolding announce_port
  announce_port-Keeps = fields-Keeps (announce_port v dom key) (λ p. (refl, (refl, refl)))

  reception-Keeps : Keeps (reception v dom key)
  unfolding reception
  reception-Keeps (p, o) h = elim (Bool-cases (tag p.announce_state == tag aged)) [
    | inl e ↦
        rw e (port_transition-Keeps announce_field _ _ _ _ _ (λ p. (refl, (refl, refl))) (_, o) h)
    | inr e ↦ rw e h
  ]

  on_announce-PortsSound : (w : World) → PortsSound w → PortsSound (on_announce v dom key w)
  unfolding on_announce
  on_announce-PortsSound w h = in_domain-PortsSound dom _ _ (
      in_port-PortsSound key _ _ reception-Keeps (
        in_domain-PortsSound dom _ _ (
          in_domain-PortsSound dom _ _ (
            become_master-PortsSound key dom _ _ _ _
              (in_port-PortsSound key _ _ announce_port-Keeps (in_domain-PortsSound dom _ w h))))))

  on_capable_tlv-Keeps : Keeps (on_capable_tlv v dom key)
  unfolding on_capable_tlv
  on_capable_tlv-Keeps (p, o) h = elim (Bool-cases (at v "signaling_gptp_capable" == 0)) [
    | inl e ↦ rw e h
    | inr e ↦ rw e (elim (Bool-cases (tag p.gptp_capable_state == tag gptp_capable)) [
      | inl known ↦ rw known h
      | inr new ↦
          rw new (port_transition-Keeps gptp_field _ _ _ _ _ (λ p. (refl, (refl, refl))) (_, o) h)
    ])
  ]

  on_interval_request-Keeps : Keeps (fields (on_interval_request v dom key))
  unfolding on_interval_request
  on_interval_request-Keeps =
      fields-Keeps (on_interval_request v dom key)
        (λ p. (ground arith, (ground arith, ground arith)))

  on_signaling-PortsSound : (w : World) → PortsSound w → PortsSound (on_signaling v dom key w)
  unfolding on_signaling count_signaling
  on_signaling-PortsSound w h =
      in_port-PortsSound key _ _ on_interval_request-Keeps
        (in_port-PortsSound key _ _ on_capable_tlv-Keeps (in_port-PortsSound key _ w (λ s k. k) h))

module _ (v : VarLayerContext) (key : ℕ) where
  give_up_previous-PortsSound : (w : World) → PortsSound w → PortsSound (give_up_previous v key w)
  unfolding give_up_previous
  give_up_previous-PortsSound w h = elim (Option-cases (find key w.exchanges)) [
    | inl e ↦ rw (e, give_up_previous) h
    | inr (x, e) ↦
        rw (e, give_up_previous)
          (record { ports = (in_port-PortsSound key _ w (pdelay_lost-Keeps (ts_of v)) h).ports })
  ]

  on_pdelay_req-PortsSound : (w : World) → PortsSound w → PortsSound (on_pdelay_req v key w)
  unfolding on_pdelay_req request_port
  on_pdelay_req-PortsSound w h = record {
    ports =
        (in_port-PortsSound key _ _ (λ s k. k)
          (give_up_previous-PortsSound _ (in_port-PortsSound key _ w (λ s k. k) h))).ports;
  }

  match_resp-PortsSound : (w : World) → PortsSound w → PortsSound (match_resp v key w)
  unfolding match_resp
  match_resp-PortsSound w h = elim (Option-cases (find (req_key v key) w.exchanges)) [
    | inl e ↦ rw (e, match_resp) h
    | inr (x, e) ↦
        rw (e, match_resp)
          (elim (Bool-cases (x.seq == seq_of v key)) [
            | inl m ↦
                rw m (record { ports = (in_port_if_found-PortsSound _ _ w (λ s k. k) h).ports })
            | inr m ↦ rw m h
          ])
  ]

  on_pdelay_resp-PortsSound : (w : World) → PortsSound w → PortsSound (on_pdelay_resp v key w)
  unfolding on_pdelay_resp
  on_pdelay_resp-PortsSound w h = match_resp-PortsSound _ (in_port-PortsSound key _ w (λ s k. k) h)

  complete-Keeps : (e : Exchange) → Keeps (complete v key e)
  unfolding complete port_transition
  complete-Keeps e (p, o) h =
      let from = if is_unset p.capable then unknown else p.capable in
      (
        ground arith,
        ground (
          arith,
          h.1,
          length-push_capped hist_cap p.hist
              (port_entry (ts_of v) (num_of v) from as_capable
                (exchange_complete (at v "sequence_id")))
              h.1,
        ),
      )

  warn_if_slow-PortsSound :
      (e : Exchange) (w : World) → PortsSound w → PortsSound (warn_if_slow v key e w)
  unfolding warn_if_slow
  warn_if_slow-PortsSound e w h = elim (Bool-cases (is_slow v key (turnaround v key e))) [
    | inl slow ↦ rw slow (in_port_if_found-PortsSound _ _ w (port_warning-Keeps _ _ _) h)
    | inr fine ↦ rw fine h
  ]

  match_resp_fu-PortsSound : (w : World) → PortsSound w → PortsSound (match_resp_fu v key w)
  unfolding match_resp_fu
  match_resp_fu-PortsSound w h = elim (Option-cases (find (req_key v key) w.exchanges)) [
    | inl e ↦ rw (e, match_resp_fu) h
    | inr (x, e) ↦
        rw (e, match_resp_fu)
          (elim (Bool-cases (x.have_resp && (x.seq == seq_of v key))) [
            | inl m ↦ rw m (elim (Option-cases (find (req_key v key) w.ports)) [
              | inl f ↦ rw f (record { ports = h.ports })
              | inr (p, f) ↦ rw f (record {
                ports =
                    (warn_if_slow-PortsSound x _
                      (in_port-PortsSound _ _ w (complete-Keeps x) h)).ports;
              })
            ])
            | inr m ↦ rw m h
          ])
  ]

  on_pdelay_resp_fu-PortsSound : (w : World) → PortsSound w → PortsSound (on_pdelay_resp_fu v key w)
  unfolding on_pdelay_resp_fu
  on_pdelay_resp_fu-PortsSound w h =
      match_resp_fu-PortsSound _ (in_port-PortsSound key _ w (λ s k. k) h)

dispatch-PortsSound :
    (v : VarLayerContext) (msg : ℕ) (w : World) → PortsSound w → PortsSound (dispatch v msg w)
unfolding dispatch
dispatch-PortsSound v msg w h = if_either PortsSound (msg == 0) (on_sync-PortsSound v _ _ w h) (
    if_either PortsSound (msg == 8) (on_follow_up-PortsSound v _ _ w h) (
      if_either PortsSound (msg == 2) (on_pdelay_req-PortsSound v _ w h) (
        if_either PortsSound (msg == 3) (on_pdelay_resp-PortsSound v _ w h) (
          if_either PortsSound (msg == 10) (on_pdelay_resp_fu-PortsSound v _ w h) (
            if_either PortsSound (msg == 11) (on_announce-PortsSound v _ _ w h)
              (if_either PortsSound (msg == 12) (on_signaling-PortsSound v _ _ w h) h))))))

on_decode-PortsSound : (v : VarLayerContext) (w : World) → PortsSound w → PortsSound (on_decode v w)
unfolding on_decode arrive
on_decode-PortsSound v w h =
    dispatch-PortsSound v _ _ (in_port-PortsSound (key_of v) _ w (λ s k. k) h)

tick_domains-PortsSound :
    (ts : ℕ) (m : Dict ℕ Domain) (w : World) → PortsSound w → PortsSound (tick_domains ts m w)
unfolding tick_domains
tick_domains-PortsSound ts [] w h = h
tick_domains-PortsSound ts ((num, d) ∷ m) w h =
    tick_domains-PortsSound ts m _ (in_domain-PortsSound num (tick_domain ts) w h)

tick_announce-Keeps : (ts : ℕ) → Keeps (tick_announce ts)
unfolding tick_announce
tick_announce-Keeps ts (p, o) h =
    if_either (λ (s : Port × Out). PortWf s.0) _
      (port_transition-Keeps announce_field ts 0 _ _ _ (λ p. (refl, (refl, refl))) (p, o) h) h

tick_capable-Keeps : (ts : ℕ) → Keeps (tick_capable ts)
unfolding tick_capable
tick_capable-Keeps ts (p, o) h =
    if_either (λ (s : Port × Out). PortWf s.0) _
      (port_transition-Keeps gptp_field ts 0 _ _ _ (λ p. (refl, (refl, refl))) (p, o) h) h

tick_ports-PortsSound : (ts : ℕ) (w : World) → PortsSound w → PortsSound (tick_ports ts w)
unfolding tick_ports tick_port
tick_ports-PortsSound ts w h = record {
  ports =
      AllEntries-for_values (λ _ p. PortWf p) (tick_port ts) w.ports w.out
        (λ k p o g. tick_capable-Keeps ts _ (tick_announce-Keeps ts (p, o) g)) h.ports;
}

lose-Wf :
    (ts key : ℕ) (s : Dict ℕ Port × Out)
    → AllEntries (λ _ p. PortWf p) s.0
    → AllEntries (λ _ p. PortWf p) (lose ts key s).0
unfolding lose
lose-Wf ts key (ports, o) h = elim (Option-cases (find key ports)) [
  | inl e ↦ rw (e, lose) h
  | inr (p, e) ↦
      rw (e, lose)
        (AllEntries-insert (λ _ p. PortWf p) key _ ports
          (pdelay_lost-Keeps ts (p, o) (AllEntries-find (λ _ p. PortWf p) key p ports h e)) h)
]

expire-Wf :
    (ts : ℕ) (m : Dict ℕ Exchange) (s : Dict ℕ Port × Out)
    → AllEntries (λ _ p. PortWf p) s.0
    → AllEntries (λ _ p. PortWf p) (expire ts m s).1.0
unfolding expire
expire-Wf ts [] s h = h
expire-Wf ts ((key, e) ∷ m) s h = elim (Bool-cases (has_expired ts s.0 key e)) [
  | inl old ↦ rw old (expire-Wf ts m (lose ts key s) (lose-Wf ts key s h))
  | inr young ↦ rw young (expire-Wf ts m s h)
]

on_time_tick-PortsSound : (ts : ℕ) (w : World) → PortsSound w → PortsSound (on_time_tick ts w)
unfolding on_time_tick tick_exchanges
on_time_tick-PortsSound ts w h = record {
  ports =
      expire-Wf ts _ _
        (tick_ports-PortsSound ts _ (tick_domains-PortsSound ts w.domains w h)).ports;
}

step-PortsSound : (w : World) (c : Call) → PortsSound w → PortsSound (step w c)
unfolding step
step-PortsSound w (decodes v) h = on_decode-PortsSound v w h
step-PortsSound w (ticks ts) h = on_time_tick-PortsSound ts w h

-- Any decoded messages and time ticks keep every port sound: a port that is not NOT_AS_CAPABLE has lost
-- fewer than three responses in a row, and no port's history has more than 200 entries.
pub run_keeps-PortsSound : (w : World) (cs : List Call) → PortsSound w → PortsSound (run w cs)
unfolding run
run_keeps-PortsSound w [] h = h
run_keeps-PortsSound w (c ∷ cs) h = run_keeps-PortsSound (step w c) cs (step-PortsSound w c h)
