-- ===== src/Gptp/Overdue.antt =====
-- `onTimeTick` of `GptpLogic` in backend/src/logic/gptp_logic.cpp leaves nothing overdue.
use avb_introspection.Base.{
  ℕ, ◌+◌, ◌*◌, ◌/◌, ◌≡◌, refl, inl, inr, Bool, true, false, not, ◌&&◌, none, some, [], ◌∷◌, arith,
  ◌==◌, ==_iff, if◌then◌else◌, Bool-cases, Option-cases, Dict, find, find_or, insert, find-insert,
  find_or-insert, AllEntries, AllEntries-insert, AllEntries-find, AllEntries-after_loop, nat_key,
}
use avb_introspection.Gptp.Types.{
  second, sync_timeout_n, announce_timeout_n, gptp_capable_timeout_n, overdue, gm_tag, sync_tag,
  received, gptp_capable, tag,
}
use avb_introspection.Gptp.State.{Domain, new_domain, Port, Exchange, Out, World}
use avb_introspection.Gptp.Domains.{
  publish, emit_dom, dom_transition, sync_transition, age_out, best_of, eval_bmca,
}
use avb_introspection.Gptp.Ports.{is_set, port_transition, port_warning, pdelay_lost}
use avb_introspection.Gptp.Access.{domain_at, in_domain}
use avb_introspection.Gptp.Pdelay.{limit_of, has_expired, lose, expire}
use avb_introspection.Gptp.{
  tick_sync, tick_gm, tick_domain, tick_domains, tick_announce, tick_capable, tick_port, tick_ports,
  tick_exchanges, on_time_tick,
}

module _ (ts : ℕ) where
  abbrev pub sync_in_time : Domain → Bool
  sync_in_time d =
      not
        ((sync_tag d.sync_state == 1) && overdue ts d.last_sync (sync_timeout_n * d.sync_interval))

  abbrev pub gm_in_time : Domain → Bool
  gm_in_time d = not (
      (gm_tag d.gm_state == 1)
      && overdue ts d.last_announce (announce_timeout_n * d.announce_interval))

  tick_sync-in_time : (s : Domain × Out) → sync_in_time (tick_sync ts s).0 ≡ true
  unfolding tick_sync sync_transition publish emit_dom
  tick_sync-in_time (d, o) = ground arith

  eval_bmca-in_time : (d : Domain) → sync_in_time (eval_bmca ts d) ≡ sync_in_time d
  unfolding eval_bmca
  eval_bmca-in_time d =
      ground (
        arith,
        best_of none (age_out ts d.announcers),
        find d.sync_sender (age_out ts d.announcers),
      )

  tick_gm-in_time :
      (s : Domain × Out)
      → (gm_in_time (tick_gm ts s).0 ≡ true) × (sync_in_time (tick_gm ts s).0 ≡ sync_in_time s.0)
  unfolding tick_gm dom_transition publish emit_dom
  tick_gm-in_time (d, o) = (ground arith, ground arith)

  tick_domain-in_time :
      (s : Domain × Out)
      → (sync_in_time (tick_domain ts s).0 && gm_in_time (tick_domain ts s).0) ≡ true
  unfolding tick_domain
  tick_domain-in_time s =
      let after = tick_gm-in_time (eval_bmca ts (tick_sync ts s).0, (tick_sync ts s).1) in
      rw (after.0, after.1, eval_bmca-in_time (tick_sync ts s).0, tick_sync-in_time s) refl

  abbrev pub domain_in_time : ℕ → World → Bool
  domain_in_time b w = sync_in_time (domain_at b w) && gm_in_time (domain_at b w)

  in_domain-in_time :
      (b k : ℕ) (w : World)
      → domain_in_time b (in_domain k (tick_domain ts) w)
        ≡ (if b == k then true else domain_in_time b w)
  unfolding in_domain
  in_domain-in_time b k w = elim (Bool-cases (b == k)) [
    | inl e ↦ ground (arith, at_b, e, tick_domain-in_time (domain_at k w, w.out))
    | inr e ↦ ground (arith, at_b, e)
  ]
    where
      at_b : find_or new_domain b (insert k (tick_domain ts (domain_at k w, w.out)).0 w.domains) ≡ (
          if b == k
          then (tick_domain ts (domain_at k w, w.out)).0
          else find_or new_domain b w.domains)
      at_b = find_or-insert new_domain b k (tick_domain ts (domain_at k w, w.out)).0 w.domains

  tick_domains-in_time :
      (b : ℕ) (m : Dict ℕ Domain) (w : World)
      → (elim (find b m) [ none ↦ domain_in_time b w | some d ↦ true ]) ≡ true
      → domain_in_time b (tick_domains ts m w) ≡ true
  unfolding tick_domains find
  tick_domains-in_time b [] w h = h
  tick_domains-in_time b ((k, d) ∷ m) w h =
      tick_domains-in_time b m (in_domain k (tick_domain ts) w)
        (ground (arith, h, find b m, in_domain-in_time b k w))

  domains_in_time : (b : ℕ) (w : World) → domain_in_time b (tick_domains ts w.domains w) ≡ true
  domains_in_time b w = tick_domains-in_time b w.domains w (ground (arith, find b w.domains))

  abbrev pub port_in_time : Port → Bool
  port_in_time p =
      not (
        (tag p.announce_state == tag received)
        && (is_set p.last_announce
            && overdue ts p.last_announce (announce_timeout_n * p.announce_interval + second / 2)))
      && not (
          (tag p.gptp_capable_state == tag gptp_capable)
          && overdue ts p.last_capable (gptp_capable_timeout_n * p.capable_interval))

  tick_port-in_time : (p : Port) (o : Out) → port_in_time (tick_port ts p o).0 ≡ true
  unfolding tick_port tick_announce tick_capable port_transition
  tick_port-in_time p o = ground arith

  tick_ports-in_time :
      (w : World) → AllEntries (λ _ p. port_in_time p ≡ true) (tick_ports ts w).ports
  unfolding tick_ports
  tick_ports-in_time w =
      AllEntries-after_loop (λ _ _. Unit) (λ _ p. port_in_time p ≡ true) (tick_port ts) w.ports
        w.out (λ k p o _. tick_port-in_time p o) (all_units w.ports)
    where
      all_units : (m : Dict ℕ Port) → AllEntries (λ _ _. Unit) m
      all_units [] = tt
      all_units ((k, p) ∷ m) = (tt, all_units m)

  pdelay_lost-kept :
      (p : Port) (o : Out)
      → (port_in_time (pdelay_lost ts (p, o)).0 ≡ port_in_time p)
        × ((pdelay_lost ts (p, o)).0.req_interval ≡ p.req_interval)
  unfolding pdelay_lost port_warning port_transition
  pdelay_lost-kept p o = (ground arith, ground arith)

  lose-in_time :
      (key : ℕ) (s : Dict ℕ Port × Out)
      → AllEntries (λ _ p. port_in_time p ≡ true) s.0
      → AllEntries (λ _ p. port_in_time p ≡ true) (lose ts key s).0
  unfolding lose
  lose-in_time key (ports, o) h = elim (Option-cases (find key ports)) [
    | inl missing ↦ rw (missing, lose) h
    | inr (p, found) ↦
        rw (found, lose)
          (AllEntries-insert (λ _ p. port_in_time p ≡ true) key (pdelay_lost ts (p, o)).0 ports
            (ground (
              arith,
              pdelay_lost-kept p o,
              AllEntries-find (λ _ p. port_in_time p ≡ true) key p ports h found,
            ))
            h)
  ]

  lose-limit :
      (key b : ℕ) (s : Dict ℕ Port × Out)
      → limit_of (find b (lose ts key s).0) ≡ limit_of (find b s.0)
  unfolding lose limit_of
  lose-limit key b (ports, o) = elim (Option-cases (find key ports)) [
    | inl missing ↦ rw (missing, lose) refl
    | inr (p, found) ↦
        rw (found, lose)
          (ground (
            arith,
            found,
            ==_iff b key,
            find-insert b key (pdelay_lost ts (p, o)).0 ports,
            pdelay_lost-kept p o,
          ))
  ]

  expire-in_time :
      (m : Dict ℕ Exchange) (s : Dict ℕ Port × Out)
      → AllEntries (λ _ p. port_in_time p ≡ true) s.0
      → AllEntries (λ _ p. port_in_time p ≡ true) (expire ts m s).1.0
  unfolding expire
  expire-in_time [] s h = h
  expire-in_time ((key, e) ∷ m) s h = elim (Bool-cases (has_expired ts s.0 key e)) [
    | inl old ↦ rw old (expire-in_time m (lose ts key s) (lose-in_time key s h))
    | inr young ↦ rw young (expire-in_time m s h)
  ]

  expire-limit :
      (b : ℕ) (m : Dict ℕ Exchange) (s : Dict ℕ Port × Out)
      → limit_of (find b (expire ts m s).1.0) ≡ limit_of (find b s.0)
  unfolding expire
  expire-limit b [] s = refl
  expire-limit b ((key, e) ∷ m) s = elim (Bool-cases (has_expired ts s.0 key e)) [
    | inl old ↦ rw (old, expire-limit b m (lose ts key s)) (lose-limit key b s)
    | inr young ↦ rw young (expire-limit b m s)
  ]

  -- What remains has not expired, by the limits of any ports that give the same limits.
  expire-fresh :
      (m : Dict ℕ Exchange) (s : Dict ℕ Port × Out) (ports : Dict ℕ Port)
      → ((b : ℕ) → limit_of (find b ports) ≡ limit_of (find b s.0))
      → AllEntries (λ key e. has_expired ts ports key e ≡ false) (expire ts m s).0
  unfolding expire
  expire-fresh [] s ports same = tt
  expire-fresh ((key, e) ∷ m) s ports same = elim (Bool-cases (has_expired ts s.0 key e)) [
    | inl old ↦
        rw old
          (expire-fresh m (lose ts key s) ports (λ b. ground (arith, same b, lose-limit key b s)))
    | inr young ↦ rw young (rw (same key) young, expire-fresh m s ports same)
  ]

-- After a time tick nothing is overdue: no domain is HEALTHY without a Sync or GM_PRESENT without an
-- Announce within the timeout, no port is RECEIVED or GPTP_CAPABLE beyond the timeout of its own interval,
-- and no peer delay exchange is older than the limit of its port.
pub on_time_tick_none_overdue :
    (ts : ℕ) (w : World)
    → ((b : ℕ) → domain_in_time ts b (on_time_tick ts w) ≡ true)
      × (AllEntries (λ _ p. port_in_time ts p ≡ true) (on_time_tick ts w).ports
          × AllEntries
              (λ key e. has_expired ts (on_time_tick ts w).ports key e ≡ false)
              (on_time_tick ts w).exchanges)
unfolding on_time_tick tick_exchanges
on_time_tick_none_overdue ts w = (
  λ b. unfold tick_ports in domains_in_time ts b w,
  (
    expire-in_time ts _ _ (tick_ports-in_time ts (tick_domains ts w.domains w)),
    expire-fresh ts _ _ _ (λ b. expire-limit ts b _ _),
  ),
)
