-- ===== src/Engine/InTime.antt =====
-- What the time ticks of the state pass in backend/src/engine/engine.cpp come to for all modules together.
use avb_introspection.Base.{
  ℕ, ◌+◌, ◌∙◌, Bool, ltb, ◌≡◌, refl, sym, subst, true, false, List, [], ◌∷◌, AllEntries, find_or,
  nat_key, ◌⊎◌, inl, inr,
}
use avb_introspection.Adp
use avb_introspection.Adp.Expiry
use avb_introspection.Acmp.Timeouts
use avb_introspection.Acmp.Tick
use avb_introspection.Mrp
use avb_introspection.Mrp.Timer
use avb_introspection.Engine.Frames.{adp_tick-mrp, aecp_tick-mrp, mvrp_tick-mrp, gptp_tick-mrp}
use avb_introspection.Aecp.Deadlines
use avb_introspection.Gptp.Overdue
use avb_introspection.Gptp.Pdelay
use avb_introspection.Decode.Types.{Proto, mvrp, adp, aecp, acmp, gptp}
use avb_introspection.Engine.Modules.{
  AnalysisState, Told, on_time_tick, gptp_of, adp_of, acmp_of, aecp_of, mvrp_of,
}
use avb_introspection.Engine.{Packet, Pass, push_event, push_transitions, tick, tick_all, handle}

-- An entity that is AVAILABLE past the time it announced.
abbrev pub expires_at : ℕ → Adp.Entity → Bool
expires_at ts e = Expiry.expires ts e.state e.last_seen e.valid_time

-- What has expired at the time has been taken note of: in ADP no entity is available past its valid time; in
-- ACMP no command is in flight beyond its time limit and no sink has a timer overdue; in AECP no command is in
-- flight beyond its time limit; in gPTP nothing is overdue; and for MVRP no leave timer of a registrar is
-- overdue, if `mrpLvCount` says that there are any to look at.
pub data InTime : Proto → ℕ → AnalysisState → Type 0 where
  adp_in_time :
      {ts : ℕ} {s : AnalysisState}
      → ((id : ℕ) → expires_at ts (find_or Adp.new_entity id s.adp_world.entities) ≡ false)
      → InTime adp ts s
  mvrp_in_time :
      {ts : ℕ} {s : AnalysisState}
      → (s.shared.mrp.lv_count ≡ 0)
        ⊎ AllEntries
            (λ _ a. Timer.has_left ts a.registrar a.leave_timer_start ≡ false)
            s.shared.mrp.attrs
      → InTime mvrp ts s
  acmp_in_time :
      {ts : ℕ} {s : AnalysisState}
      → AllEntries (λ _ f. Timeouts.is_late ts f ≡ false) s.acmp_world.inflight
      → AllEntries (λ _ k. Tick.is_overdue ts k ≡ false) s.acmp_world.milan.sinks
      → InTime acmp ts s
  aecp_in_time :
      {ts : ℕ} {s : AnalysisState}
      → AllEntries (λ _ f. ltb (f.sent_ts + 250000000) ts ≡ false) s.aecp_world.inflight
      → InTime aecp ts s
  gptp_in_time :
      {ts : ℕ} {s : AnalysisState}
      → ((b : ℕ) → Overdue.domain_in_time ts b s.gptp_world ≡ true)
      → AllEntries (λ _ p. Overdue.port_in_time ts p ≡ true) s.gptp_world.ports
      → AllEntries
          (λ key e. Pdelay.has_expired ts s.gptp_world.ports key e ≡ false)
          s.gptp_world.exchanges
      → InTime gptp ts s

-- The modules with an `onTimeTick` of their own.
pub data Watches : Proto → Type 0 where
  adp_watches : Watches adp
  mvrp_watches : Watches mvrp
  acmp_watches : Watches acmp
  aecp_watches : Watches aecp
  gptp_watches : Watches gptp

-- What the registrars say of the time, for a state that has these registrars.
same_mrp :
    (ts : ℕ) (s : AnalysisState) (m : Mrp.Mrp)
    → s.shared.mrp ≡ m
    → (m.lv_count ≡ 0)
      ⊎ AllEntries (λ _ a. Timer.has_left ts a.registrar a.leave_timer_start ≡ false) m.attrs
    → InTime mvrp ts s
same_mrp ts s m e h = mvrp_in_time (
    subst
      (λ (m : Mrp.Mrp).
        (m.lv_count ≡ 0)
        ⊎ AllEntries (λ _ a. Timer.has_left ts a.registrar a.leave_timer_start ≡ false) m.attrs)
      (sym e) h)

tick_self :
    {q : Proto} (ts : ℕ) (s : AnalysisState) → Watches q → InTime q ts (on_time_tick q ts s).0
unfolding on_time_tick
tick_self ts s adp_watches = adp_in_time (λ id.
    let e : Adp.Entity = find_or Adp.new_entity id (Adp.on_time_tick ts (adp_of s)).entities in
    sym (Expiry.expires-guard ts e.state e.last_seen e.valid_time)
    ∙ Expiry.on_time_tick_in_time ts id (adp_of s))
tick_self ts s acmp_watches =
    acmp_in_time (Timeouts.on_time_tick-none_late s.shared ts (acmp_of s))
      (Tick.on_time_tick-sinks_in_time s.shared ts (acmp_of s))
tick_self ts s mvrp_watches =
    same_mrp ts _ _ (mvrp_tick-mrp ts (mvrp_of s)) (Timer.tick_or_idle ts s.shared.mrp)
tick_self ts s aecp_watches = aecp_in_time (Deadlines.on_time_tick-timeouts ts (aecp_of s) (0, 0)).1
tick_self ts s gptp_watches =
    let none = Overdue.on_time_tick_none_overdue ts (gptp_of s) in
    gptp_in_time none.0 none.1.0 none.1.1

-- The tick of a module keeps what holds of the others, since each has its own maps, and only MVRP's changes
-- the registrars.
tick_keeps :
    {q : Proto} (r : Proto) (ts : ℕ) (s : AnalysisState)
    → InTime q ts s
    → InTime q ts (on_time_tick r ts s).0
unfolding on_time_tick
tick_keeps adp ts s (adp_in_time f) = tick_self ts s adp_watches
tick_keeps mvrp ts s (mvrp_in_time f) = tick_self ts s mvrp_watches
tick_keeps acmp ts s (acmp_in_time f g) = tick_self ts s acmp_watches
tick_keeps aecp ts s (aecp_in_time f) = tick_self ts s aecp_watches
tick_keeps gptp ts s (gptp_in_time f g h) = tick_self ts s gptp_watches
tick_keeps adp ts s (mvrp_in_time h) = same_mrp ts _ _ (adp_tick-mrp ts (adp_of s)) h
tick_keeps gptp ts s (mvrp_in_time h) = same_mrp ts _ _ (gptp_tick-mrp ts (gptp_of s)) h
tick_keeps aecp ts s (mvrp_in_time h) = same_mrp ts _ _ (aecp_tick-mrp ts (aecp_of s)) h
tick_keeps _ ts s (mvrp_in_time h) = mvrp_in_time h
tick_keeps _ ts s (adp_in_time f) = adp_in_time f
tick_keeps _ ts s (acmp_in_time f g) = acmp_in_time f g
tick_keeps _ ts s (aecp_in_time f) = aecp_in_time f
tick_keeps _ ts s (gptp_in_time f g h) = gptp_in_time f g h

-- Events are no part of the modules' state.
push_transitions-logic :
    (n ts : ℕ) (proto : Proto) (told : List Told) (p : Pass)
    → (push_transitions n ts proto told p).logic ≡ p.logic
unfolding push_transitions push_event
push_transitions-logic n ts proto [] p = refl
push_transitions-logic n ts proto (t ∷ told) p = push_transitions-logic n ts proto told _

tick-logic : (ts : ℕ) (q : Proto) (p : Pass) → (tick ts q p).logic ≡ (on_time_tick q ts p.logic).0
unfolding tick
tick-logic ts q p = push_transitions-logic 0 ts q _ _

abbrev pub Among : Proto → List Proto → Type 0
Among q [] = ⊥
Among q (s ∷ services) = (q ≡ s) ⊎ Among q services

tick_all-keeps :
    {q : Proto} (ts : ℕ) (services : List Proto) (p : Pass)
    → InTime q ts p.logic
    → InTime q ts (tick_all ts services p).logic
unfolding tick_all
tick_all-keeps ts [] p h = h
tick_all-keeps {q} ts (s ∷ services) p h =
    tick_all-keeps ts services (tick ts s p)
      (subst (InTime q ts) (sym (tick-logic ts s p)) (tick_keeps s ts p.logic h))

tick_all-InTime :
    {q : Proto} (ts : ℕ) (services : List Proto) (p : Pass)
    → Watches q
    → Among q services
    → InTime q ts (tick_all ts services p).logic
unfolding tick_all
tick_all-InTime ts [] p w among = absurd among
tick_all-InTime {q} ts (s ∷ services) p w (inl e) = tick_all-keeps ts services (tick ts s p) (
    subst (InTime q ts) (sym (tick-logic ts s p))
      (subst (λ r. InTime q ts (on_time_tick r ts p.logic).0) e (tick_self ts p.logic w)))
tick_all-InTime ts (s ∷ services) p w (inr rest) = tick_all-InTime ts services (tick ts s p) w rest

-- After a packet of interest each of the five modules with an `onTimeTick` of its own, if it is among the
-- modules, has taken note of what had expired by the packet's time: in ADP no entity is available past its valid
-- time; in ACMP no command is in flight beyond its time limit and no sink has a timer overdue; in AECP no command
-- is in flight beyond its time limit; in gPTP nothing is overdue; and for MVRP the count of running leave timers
-- is 0 or no leave timer of a registrar is overdue. The order in which the modules are called, which is a hash
-- map's, does not matter, nor whether the packet was decoded.
pub handle-InTime :
    {q : Proto} (services : List Proto) (x : Packet) (p : Pass)
    → Watches q
    → Among q services
    → x.decoded.interesting ≡ true
    → InTime q x.ts (handle services x p).logic
unfolding handle
handle-InTime services x p w among e = simp e (tick_all-InTime x.ts services _ w among)
