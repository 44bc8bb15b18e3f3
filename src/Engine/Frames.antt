-- ===== src/Engine/Frames.antt =====
-- The time ticks of the modules in the state pass of backend/src/engine/engine.cpp leave the MRP registrars of
-- the shared model alone, but for MVRP's, which is `mrpTick`.
use avb_introspection.Base.{ℕ, ◌≡◌, refl, ◌∙◌, ap, [], ◌∷◌, arith, Dict, for_values}
use avb_introspection.Adp
use avb_introspection.Aecp
use avb_introspection.Mrp
use avb_introspection.Mvrp
use avb_introspection.Gptp.State.{Domain, Out, World}
use avb_introspection.Gptp.Domains.{publish, emit_dom, dom_transition, sync_transition}
use avb_introspection.Gptp.Access.{in_domain}
use avb_introspection.Gptp.Untouched.{tick_ports-Same, tick_exchanges-Same}
use avb_introspection.Gptp.{tick_sync, tick_gm, tick_domain, tick_domains, on_time_tick}

tick_entities-mrp :
    (ts : ℕ) (m : Dict ℕ Adp.Entity) (o : Adp.Out)
    → (for_values (Adp.tick_entity ts) m o).1.shared.mrp ≡ o.shared.mrp
unfolding for_values
tick_entities-mrp ts [] o = refl
tick_entities-mrp ts ((k, e) ∷ m) o = tick_entities-mrp ts m (Adp.tick_entity ts e o).1 ∙ one
  where
    one : (Adp.tick_entity ts e o).1.shared.mrp ≡ o.shared.mrp
    one = unfold Adp.tick_entity in unfold Adp.transition in ground arith

pub adp_tick-mrp :
    (ts : ℕ) (w : Adp.World) → (Adp.on_time_tick ts w).out.shared.mrp ≡ w.out.shared.mrp
adp_tick-mrp ts w = unfold Adp.on_time_tick in tick_entities-mrp ts w.entities w.out

pub aecp_tick-mrp : (ts : ℕ) (w : Aecp.World) → (Aecp.on_time_tick ts w).shared.mrp ≡ w.shared.mrp
aecp_tick-mrp ts w = unfold Aecp.on_time_tick in refl

pub mvrp_tick-mrp :
    (ts : ℕ) (w : Mvrp.World) → (Mvrp.on_time_tick ts w).shared.mrp ≡ Mrp.tick ts w.shared.mrp
mvrp_tick-mrp ts w = unfold Mvrp.on_time_tick in refl

tick_domain-mrp : (ts : ℕ) (s : Domain × Out) → (tick_domain ts s).1.shared.mrp ≡ s.1.shared.mrp
unfolding tick_domain tick_sync tick_gm sync_transition dom_transition publish emit_dom
tick_domain-mrp ts (d, o) = ground arith

tick_domains-mrp :
    (ts : ℕ) (m : Dict ℕ Domain) (w : World)
    → (tick_domains ts m w).out.shared.mrp ≡ w.out.shared.mrp
unfolding tick_domains in_domain
tick_domains-mrp ts [] w = refl
tick_domains-mrp ts ((num, d) ∷ m) w =
    tick_domains-mrp ts m (in_domain num (tick_domain ts) w) ∙ tick_domain-mrp ts _

pub gptp_tick-mrp : (ts : ℕ) (w : World) → (on_time_tick ts w).out.shared.mrp ≡ w.out.shared.mrp
unfolding on_time_tick
gptp_tick-mrp ts w =
    ap (λ s. s.mrp) ((tick_exchanges-Same ts _).shared)
    ∙ (ap (λ s. s.mrp) ((tick_ports-Same ts _).shared) ∙ tick_domains-mrp ts w.domains w)
