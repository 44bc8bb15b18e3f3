-- ===== src/Msrp/Listeners.antt =====
-- The listeners of a reservation and the registrar layer agree: `MsrpLogic` of
-- backend/src/logic/msrp_logic.cpp with backend/src/logic/mrp_registrar.cpp beneath it.
use avb_introspection.Base.{
  ℕ, ◌≡◌, ◌&&◌, not, List, [], ◌∷◌, ◌==◌, ==_iff, if◌then◌else◌, arith, inl, inr, Bool-cases,
  find_or-insert, nat_key,
}
use avb_introspection.Context.{VarLayerContext, at, ts_of, num_of}
use avb_introspection.Mrp.{mrp_key, msrp}
use avb_introspection.Mrp.Table.{registrar_at}
use avb_introspection.Mrp.Registered.{leave_all-inn, tick-inn}
use avb_introspection.Mrp
use avb_introspection.Msrp.{
  Res, new_res, Out, World, attr_of, event_of, four_packed, registrar_event, feed, on_leave_all,
  on_talker, on_listener, with_res, react, set_shared, on_decode, mrp_kind, mrp_label,
}
use avb_introspection.Msrp.Publish.{res_at}
use avb_introspection.Msrp.Interest.{
  is_interested, key_of, Agree, on_talker-listeners, on_listener-listeners, feed-registrar,
  table-inn,
}

with_talker-interested :
    (v : VarLayerContext) (id src : ℕ) (w : World)
    → (is_interested src (res_at id (with_res (at v "stream_id") (on_talker v) w)).listeners
        ≡ is_interested src (res_at id w).listeners)
      × ((with_res (at v "stream_id") (on_talker v) w).out.shared.mrp ≡ w.out.shared.mrp)
unfolding with_res
with_talker-interested v id src w = (
  ground (arith, ==_iff id sid, find_or-insert new_res id sid after.0 w.reservations, kept.0),
  kept.1,
)
  where
    sid : ℕ
    sid = at v "stream_id"

    after : Res × Out
    after = on_talker v (res_at sid w, w.out)

    kept : (after.0.listeners ≡ (res_at sid w).listeners) × (after.1.shared.mrp ≡ w.out.shared.mrp)
    kept = on_talker-listeners v (res_at sid w, w.out)

with_listener-interested :
    (v : VarLayerContext) (id src : ℕ) (w : World)
    → (is_interested src (res_at id (with_res (at v "stream_id") (on_listener v) w)).listeners ≡ (
        if (id == at v "stream_id") && (src == at v "src_mac")
        then not (event_of v == 5) && not (four_packed v == 0)
        else is_interested src (res_at id w).listeners))
      × ((with_res (at v "stream_id") (on_listener v) w).out.shared.mrp ≡ w.out.shared.mrp)
unfolding with_res
with_listener-interested v id src w = (
  ground (arith, ==_iff id sid, find_or-insert new_res id sid after.0 w.reservations, kept.0),
  kept.1,
)
  where
    sid : ℕ
    sid = at v "stream_id"

    after : Res × Out
    after = on_listener v (res_at sid w, w.out)

    kept :
        (is_interested src after.0.listeners ≡ (
          if src == at v "src_mac"
          then not (event_of v == 5) && not (four_packed v == 0)
          else is_interested src (res_at sid w).listeners))
        × (after.1.shared.mrp ≡ w.out.shared.mrp)
    kept = on_listener-listeners v src (res_at sid w, w.out)

react-interested :
    (v : VarLayerContext) (id src : ℕ) (w : World)
    → (is_interested src (res_at id (react v w)).listeners ≡ (
        if (attr_of v == 3) && ((id == at v "stream_id") && (src == at v "src_mac"))
        then not (event_of v == 5) && not (four_packed v == 0)
        else is_interested src (res_at id w).listeners))
      × ((react v w).out.shared.mrp ≡ w.out.shared.mrp)
unfolding react
react-interested v id src w = (
  ground (arith, with_talker-interested v id src w, with_listener-interested v id src w),
  ground (arith, with_talker-interested v id src w, with_listener-interested v id src w),
)

on_declaration-Agree :
    (v : VarLayerContext) (w : World)
    → Agree w
    → Agree (react v (set_shared (feed v (mrp_label (attr_of v) v) w.out.shared) w))
on_declaration-Agree v w h id src e =
    unfold set_shared in
    unfold registrar_event in
    ground (
      arith,
      e,
      h id src,
      react-interested v id src (set_shared (feed v (mrp_label (attr_of v) v) w.out.shared) w),
      feed-registrar v id src w.out.shared,
      table-inn (registrar_event v) (registrar_at (key_of id src) w.out.shared.mrp),
    )

on_leave_all-Agree :
    (v : VarLayerContext) (w : World) → Agree w → Agree (set_shared (on_leave_all v w.out.shared) w)
unfolding set_shared on_leave_all
on_leave_all-Agree v w h id src e = ground (
  arith,
  e,
  h id src,
  leave_all-inn msrp (mrp_kind (attr_of v)) (ts_of v) (num_of v) w.out.shared.mrp (key_of id src),
)

on_decode-Agree : (v : VarLayerContext) (w : World) → Agree w → Agree (on_decode v w)
unfolding on_decode
on_decode-Agree v w h = elim (Bool-cases (event_of v == 6)) [
  | inl all ↦ rw all (on_leave_all-Agree v w h)
  | inr one ↦ rw one (on_declaration-Agree v w h)
]

-- A message to MSRP, or the time tick that MVRP passes to the registrars of both.
pub data Call : Type 0 where
  decodes : VarLayerContext → Call
  ticks : ℕ → Call

unfoldable pub step : World → Call → World
step w (decodes v) = on_decode v w
step w (ticks ts) = set_shared (record (w.out.shared) { mrp = Mrp.tick ts w.out.shared.mrp }) w

unfoldable pub run : World → List Call → World
run w [] = w
run w (c ∷ cs) = run (step w c) cs

step-Agree : (w : World) (c : Call) → Agree w → Agree (step w c)
unfolding step set_shared
step-Agree w (decodes v) h = on_decode-Agree v w h
step-Agree w (ticks ts) h = λ id src e. h id src (tick-inn ts w.out.shared.mrp (key_of id src) e)

-- Over any MSRP messages and time ticks, whenever the registrar of a stream's Listener attribute is IN
-- for a source, the reservation of the stream lists that source, with a declaration other than Ignore.
pub run_keeps-Agree : (w : World) (cs : List Call) → Agree w → Agree (run w cs)
unfolding run
run_keeps-Agree w [] h = h
run_keeps-Agree w (c ∷ cs) h = run_keeps-Agree (step w c) cs (step-Agree w c h)
