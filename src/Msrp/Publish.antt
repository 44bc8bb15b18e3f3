-- ===== src/Msrp/Publish.antt =====
-- What `MsrpLogic` of backend/src/logic/msrp_logic.cpp publishes in the shared model, and that the state
-- of a reservation is the one its declarations call for.
use avb_introspection.Base.{
  ℕ, ◌≡◌, refl, false, ◌||◌, Option, none, some, List, [], ◌∷◌, ◌==◌, ==_iff, arith, inl, inr,
  Bool-cases, Dict, Set, find, find_or, find_or-insert, contains, AllEntries, AllEntries-insert,
  nat_key,
}
use avb_introspection.Context.{VarLayerContext, at}
use avb_introspection.Shared.{SharedModel}
use avb_introspection.Mrp.{Label}
use avb_introspection.Msrp.{
  same, established, Res, new_res, Out, World, attr_of, event_of, feed, on_leave_all, talker_fields,
  declare, publish_decl, on_talker, on_listener, with_res, react, set_shared, on_decode, mrp_label,
}
use avb_introspection.Msrp.Settle.{
  decl_entry, Settled, Agrees, recompute-Settled, recompute-Agrees, declare-kept, declare_withdraws,
  publish_decl-Agrees,
}

-- An operation on the reservation of a stream keeps the shared model in agreement and settles the
-- reservation.
abbrev pub Publishes : ℕ → (Res × Out → Res × Out) → Type 0
Publishes id op =
    (s : Set) (d : Dict ℕ ℕ) (r : Res × Out)
    → Agrees id s d r
    → Agrees id s d (op r) × Settled (op r).0

on_talker-Publishes : (v : VarLayerContext) → Publishes (at v "stream_id") (on_talker v)
unfolding on_talker
on_talker-Publishes v s d (r, o) g = (
  recompute-Agrees (at v "stream_id") s d _ _ _ _ (r', o') own
      (publish_decl-Agrees (at v "stream_id") s d r r' o own same_state g),
  recompute-Settled _ _ _ _ (r', o') (declare_withdraws v (talker_fields v r)),
)
  where
    r' : Res
    r' = (declare v (talker_fields v r)).0

    o' : Out
    o' = record o { shared = publish_decl r' o.shared }

    own : r'.stream_id ≡ at v "stream_id"
    own = unfold talker_fields in (declare-kept v (talker_fields v r)).0

    same_state : r'.state ≡ r.state
    same_state = unfold talker_fields in (declare-kept v (talker_fields v r)).1

on_listener-Publishes : (v : VarLayerContext) → Publishes (at v "stream_id") (on_listener v)
unfolding on_listener
on_listener-Publishes v s d (r, o) g = (
  recompute-Agrees (at v "stream_id") s d _ _ _ false (_, o) refl
      (record { places = g.places; decls = g.decls }),
  recompute-Settled _ _ _ false (_, o) (λ e. cc),
)

abbrev pub res_at : ℕ → World → Res
res_at id w = find_or new_res id w.reservations

-- What is published is what the reservations say, and every reservation is settled.
pub record IsPublished (w : World) : Type 0 where
  pub settled : AllEntries (λ _ r. Settled r) w.reservations
  pub places :
      (id : ℕ) → contains id w.out.shared.established_streams ≡ same (res_at id w).state established
  pub decls : (id : ℕ) → find id w.out.shared.msrp_talker_decl ≡ decl_entry (res_at id w).decl

with_res-IsPublished :
    (id : ℕ) (op : Res × Out → Res × Out) (w : World)
    → Publishes id op
    → IsPublished w
    → IsPublished (with_res id op w)
unfolding with_res
with_res-IsPublished id op w publishes h = record {
  settled = AllEntries-insert (λ _ r. Settled r) id _ w.reservations done.1 h.settled;
  places = λ b.
      ground
        (arith, find_or-insert new_res b id after.0 w.reservations, done.0.places b, h.places b);
  decls = λ b.
      ground (arith, find_or-insert new_res b id after.0 w.reservations, done.0.decls b, h.decls b);
}
  where
    after : Res × Out
    after = op (res_at id w, w.out)

    before :
        Agrees id w.out.shared.established_streams w.out.shared.msrp_talker_decl
          (res_at id w, w.out)
    before = record {
      places = λ b. ground (arith, ==_iff b id, h.places b);
      decls = λ b. ground (arith, ==_iff b id, h.decls b);
    }

    done :
        Agrees id w.out.shared.established_streams w.out.shared.msrp_talker_decl after
        × Settled after.0
    done = publishes _ _ (res_at id w, w.out) before

react-IsPublished : (v : VarLayerContext) (w : World) → IsPublished w → IsPublished (react v w)
unfolding react
react-IsPublished v w h = elim (Bool-cases ((attr_of v == 1) || (attr_of v == 2))) [
  | inl talks ↦ rw talks (with_res-IsPublished _ (on_talker v) w (on_talker-Publishes v) h)
  | inr a ↦ rw a (elim (Bool-cases (attr_of v == 3)) [
    | inl listens ↦
        rw listens (with_res-IsPublished _ (on_listener v) w (on_listener-Publishes v) h)
    | inr b ↦ rw b (elim (Bool-cases (attr_of v == 4)) [
      | inl c ↦ rw c (record { settled = h.settled; places = h.places; decls = h.decls })
      | inr c ↦ rw c h
    ])
  ])
]

-- What the registrar layer is told leaves the rest of the shared model alone.
feed-kept :
    (v : VarLayerContext) (o : Option Label) (s : SharedModel)
    → ((feed v o s).established_streams ≡ s.established_streams)
      × ((feed v o s).msrp_talker_decl ≡ s.msrp_talker_decl)
unfolding feed
feed-kept v none s = (refl, refl)
feed-kept v (some label) s = (refl, refl)

on_leave_all-kept :
    (v : VarLayerContext) (s : SharedModel)
    → ((on_leave_all v s).established_streams ≡ s.established_streams)
      × ((on_leave_all v s).msrp_talker_decl ≡ s.msrp_talker_decl)
unfolding on_leave_all
on_leave_all-kept v s = (ground arith, ground arith)

set_shared-IsPublished :
    (s : SharedModel) (w : World)
    → (s.established_streams ≡ w.out.shared.established_streams)
      × (s.msrp_talker_decl ≡ w.out.shared.msrp_talker_decl)
    → IsPublished w
    → IsPublished (set_shared s w)
unfolding set_shared
set_shared-IsPublished s w kept h = record {
  settled = h.settled;
  places = λ b. ground (arith, kept.0, h.places b);
  decls = λ b. ground (arith, kept.1, h.decls b);
}

on_decode-IsPublished :
    (v : VarLayerContext) (w : World) → IsPublished w → IsPublished (on_decode v w)
unfolding on_decode
on_decode-IsPublished v w h = elim (Bool-cases (event_of v == 6)) [
  | inl all ↦ rw all (set_shared-IsPublished _ w (on_leave_all-kept v w.out.shared) h)
  | inr one ↦ rw one (
      react-IsPublished v _
        (set_shared-IsPublished _ w (feed-kept v (mrp_label (attr_of v) v) w.out.shared) h))
]

unfoldable pub run : World → List VarLayerContext → World
run w [] = w
run w (v ∷ vs) = run (on_decode v w) vs

-- Any decoded messages keep MSRP's part of the shared model true: a stream is listed as established
-- exactly if its reservation is ESTABLISHED, and has a talker attribute of the given kind exactly if that
-- is its reservation's declaration. Every reservation stays settled: it is ESTABLISHED exactly if the
-- talker advertises and a listener is Ready or ReadyFailed, TALKER_FAILED exactly if the talker declares a
-- failure, and PENDING with an advertisement exactly if no listener is ready or asks in vain.
pub run_keeps-IsPublished :
    (w : World) (vs : List VarLayerContext) → IsPublished w → IsPublished (run w vs)
unfolding run
run_keeps-IsPublished w [] h = h
run_keeps-IsPublished w (v ∷ vs) h =
    run_keeps-IsPublished (on_decode v w) vs (on_decode-IsPublished v w h)
