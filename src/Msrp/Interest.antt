-- ===== src/Msrp/Interest.antt =====
-- What one message does to the listeners of a reservation and to their registrars: `MsrpLogic` of
-- backend/src/logic/msrp_logic.cpp.
use avb_introspection.Base.{
  ℕ, ◌≡◌, refl, ap, ◌∙◌, Bool, true, false, ◌&&◌, ◌||◌, not, Option, none, some, ◌==◌, ==_iff,
  if◌then◌else◌, arith, ◌⊎◌, find, find-insert, find-erase, insert, erase, ◌=?◌, nat_key, Dict,
}
use avb_introspection.Context.{VarLayerContext, at, ts_of, num_of}
use avb_introspection.Shared.{SharedModel}
use avb_introspection.Mrp.{
  MrpKey, mrp_key, msrp, talker_advertise, talker_failed, listener, domain, inn, Registrar, Label,
}
use avb_introspection.Mrp.Table.{registrar_at, table, event-table}
use avb_introspection.Msrp.{
  Res, Out, World, attr_of, event_of, four_packed, registrar_event, feed, declare, talker_fields,
  publish_decl, on_talker, on_listener, recompute, move_to, mrp_kind, mrp_label, State, Why,
}
use avb_introspection.Msrp.Publish.{res_at}

-- The listener has declared an interest: its last declaration is not Ignore.
unfoldable pub is_interested : ℕ → Dict ℕ ℕ → Bool
is_interested src listeners = elim (find src listeners) [ none ↦ false | some fp ↦ not (fp == 0) ]

abbrev pub key_of : ℕ → ℕ → MrpKey
key_of id src = (msrp, listener id, src)

abbrev the_key : Label → ℕ → MrpKey
the_key l src = (msrp, l, src)

-- Whoever has a Listener registrar in IN is a listener of the reservation.
abbrev pub Agree : World → Type 0
Agree w =
    (id src : ℕ)
    → registrar_at (key_of id src) w.out.shared.mrp ≡ inn
    → is_interested src (res_at id w).listeners ≡ true

pub table-inn :
    (ev : ℕ) (r : Registrar)
    → table ev r ≡ inn
    → (((ev == 0) || ((ev == 1) || (ev == 3))) ≡ true) ⊎ ((r ≡ inn) × ((ev == 5) ≡ false))
unfolding table
table-inn ev r h = ground arith

move_to-listeners :
    (ts n : ℕ) (to : State) (why : Why) (r : Res × Out)
    → ((move_to ts n to why r).0.listeners ≡ r.0.listeners)
      × ((move_to ts n to why r).1.shared.mrp ≡ r.1.shared.mrp)
unfolding move_to
move_to-listeners ts n to why (r, o) = (ground arith, ground arith)

recompute-listeners :
    (ts n : ℕ) (why : Why) (withdrew : Bool) (r : Res × Out)
    → ((recompute ts n why withdrew r).0.listeners ≡ r.0.listeners)
      × ((recompute ts n why withdrew r).1.shared.mrp ≡ r.1.shared.mrp)
unfolding recompute
recompute-listeners ts n why withdrew (r, o) = move_to-listeners ts n _ why (_, o)

declare-listeners :
    (v : VarLayerContext) (r : Res) → (declare v (talker_fields v r)).0.listeners ≡ r.listeners
unfolding declare talker_fields
declare-listeners v r = ground arith

pub on_talker-listeners :
    (v : VarLayerContext) (r : Res × Out)
    → ((on_talker v r).0.listeners ≡ r.0.listeners)
      × ((on_talker v r).1.shared.mrp ≡ r.1.shared.mrp)
unfolding on_talker publish_decl
on_talker-listeners v (r, o) =
    let (same_listeners, same_mrp) =
      recompute-listeners (ts_of v) (num_of v) _ (event_of v == 5) (_, _) in
    (same_listeners ∙ declare-listeners v r, same_mrp)

pub on_listener-listeners :
    (v : VarLayerContext) (src : ℕ) (r : Res × Out)
    → (is_interested src (on_listener v r).0.listeners ≡ (
        if src == at v "src_mac"
        then not (event_of v == 5) && not (four_packed v == 0)
        else is_interested src r.0.listeners))
      × ((on_listener v r).1.shared.mrp ≡ r.1.shared.mrp)
unfolding on_listener
on_listener-listeners v src (r, o) =
    let (same_listeners, same_mrp) = recompute-listeners (ts_of v) (num_of v) _ false (_, o) in
    (ap (is_interested src) same_listeners ∙ unfold is_interested in changed, same_mrp)
  where
    changed :
        is_interested src (
          if (event_of v == 5) || (four_packed v == 0)
          then erase (at v "src_mac") r.listeners
          else insert (at v "src_mac") (four_packed v) r.listeners)
        ≡ (if src == at v "src_mac"
            then not (event_of v == 5) && not (four_packed v == 0)
            else is_interested src r.listeners)
    changed =
        unfold is_interested in
        ground (
          arith,
          find-erase src (at v "src_mac") r.listeners,
          find-insert src (at v "src_mac") (four_packed v) r.listeners,
        )

-- The key of another stream or listener is another key, and so is that of another kind.
key_test :
    (id src id' src' : ℕ) → (key_of id src =? key_of id' src') ≡ ((id == id') && (src == src'))
key_test id src id' src' =
    ground
      (arith, mrp_key.beq_iff (key_of id src) (key_of id' src'), ==_iff id id', ==_iff src src')

-- What a label says of a listener.
abbrev names_listener : ℕ → Label → Bool
names_listener id (listener id') = id == id'
names_listener id _ = false

key_test_label :
    (id src : ℕ) (l : Label) (src' : ℕ)
    → (key_of id src =? (the_key l src')) ≡ (names_listener id l && (src == src'))
key_test_label id src (listener id') src' = key_test id src id' src'
key_test_label id src (Label.vlan a) src' =
    ground (arith, mrp_key.beq_iff (key_of id src) (the_key (Label.vlan a) src'))
key_test_label id src (talker_advertise a) src' =
    ground (arith, mrp_key.beq_iff (key_of id src) (the_key (talker_advertise a) src'))
key_test_label id src (talker_failed a) src' =
    ground (arith, mrp_key.beq_iff (key_of id src) (the_key (talker_failed a) src'))
key_test_label id src (domain a b c) src' =
    ground (arith, mrp_key.beq_iff (key_of id src) (the_key (domain a b c) src'))

abbrev option_names : ℕ → Option Label → Bool
option_names id none = false
option_names id (some l) = names_listener id l

fed-registrar :
    (v : VarLayerContext) (id src : ℕ) (o : Option Label) (s : SharedModel)
    → registrar_at (key_of id src) (feed v o s).mrp ≡ (
        if option_names id o && (src == at v "src_mac")
        then table (registrar_event v) (registrar_at (key_of id src) s.mrp)
        else registrar_at (key_of id src) s.mrp)
unfolding feed
fed-registrar v id src none s = refl
fed-registrar v id src (some l) s =
    event-table msrp (mrp_kind (attr_of v)) l (at v "src_mac") (registrar_event v) (ts_of v)
      (num_of v) s.mrp (key_of id src)
    ∙ rw (key_test_label id src l (at v "src_mac")) refl

option_names-mrp_label :
    (v : VarLayerContext) (id : ℕ)
    → option_names id (mrp_label (attr_of v) v) ≡ ((attr_of v == 3) && (id == at v "stream_id"))
unfolding mrp_label
option_names-mrp_label v id = ground arith

-- The registrar of a listener after the registrar layer is fed.
pub feed-registrar :
    (v : VarLayerContext) (id src : ℕ) (s : SharedModel)
    → registrar_at (key_of id src) (feed v (mrp_label (attr_of v) v) s).mrp ≡ (
        if (attr_of v == 3) && ((id == at v "stream_id") && (src == at v "src_mac"))
        then table (registrar_event v) (registrar_at (key_of id src) s.mrp)
        else registrar_at (key_of id src) s.mrp)
feed-registrar v id src s =
    ground (arith, fed-registrar v id src (mrp_label (attr_of v) v) s, option_names-mrp_label v id)
