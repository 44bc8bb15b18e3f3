-- ===== src/Mrp/Registered.antt =====
-- What can make a registrar IN: of the operations of backend/src/logic/mrp_registrar.cpp only a
-- declaration, since `mrpLeaveAll` and `mrpTick` never register.
use avb_introspection.Base.{
  ℕ, ◌≡◌, none, String, arith, ◌==◌, inl, inr, Bool-cases, Option-cases, find, find_or,
  find-map_values, for_values-map, string_key,
}
use avb_introspection.Mrp.{
  Proto, MrpKey, MrpAttr, Mrp, inn, mt, shown, set_registrar, tick_attr, tick_loop, tick,
  leave_all_attr, leave_all, mrp_key, proto_key,
}
use avb_introspection.Mrp.Table.{registrar_at, leave_all_scope, leave_all_attr-any}

leave_all_missing :
    (proto : Proto) (kind : String) (ts n : ℕ) (m : Mrp) (k : MrpKey)
    → find k m.attrs ≡ none
    → registrar_at k (leave_all proto kind ts n m) ≡ mt
unfolding leave_all
leave_all_missing proto kind ts n m k e =
    let one = λ (b : MrpAttr). (leave_all_attr proto kind ts n b 0).0 in
    rw (
      for_values-map (leave_all_attr proto kind ts n) one m.attrs m.lv_count
          (leave_all_attr-any proto kind ts n),
      find_or,
      find-map_values one k m.attrs,
      e,
    )

pub leave_all-inn :
    (proto : Proto) (kind : String) (ts n : ℕ) (m : Mrp) (k : MrpKey)
    → registrar_at k (leave_all proto kind ts n m) ≡ inn
    → registrar_at k m ≡ inn
leave_all-inn proto kind ts n m k h = elim (Option-cases (find k m.attrs)) [
  | inl missing ↦ ground (arith, leave_all_missing proto kind ts n m k missing)
  | inr (a, found) ↦ ground (arith, leave_all_scope proto kind ts n m k a found)
]

tick_attr-any : (ts : ℕ) (a : MrpAttr) (c : ℕ) → (tick_attr ts a c).0 ≡ (tick_attr ts a 0).0
unfolding tick_attr set_registrar
tick_attr-any ts a c = ground arith

tick_attr-inn :
    (ts : ℕ) (a : MrpAttr) → shown (tick_attr ts a 0).0.registrar ≡ inn → shown a.registrar ≡ inn
unfolding tick_attr set_registrar
tick_attr-inn ts a h = ground arith

tick_loop-inn :
    (ts : ℕ) (m : Mrp) (k : MrpKey) → registrar_at k (tick_loop ts m) ≡ inn → registrar_at k m ≡ inn
unfolding tick_loop
tick_loop-inn ts m k h =
    let one = λ (b : MrpAttr). (tick_attr ts b 0).0 in
    let looped = for_values-map (tick_attr ts) one m.attrs m.lv_count (tick_attr-any ts) in
    elim (Option-cases (find k m.attrs)) [
      | inl missing ↦ ground (arith, looped, find-map_values one k m.attrs)
      | inr (a, found) ↦ ground (arith, looped, find-map_values one k m.attrs, tick_attr-inn ts a)
    ]

pub tick-inn :
    (ts : ℕ) (m : Mrp) (k : MrpKey) → registrar_at k (tick ts m) ≡ inn → registrar_at k m ≡ inn
unfolding tick
tick-inn ts m k h = elim (Bool-cases (m.lv_count == 0)) [
  | inl idle ↦ ground arith
  | inr busy ↦ ground (arith, tick_loop-inn ts m k)
]
