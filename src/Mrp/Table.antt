-- ===== src/Mrp/Table.antt =====
-- The registrar against the table of IEEE 802.1Q 10.7.8: proofs for `mrpEvent` and `mrpLeaveAll` of
-- backend/src/logic/mrp_registrar.cpp.
use avb_introspection.Base.{
  Option, none, some, refl, ℕ, ◌≡◌, ◌∙◌, ap, ◌||◌, ◌&&◌, some, String, arith, if◌then◌else◌, ◌==◌,
  inl, inr, Bool-cases, ◌=?◌, find, find_or, find_or-insert, find-map_values, for_values-map,
  string_key,
}
use avb_introspection.Mrp.{
  Proto, Label, MrpKey, MrpAttr, Mrp, Registrar, lv, inn, same, shown, new_attr, set_registrar,
  touch, join, leave, react, write_log, event_attr, event, leave_all_attr, leave_all, mrp_key,
  proto_key,
}

-- The registrar that the map shows for a key; a key that is missing is MT.
abbrev pub registrar_at : MrpKey → Mrp → Registrar
registrar_at k m = shown (find_or new_attr k m.attrs).registrar

-- The leave timer of a key; it does not run for a key that is missing.
abbrev pub timer_at : MrpKey → Mrp → Option ℕ
timer_at k m = (find_or new_attr k m.attrs).leave_timer_start

-- The table: New and the joins register, Lv starts the leave timer of a registered value, and the
-- other events leave the registrar alone.
unfoldable pub table : ℕ → Registrar → Registrar
table ev inn = if ev == 5 then lv else inn
table ev r = if (ev == 0 || ev == 1) || ev == 3 then inn else r

react-registrar :
    (ev ts n : ℕ) (a : MrpAttr) (c : ℕ)
    → shown (react ev ts n a c).0.registrar ≡ table ev (shown a.registrar)
unfolding react join leave set_registrar table
react-registrar ev ts n a c = ground arith

event_attr-registrar :
    (proto : Proto) (kind : String) (key : Label) (source ev ts n : ℕ) (a : MrpAttr) (c : ℕ)
    → shown (event_attr proto kind key source ev ts n a c).0.registrar
      ≡ table ev (shown a.registrar)
unfolding event_attr write_log
event_attr-registrar proto kind key source ev ts n a c =
    react-registrar ev ts n (touch proto kind key source ev ts a) c ∙ ap (table ev) touched
  where
    touched : shown (touch proto kind key source ev ts a).registrar ≡ shown a.registrar
    touched = unfold touch in ground arith

-- `mrpEvent` moves the registrar of the one attribute that it names by the table, and leaves all
-- others as they were.
pub event-table :
    (proto : Proto) (kind : String) (key : Label) (source ev ts n : ℕ) (m : Mrp) (k : MrpKey)
    → registrar_at k (event proto kind key source ev ts n m)
      ≡ (if k =? (proto, key, source) then table ev (registrar_at k m) else registrar_at k m)
unfolding event
event-table proto kind key source ev ts n m k =
    let at : MrpKey = (proto, key, source) in
    let (a, c) =
      event_attr proto kind key source ev ts n (find_or new_attr at m.attrs) m.lv_count in
    rw (find_or-insert new_attr k at a m.attrs) (elim (Bool-cases (k =? at)) [
      | inl e ↦
          rw (e, (mrp_key.beq_iff k at).0 e)
            (event_attr-registrar proto kind key source ev ts n (find_or new_attr at m.attrs)
              m.lv_count)
      | inr e ↦ rw e
    ])

pub leave_all_attr-any :
    (proto : Proto) (kind : String) (ts n : ℕ) (a : MrpAttr) (c : ℕ)
    → (leave_all_attr proto kind ts n a c).0 ≡ (leave_all_attr proto kind ts n a 0).0
unfolding leave_all_attr set_registrar
leave_all_attr-any proto kind ts n a c = ground arith

leave_all_attr-registrar :
    (proto : Proto) (kind : String) (ts n : ℕ) (a : MrpAttr)
    → shown (leave_all_attr proto kind ts n a 0).0.registrar ≡ (
        if (a.proto =? proto) && ((a.kind =? kind) && same a.registrar inn)
        then lv
        else shown a.registrar)
unfolding leave_all_attr set_registrar write_log
leave_all_attr-registrar proto kind ts n a = ground arith

leave_all_attr-timer :
    (proto : Proto) (kind : String) (ts n : ℕ) (a : MrpAttr)
    → (leave_all_attr proto kind ts n a 0).0.leave_timer_start ≡ (
        if (a.proto =? proto) && ((a.kind =? kind) && same a.registrar inn)
        then some ts
        else a.leave_timer_start)
unfolding leave_all_attr set_registrar write_log
leave_all_attr-timer proto kind ts n a = ground arith

leave_all-find :
    (proto : Proto) (kind : String) (ts n : ℕ) (m : Mrp) (k : MrpKey) (a : MrpAttr)
    → find k m.attrs ≡ some a
    → find k (leave_all proto kind ts n m).attrs ≡ some (leave_all_attr proto kind ts n a 0).0
unfolding leave_all
leave_all-find proto kind ts n m k a e =
    let one = λ (b : MrpAttr). (leave_all_attr proto kind ts n b 0).0 in
    rw
      (
        for_values-map (leave_all_attr proto kind ts n) one m.attrs m.lv_count
            (leave_all_attr-any proto kind ts n),
        find-map_values one k m.attrs,
        e,
      )
      refl

-- When the map has an attribute under the key, `mrpLeaveAll` of a protocol and a kind turns it from IN to LV
-- and starts its leave timer at the time of the call, if it is registered and of that protocol and kind; the
-- registrar and the leave timer of any other attribute stay as they were.
pub leave_all_scope :
    (proto : Proto) (kind : String) (ts n : ℕ) (m : Mrp) (k : MrpKey) (a : MrpAttr)
    → find k m.attrs ≡ some a
    → (registrar_at k (leave_all proto kind ts n m) ≡ (
        if (a.proto =? proto) && ((a.kind =? kind) && same a.registrar inn)
        then lv
        else shown a.registrar))
      × (timer_at k (leave_all proto kind ts n m) ≡ (
          if (a.proto =? proto) && ((a.kind =? kind) && same a.registrar inn)
          then some ts
          else a.leave_timer_start))
leave_all_scope proto kind ts n m k a e =
    let found = leave_all-find proto kind ts n m k a e in
    let attr_in : Option MrpAttr → MrpAttr = λ o. elim o [ none ↦ new_attr | some b ↦ b ] in
    (
      ap (λ o. shown (attr_in o).registrar) found ∙ leave_all_attr-registrar proto kind ts n a,
      ap (λ o. (attr_in o).leave_timer_start) found ∙ leave_all_attr-timer proto kind ts n a,
    )
