-- ===== src/Mrp/Wf.antt =====
-- Well-formedness of the registrar map, kept by every operation: proofs for
-- backend/src/logic/mrp_registrar.cpp.
use avb_introspection.Base.{
  ℕ, ◌+◌, ◌≤◌, ◌≡◌, refl, Bool, true, false, Option, none, some, String, arith, ◌==◌, inl, inr,
  length, AllEntries, AllEntries-insert, AllEntries-find_or, count_values, count_values-update,
  one_if, Bool-cases, LeadsTo, LeadsTo-push_capped, length-push_capped,
}
use avb_introspection.Mrp.{
  Proto, Label, MrpAttr, Mrp, Registrar, mt, lv, inn, Why, new_attr, same, shown, set_registrar,
  touch, join, leave, react, r_join, r_new, r_lv, mrp_event_name, write_log, event_attr, event,
  hist_cap, log_cap, mrp_key,
}

abbrev pub is_lv : MrpAttr → Bool
is_lv a = same a.registrar lv

abbrev pub is_set : Option ℕ → Bool
is_set none = false
is_set (some t) = true

-- The history leads to the registrar's state and is within its limit.
abbrev pub HasHistory : MrpAttr → Type 0
HasHistory a = LeadsTo a.hist (shown a.registrar) × (length a.hist ≤ hist_cap)

pub record AttrWf (a : MrpAttr) : Type 0 where
  pub timed : is_lv a ≡ is_set a.leave_timer_start
  pub history : HasHistory a
  pub log_short : length a.log ≤ log_cap

pub record IsWf (m : Mrp) : Type 0 where
  pub entries : AllEntries (λ _ a. AttrWf a) m.attrs
  pub counted : m.lv_count ≡ count_values is_lv m.attrs

pub set_registrar-HasHistory :
    (a : MrpAttr) (to : Registrar) (ts n : ℕ) (why : Why) (c : ℕ)
    → shown to ≡ to
    → HasHistory a
    → HasHistory (set_registrar a to ts n why c).0
unfolding set_registrar
set_registrar-HasHistory a to ts n why c e h = elim (Bool-cases (same (shown a.registrar) to)) [
  | inl stays ↦ rw stays h
  | inr moves ↦
      rw (moves, e)
        (
          LeadsTo-push_capped hist_cap (shown a.registrar) a.hist _ h.0 refl,
          length-push_capped hist_cap a.hist _ h.1,
        )
]

-- What else a call of `set_registrar` does.
pub set_registrar-fields :
    (a : MrpAttr) (to : Registrar) (ts n : ℕ) (why : Why) (c : ℕ)
    → (shown (set_registrar a to ts n why c).0.registrar ≡ shown to)
      × ((set_registrar a to ts n why c).0.log ≡ a.log)
      × ((set_registrar a to ts n why c).0.leave_timer_start ≡ a.leave_timer_start)
unfolding set_registrar
set_registrar-fields a to ts n why c = ground arith

-- The counter follows the registrar, where it counts at least the one that is left.
pub set_registrar-count :
    (a : MrpAttr) (to : Registrar) (ts n : ℕ) (why : Why) (c : ℕ)
    → one_if (is_lv a) ≤ c
    → (set_registrar a to ts n why c).1 + one_if (is_lv a)
      ≡ c + one_if (is_lv (set_registrar a to ts n why c).0)
unfolding set_registrar
set_registrar-count a to ts n why c h = ground arith

new_attr-AttrWf : AttrWf new_attr
new_attr-AttrWf = record {
  timed = refl;
  history = ((mt, refl), omega arith);
  log_short = omega arith;
}

touch-AttrWf :
    (proto : Proto) (kind : String) (key : Label) (source ev ts : ℕ) (a : MrpAttr)
    → AttrWf a
    → AttrWf (touch proto kind key source ev ts a)
unfolding touch
touch-AttrWf proto kind key source ev ts a w = record {
  timed = ground arith;
  history = ground arith;
  log_short = w.log_short;
}

-- What the `switch` may do.
react_cases {ℓ} :
    (P : MrpAttr × ℕ → Type ℓ) (ev ts n : ℕ) (a : MrpAttr) (c : ℕ)
    → ((why : Why) → P (join ts n why a c))
    → P (leave ts n a c)
    → P (a, c)
    → P (react ev ts n a c)
unfolding react
react_cases P ev ts n a c joins leaves stays = elim (Bool-cases (ev == 0)) [
  | inl e ↦ rw e (joins r_new)
  | inr e0 ↦ elim (Bool-cases (ev == 1)) [
    | inl e ↦ rw (e0, e) (joins (r_join (mrp_event_name ev)))
    | inr e1 ↦ elim (Bool-cases (ev == 3)) [
      | inl e ↦ rw (e0, e1, e) (joins (r_join (mrp_event_name ev)))
      | inr e3 ↦ elim (Bool-cases (ev == 5)) [
        | inl e ↦ rw (e0, e1, e3, e) leaves
        | inr e5 ↦ rw (e0, e1, e3, e5) stays
      ]
    ]
  ]
]

join-AttrWf : (ts n : ℕ) (why : Why) (a : MrpAttr) (c : ℕ) → AttrWf a → AttrWf (join ts n why a c).0
unfolding join
join-AttrWf ts n why a c w = record {
  timed = ground (arith, set_registrar-fields a inn ts n why c);
  history = set_registrar-HasHistory a inn ts n why c refl w.history;
  log_short = ground (arith, set_registrar-fields a inn ts n why c);
}

-- A registrar that leaves, whose timer has just been set.
pub leaving-AttrWf :
    (a : MrpAttr) (ts t n : ℕ) (why : Why) (c : ℕ)
    → a.leave_timer_start ≡ some t
    → HasHistory a
    → length a.log ≤ log_cap
    → AttrWf (set_registrar a lv ts n why c).0
leaving-AttrWf a ts t n why c e h l = record {
  timed = ground (arith, set_registrar-fields a lv ts n why c);
  history = set_registrar-HasHistory a lv ts n why c refl h;
  log_short = ground (arith, set_registrar-fields a lv ts n why c);
}

leave-AttrWf : (ts n : ℕ) (a : MrpAttr) (c : ℕ) → AttrWf a → AttrWf (leave ts n a c).0
unfolding leave
leave-AttrWf ts n a c w = elim (Bool-cases (same a.registrar inn)) [
  | inl here ↦ rw here (
      leaving-AttrWf (record a { leave_timer_start = some ts }) ts ts n r_lv c refl w.history
        w.log_short)
  | inr elsewhere ↦ rw elsewhere w
]

react-AttrWf : (ev ts n : ℕ) (a : MrpAttr) (c : ℕ) → AttrWf a → AttrWf (react ev ts n a c).0
react-AttrWf ev ts n a c w =
    react_cases (λ r. AttrWf r.0) ev ts n a c (λ why. join-AttrWf ts n why a c w)
      (leave-AttrWf ts n a c w) w

pub write_log-AttrWf :
    (ts n : ℕ) (name : String) (a : MrpAttr) → AttrWf a → AttrWf (write_log ts n name a)
unfolding write_log
write_log-AttrWf ts n name a w = record {
  timed = w.timed;
  history = w.history;
  log_short = length-push_capped log_cap a.log _ w.log_short;
}

event_attr-AttrWf :
    (proto : Proto) (kind : String) (key : Label) (source ev ts n : ℕ) (a : MrpAttr) (c : ℕ)
    → AttrWf a
    → AttrWf (event_attr proto kind key source ev ts n a c).0
unfolding event_attr
event_attr-AttrWf proto kind key source ev ts n a c w =
    write_log-AttrWf ts n _ _
      (react-AttrWf ev ts n _ c (touch-AttrWf proto kind key source ev ts a w))

join-count :
    (ts n : ℕ) (why : Why) (a : MrpAttr) (c : ℕ)
    → one_if (is_lv a) ≤ c
    → (join ts n why a c).1 + one_if (is_lv a) ≡ c + one_if (is_lv (join ts n why a c).0)
unfolding join
join-count ts n why a c h = set_registrar-count a inn ts n why c h

leave-count :
    (ts n : ℕ) (a : MrpAttr) (c : ℕ)
    → one_if (is_lv a) ≤ c
    → (leave ts n a c).1 + one_if (is_lv a) ≡ c + one_if (is_lv (leave ts n a c).0)
unfolding leave
leave-count ts n a c h =
    ground (arith, set_registrar-count (record a { leave_timer_start = some ts }) lv ts n r_lv c)

react-count :
    (ev ts n : ℕ) (a : MrpAttr) (c : ℕ)
    → one_if (is_lv a) ≤ c
    → (react ev ts n a c).1 + one_if (is_lv a) ≡ c + one_if (is_lv (react ev ts n a c).0)
react-count ev ts n a c h =
    react_cases (λ r. r.1 + one_if (is_lv a) ≡ c + one_if (is_lv r.0)) ev ts n a c
      (λ why. join-count ts n why a c h) (leave-count ts n a c h) refl

touch-is_lv :
    (proto : Proto) (kind : String) (key : Label) (source ev ts : ℕ) (a : MrpAttr)
    → one_if (is_lv (touch proto kind key source ev ts a)) ≡ one_if (is_lv a)
unfolding touch
touch-is_lv proto kind key source ev ts a = ground arith

event_attr-count :
    (proto : Proto) (kind : String) (key : Label) (source ev ts n : ℕ) (a : MrpAttr) (c : ℕ)
    → one_if (is_lv a) ≤ c
    → let r = event_attr proto kind key source ev ts n a c in
      r.1 + one_if (is_lv a) ≡ c + one_if (is_lv r.0)
unfolding event_attr write_log
event_attr-count proto kind key source ev ts n a c h = omega (
  arith,
  react-count ev ts n (touch proto kind key source ev ts a) c
      (omega (arith, touch-is_lv proto kind key source ev ts a)),
  touch-is_lv proto kind key source ev ts a,
)

-- `mrpEvent` keeps the map well-formed.
pub event-IsWf :
    (proto : Proto) (kind : String) (key : Label) (source ev ts n : ℕ) (m : Mrp)
    → IsWf m
    → IsWf (event proto kind key source ev ts n m)
unfolding event
event-IsWf proto kind key source ev ts n m w = record {
  entries =
      AllEntries-insert (λ _ a. AttrWf a) _ _ m.attrs
        (event_attr-AttrWf proto kind key source ev ts n _ m.lv_count
          (AllEntries-find_or (λ _ a. AttrWf a) new_attr _ m.attrs new_attr-AttrWf w.entries))
        w.entries;
  counted =
      count_values-update is_lv new_attr _ _ m.attrs m.lv_count _ refl w.counted
        (event_attr-count proto kind key source ev ts n _ m.lv_count);
}
