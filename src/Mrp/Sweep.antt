-- ===== src/Mrp/Sweep.antt =====
-- `mrpLeaveAll` and `mrpTick` keep the registrar map well-formed, and so does any run: proofs for
-- backend/src/logic/mrp_registrar.cpp.
use avb_introspection.Base.{
  ℕ, ◌+◌, ◌≤◌, ◌≡◌, refl, List, [], ◌∷◌, String, arith, ◌==◌, inl, inr, Bool-cases,
  AllEntries-for_values, count_values, count_values-for_values, one_if,
}
use avb_introspection.Mrp.{
  Proto, Label, MrpAttr, Mrp, mt, lv, r_la, leave_timer_expired, is_skipped, is_overdue, write_log,
  event, leave_all_attr, leave_all, tick_attr, tick_loop, tick, empty, mrp_key,
}
use avb_introspection.Mrp.Wf.{
  AttrWf, IsWf, is_lv, set_registrar-HasHistory, set_registrar-fields, set_registrar-count,
  leaving-AttrWf, write_log-AttrWf, event-IsWf,
}

leave_all_attr-AttrWf :
    (proto : Proto) (kind : String) (ts n : ℕ) (a : MrpAttr) (c : ℕ)
    → AttrWf a
    → AttrWf (leave_all_attr proto kind ts n a c).0
unfolding leave_all_attr
leave_all_attr-AttrWf proto kind ts n a c w = elim (Bool-cases (is_skipped proto kind a)) [
  | inl skipped ↦ rw skipped w
  | inr taken ↦ rw taken (
      write_log-AttrWf ts n "LeaveAll" _
        (leaving-AttrWf _ ts ts n r_la c refl w.history w.log_short))
]

leave_all_attr-count :
    (proto : Proto) (kind : String) (ts n : ℕ) (a : MrpAttr) (c : ℕ)
    → one_if (is_lv a) ≤ c
    → (leave_all_attr proto kind ts n a c).1 + one_if (is_lv a)
      ≡ c + one_if (is_lv (leave_all_attr proto kind ts n a c).0)
unfolding leave_all_attr write_log
leave_all_attr-count proto kind ts n a c h = elim (Bool-cases (is_skipped proto kind a)) [
  | inl skipped ↦ rw skipped
  | inr taken ↦ rw taken (set_registrar-count _ lv ts n r_la c h)
]

tick_attr-AttrWf : (ts : ℕ) (a : MrpAttr) (c : ℕ) → AttrWf a → AttrWf (tick_attr ts a c).0
unfolding tick_attr
tick_attr-AttrWf ts a c w = elim (Bool-cases (is_overdue ts a)) [
  | inl late ↦ rw late (record {
    timed = ground (arith, set_registrar-fields a mt ts 0 leave_timer_expired c);
    history = set_registrar-HasHistory a mt ts 0 leave_timer_expired c refl w.history;
    log_short = ground (arith, set_registrar-fields a mt ts 0 leave_timer_expired c);
  })
  | inr early ↦ rw early w
]

tick_attr-count :
    (ts : ℕ) (a : MrpAttr) (c : ℕ)
    → one_if (is_lv a) ≤ c
    → (tick_attr ts a c).1 + one_if (is_lv a) ≡ c + one_if (is_lv (tick_attr ts a c).0)
unfolding tick_attr
tick_attr-count ts a c h = ground (arith, set_registrar-count a mt ts 0 leave_timer_expired c)

leave_all-IsWf :
    (proto : Proto) (kind : String) (ts n : ℕ) (m : Mrp)
    → IsWf m
    → IsWf (leave_all proto kind ts n m)
unfolding leave_all
leave_all-IsWf proto kind ts n m w = record {
  entries =
      AllEntries-for_values (λ _ a. AttrWf a) (leave_all_attr proto kind ts n) m.attrs m.lv_count
        (λ _ a c. leave_all_attr-AttrWf proto kind ts n a c) w.entries;
  counted = omega (
    arith,
    w.counted,
    count_values-for_values is_lv (leave_all_attr proto kind ts n) m.attrs m.lv_count
        (leave_all_attr-count proto kind ts n) (omega (arith, w.counted)),
  );
}

tick_loop-IsWf : (ts : ℕ) (m : Mrp) → IsWf m → IsWf (tick_loop ts m)
unfolding tick_loop
tick_loop-IsWf ts m w = record {
  entries =
      AllEntries-for_values (λ _ a. AttrWf a) (tick_attr ts) m.attrs m.lv_count
        (λ _ a c. tick_attr-AttrWf ts a c) w.entries;
  counted = omega (
    arith,
    w.counted,
    count_values-for_values is_lv (tick_attr ts) m.attrs m.lv_count (tick_attr-count ts)
        (omega (arith, w.counted)),
  );
}

tick-IsWf : (ts : ℕ) (m : Mrp) → IsWf m → IsWf (tick ts m)
unfolding tick
tick-IsWf ts m w = elim (Bool-cases (m.lv_count == 0)) [
  | inl idle ↦ rw idle w
  | inr busy ↦ rw busy (tick_loop-IsWf ts m w)
]

-- A call of one of the three operations, with its arguments.
pub data Call : Type 0 where
  events : Proto → String → Label → ℕ → ℕ → ℕ → ℕ → Call
  leaves_all : Proto → String → ℕ → ℕ → Call
  ticks : ℕ → Call

unfoldable pub step : Mrp → Call → Mrp
step m (events proto kind key source ev ts n) = event proto kind key source ev ts n m
step m (leaves_all proto kind ts n) = leave_all proto kind ts n m
step m (ticks ts) = tick ts m

unfoldable pub run : Mrp → List Call → Mrp
run m [] = m
run m (c ∷ cs) = run (step m c) cs

pub step-IsWf : (m : Mrp) (c : Call) → IsWf m → IsWf (step m c)
unfolding step
step-IsWf m (events proto kind key source ev ts n) w = event-IsWf proto kind key source ev ts n m w
step-IsWf m (leaves_all proto kind ts n) w = leave_all-IsWf proto kind ts n m w
step-IsWf m (ticks ts) w = tick-IsWf ts m w

run_from-IsWf : (m : Mrp) (cs : List Call) → IsWf m → IsWf (run m cs)
unfolding run
run_from-IsWf m [] w = w
run_from-IsWf m (c ∷ cs) w = run_from-IsWf (step m c) cs (step-IsWf m c w)

-- After any calls of `mrpEvent`, `mrpLeaveAll` and `mrpTick` on an empty map: `mrpLvCount` is the
-- number of registrars in LV, a registrar is in LV exactly if its leave timer runs, the history of
-- each leads to its state without a gap and has at most 200 entries, and its log at most 500.
pub run-IsWf : (cs : List Call) → IsWf (run empty cs)
run-IsWf cs =
    run_from-IsWf empty cs (record { entries = tt; counted = unfold count_values in refl })
