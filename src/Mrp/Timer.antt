-- ===== src/Mrp/Timer.antt =====
-- The leave timer: what `mrpTick` of backend/src/logic/mrp_registrar.cpp does to the whole map.
use avb_introspection.Base.{
  ℕ, ◌≡◌, ◌⊎◌, refl, sym, ◌∙◌, ◌+◌, Bool, ◌&&◌, ltb, Option, none, some, false, [], ◌∷◌, arith,
  ◌==◌, ==_iff, inl, inr, Bool-cases, Dict, AllEntries, count_values, for_values,
}
use avb_introspection.Mrp.{
  Registrar, unset, lv, inn, same, is_over, MrpKey, MrpAttr, Mrp, mt, leave_timer_expired,
  is_overdue, tick_attr, tick_loop, tick, mrp_key,
}
use avb_introspection.Mrp.Wf.{IsWf, is_lv, set_registrar-fields}

tick_attr_early :
    (ts : ℕ) (a : MrpAttr) (c : ℕ) → is_overdue ts a ≡ false → tick_attr ts a c ≡ (a, c)
unfolding tick_attr
tick_attr_early ts a c e = rw e

-- Where nothing is overdue the loop changes nothing.
loop_early :
    (ts : ℕ) (m : Dict MrpKey MrpAttr) (c : ℕ)
    → AllEntries (λ _ a. is_overdue ts a ≡ false) m
    → for_values (tick_attr ts) m c ≡ (m, c)
unfolding for_values
loop_early ts [] c h = refl
loop_early ts ((k, a) ∷ m) c h = rw (tick_attr_early ts a c h.0) (rw (loop_early ts m c h.1))

tick_loop_early :
    (ts : ℕ) (m : Mrp) → AllEntries (λ _ a. is_overdue ts a ≡ false) m.attrs → tick_loop ts m ≡ m
unfolding tick_loop
tick_loop_early ts m h = rw (loop_early ts m.attrs m.lv_count h)

-- Where no registrar is leaving, nothing is overdue.
none_leaving :
    (ts : ℕ) (m : Dict MrpKey MrpAttr)
    → count_values is_lv m ≡ 0
    → AllEntries (λ _ a. is_overdue ts a ≡ false) m
unfolding count_values
none_leaving ts [] e = tt
none_leaving ts ((k, a) ∷ m) e = (ground arith, none_leaving ts m (omega arith))

-- The early return of `mrpTick` loses nothing: in a well-formed map it is the whole loop.
pub tick-tick_loop : (ts : ℕ) (m : Mrp) → IsWf m → tick ts m ≡ tick_loop ts m
unfolding tick
tick-tick_loop ts m w = elim (Bool-cases (m.lv_count == 0)) [
  | inl idle ↦ rw idle (
      sym (
        tick_loop_early ts m
          (none_leaving ts m.attrs (sym w.counted ∙ (==_iff m.lv_count 0).0 idle))))
  | inr busy ↦ rw busy
]

tick_attr_late : (ts : ℕ) (a : MrpAttr) (c : ℕ) → is_overdue ts (tick_attr ts a c).0 ≡ false
unfolding tick_attr
tick_attr_late ts a c = ground (arith, set_registrar-fields a mt ts 0 leave_timer_expired c)

loop_late :
    (ts : ℕ) (m : Dict MrpKey MrpAttr) (c : ℕ)
    → AllEntries (λ _ a. is_overdue ts a ≡ false) (for_values (tick_attr ts) m c).0
unfolding for_values
loop_late ts [] c = tt
loop_late ts ((k, a) ∷ m) c = (tick_attr_late ts a c, loop_late ts m (tick_attr ts a c).1)

-- A registrar that has been leaving for more than a second.
unfoldable pub has_left : ℕ → Registrar → Option ℕ → Bool
has_left ts lv (some start) = ltb (start + 1000000000) ts
has_left ts _ _ = false

has_left-guard :
    (ts : ℕ) (r : Registrar) (t : Option ℕ) → (same r lv && is_over t ts) ≡ has_left ts r t
unfolding has_left
has_left-guard ts lv none = refl
has_left-guard ts lv (some start) = refl
has_left-guard ts unset t = refl
has_left-guard ts mt t = refl
has_left-guard ts inn t = refl

none_left :
    (ts : ℕ) (m : Dict MrpKey MrpAttr)
    → AllEntries (λ _ a. is_overdue ts a ≡ false) m
    → AllEntries (λ _ a. has_left ts a.registrar a.leave_timer_start ≡ false) m
none_left ts [] h = tt
none_left ts ((k, a) ∷ m) h =
    (sym (has_left-guard ts a.registrar a.leave_timer_start) ∙ h.0, none_left ts m h.1)

-- After `mrpTick` of any map, as far as the early return goes.
pub tick_or_idle :
    (ts : ℕ) (m : Mrp)
    → ((tick ts m).lv_count ≡ 0)
      ⊎ AllEntries (λ _ a. has_left ts a.registrar a.leave_timer_start ≡ false) (tick ts m).attrs
unfolding tick
tick_or_idle ts m = elim (Bool-cases (m.lv_count == 0)) [
  | inl idle ↦ inl (rw (idle, tick) ((==_iff m.lv_count 0).0 idle))
  | inr busy ↦ inr (
      none_left ts (tick ts m).attrs
        (rw (busy, tick) (unfold tick_loop in loop_late ts m.attrs m.lv_count)))
]

-- After `mrpTick` at time `ts` no registrar is in LV whose leave timer was started more than the
-- leave time before `ts`.
pub tick_in_time :
    (ts : ℕ) (m : Mrp) → IsWf m → AllEntries (λ _ a. is_overdue ts a ≡ false) (tick ts m).attrs
tick_in_time ts m w =
    rw (tick-tick_loop ts m w) (unfold tick_loop in loop_late ts m.attrs m.lv_count)

tick_early :
    (ts : ℕ) (m : Mrp) → AllEntries (λ _ a. is_overdue ts a ≡ false) m.attrs → tick ts m ≡ m
unfolding tick
tick_early ts m h = rw (tick_loop_early ts m h) (ground arith)

-- `mrpTick` is idempotent.
pub tick_idempotent : (ts : ℕ) (m : Mrp) → IsWf m → tick ts (tick ts m) ≡ tick ts m
tick_idempotent ts m w = tick_early ts (tick ts m) (tick_in_time ts m w)
