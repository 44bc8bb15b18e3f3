-- ===== src/Adp/Gm.antt =====
-- The grandmaster check of `AdpLogic` in backend/src/logic/adp_logic.cpp: the flag that it keeps and
-- the verdict of `gmInSync`.
use avb_introspection.Base.{
  ℕ, ◌≡◌, refl, Bool, true, false, Option, none, some, arith, ◌==◌, if◌then◌else◌, not,
}
use avb_introspection.Adp.{
  Entity, Out, GmInSync, match, mismatch, transition, observed_gm, compare_gm,
  check_gm_against_observed, gm_in_sync,
}

compare_gm-flag :
    (ts n observed : ℕ) (r : Entity × Out)
    → (compare_gm ts n (some observed) r).0.gm_mismatch ≡ not (r.0.gm_id == observed)
unfolding transition
compare_gm-flag ts n observed (e, o) = ground arith

-- What an announcement leaves as it was: the grandmaster, its domain, and the observed truth.
compare_gm-kept :
    (ts n : ℕ) (gm : Option ℕ) (r : Entity × Out)
    → ((compare_gm ts n gm r).0.gm_id ≡ r.0.gm_id)
      × ((compare_gm ts n gm r).0.gptp_domain ≡ r.0.gptp_domain)
      × ((compare_gm ts n gm r).1.shared.gptp_domains ≡ r.1.shared.gptp_domains)
unfolding transition
compare_gm-kept ts n none (e, o) = (refl, refl, refl)
compare_gm-kept ts n (some gm) (e, o) = (ground arith, ground arith, ground arith)

-- What the flag should be after a check with this verdict.
abbrev pub flag_for : GmInSync → Bool → Bool
flag_for GmInSync.unknown old = old
flag_for match old = false
flag_for mismatch old = true

observed_gm-kept :
    (ts n : ℕ) (gm : Option ℕ) (r : Entity × Out)
    → observed_gm (compare_gm ts n gm r).0 (compare_gm ts n gm r).1.shared
      ≡ observed_gm r.0 r.1.shared
unfolding observed_gm
observed_gm-kept ts n gm r =
    ground (arith, (compare_gm-kept ts n gm r).1, (compare_gm-kept ts n gm r).2)

verdict : ℕ → Option ℕ → GmInSync
verdict gm none = GmInSync.unknown
verdict gm (some observed) = if gm == observed then match else mismatch

compare_gm-verdict :
    (ts n : ℕ) (gm : Option ℕ) (r : Entity × Out)
    → (compare_gm ts n gm r).0.gm_mismatch ≡ flag_for (verdict r.0.gm_id gm) r.0.gm_mismatch
unfolding verdict
compare_gm-verdict ts n none (e, o) = refl
compare_gm-verdict ts n (some observed) (e, o) =
    ground (arith, compare_gm-flag ts n observed (e, o))

-- Right after the check, the flag of an entity is what the verdict of a snapshot says: set for
-- MISMATCH, clear for MATCH, and as it was where the verdict is UNKNOWN.
pub check_gm-gm_in_sync :
    (ts n : ℕ) (r : Entity × Out)
    → let q = check_gm_against_observed ts n r in
      q.0.gm_mismatch ≡ flag_for (gm_in_sync q.0 q.1.shared) r.0.gm_mismatch
unfolding check_gm_against_observed gm_in_sync verdict
check_gm-gm_in_sync ts n (e, o) = ground (
  arith,
  (compare_gm-kept ts n (observed_gm e o.shared) (e, o)).0,
  observed_gm-kept ts n (observed_gm e o.shared) (e, o),
  compare_gm-verdict ts n (observed_gm e o.shared) (e, o),
)
