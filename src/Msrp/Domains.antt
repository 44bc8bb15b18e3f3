-- ===== src/Msrp/Domains.antt =====
-- The domain table of `MsrpLogic` in backend/src/logic/msrp_logic.cpp.
use avb_introspection.Base.{
  ℕ, ◌≡◌, refl, true, false, ◌&&◌, ◌||◌, not, List, [], ◌∷◌, ◌++◌, arith, ◌==◌, inl, inr,
  Bool-cases,
}
use avb_introspection.Msrp.{Domain, same_domain, is_known, on_domain}

-- No domain stands in the table twice.
abbrev pub Distinct : List Domain → Type 0
Distinct [] = Unit
Distinct (d ∷ ds) = (is_known d ds ≡ false) × Distinct ds

same_domain_comm : (d e : Domain) → same_domain d e ≡ same_domain e d
same_domain_comm d e = ground arith

is_known-append :
    (d : Domain) (ds es : List Domain) → is_known d (ds ++ es) ≡ (is_known d ds || is_known d es)
unfolding is_known
is_known-append d [] es = refl
is_known-append d (x ∷ ds) es = ground (arith, is_known-append d ds es)

append-Distinct :
    (ds : List Domain) (d : Domain) → Distinct ds → is_known d ds ≡ false → Distinct (ds ++ d ∷ [])
unfolding is_known
append-Distinct [] d h e = (refl, tt)
append-Distinct (x ∷ ds) d h e = (
  ground (arith, h.0, is_known-append x ds (d ∷ []), same_domain_comm x d),
  append-Distinct ds d h.1 (ground (arith, e)),
)

is_known-same :
    (d e : Domain) (ds : List Domain) → same_domain d e ≡ true → is_known e ds ≡ is_known d ds
unfolding is_known
is_known-same d e [] h = refl
is_known-same d e (x ∷ ds) h = ground (arith, h, is_known-same d e ds h)

-- A Domain declaration keeps the table free of repetitions, and afterwards a domain is in the table
-- exactly if it was there before, or it is the declared one and the declaration is not a leave.
pub on_domain_lem :
    (ev : ℕ) (d : Domain) (ds : List Domain) (e : Domain)
    → Distinct ds
    → Distinct (on_domain ev d ds)
      × (is_known e (on_domain ev d ds) ≡ (is_known e ds || (not (ev == 5) && same_domain d e)))
unfolding on_domain
on_domain_lem ev d ds e h = elim (Bool-cases (not (is_known d ds) && not (ev == 5))) [
  | inl added ↦ rw added (
    append-Distinct ds d h (ground (arith, added)),
    ground (arith, added, is_known-append e ds (d ∷ []), known_alone, same_domain_comm d e),
  )
  | inr kept ↦ rw kept (h, ground (arith, kept, is_known-same d e ds))
]
  where
    known_alone : is_known e (d ∷ []) ≡ same_domain d e
    known_alone = unfold is_known in ground (arith, same_domain_comm d e)
