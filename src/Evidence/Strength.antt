-- ===== src/Evidence/Strength.antt =====
-- crates/aep-core/src/evidence.rs: how strong the effects of a class are, and that `ORDER` ranks the
-- classes so.
use wasmagent_proxy.Base.{
  ◌≡◌, ◌≢◌, ◌<◌, inl, inr, refl, sym, false, Text, codes, text_eq, text_eq_iff, Bool-cases, arith,
}
use wasmagent_proxy.Evidence.{class_rank}

-- The order of the classes by their effects, from a read on. The strongest are "unknown" and whatever
-- else is none of the four that are known.
pub data Weaker : Text → Text → Type 0 where
  read_local : Weaker (codes "read") (codes "mutate-local")
  local_external : Weaker (codes "mutate-local") (codes "mutate-external")
  external_egress : Weaker (codes "mutate-external") (codes "network-egress")
  egress_unknown :
      (cls : Text)
      → cls ≢ codes "read"
      → cls ≢ codes "mutate-local"
      → cls ≢ codes "mutate-external"
      → cls ≢ codes "network-egress"
      → Weaker (codes "network-egress") cls
  chained : {a b c : Text} → Weaker a b → Weaker b c → Weaker a c

text_eq-false : (s t : Text) → t ≢ s → text_eq s t ≡ false
text_eq-false s t h = elim (Bool-cases (text_eq s t)) [
  | inl e ↦ absurd (h (sym ((text_eq_iff s t).0 e)))
  | inr e ↦ e
]

egress_rank : class_rank (codes "network-egress") ≡ 3
unfolding class_rank text_eq
egress_rank = refl

unknown_rank :
    (cls : Text)
    → cls ≢ codes "read"
    → cls ≢ codes "mutate-local"
    → cls ≢ codes "mutate-external"
    → cls ≢ codes "network-egress"
    → class_rank cls ≡ 4
unfolding class_rank
unknown_rank cls r l e n =
    rw
      (
        text_eq-false (codes "read") cls r,
        text_eq-false (codes "mutate-local") cls l,
        text_eq-false (codes "mutate-external") cls e,
        text_eq-false (codes "network-egress") cls n,
      )
      (elim (Bool-cases (text_eq (codes "unknown") cls)) [ inl u ↦ rw u refl | inr u ↦ rw u refl ])

pub Weaker-ranks : {a b : Text} → Weaker a b → class_rank a < class_rank b
unfolding class_rank text_eq
Weaker-ranks read_local = omega arith
Weaker-ranks local_external = omega arith
Weaker-ranks external_egress = omega arith
Weaker-ranks (egress_unknown cls r l e n) = omega (arith, egress_rank, unknown_rank cls r l e n)
Weaker-ranks (chained h k) = omega (arith, Weaker-ranks h, Weaker-ranks k)
