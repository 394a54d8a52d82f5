-- ===== src/RuleEngine/Bindings/Severity.antt =====
-- The severity of an alert after the contexts of its rule, app/services/rule_engine_v2.py.
use siem_sentinel_xv.Base.{
  ℤ, pos, ◌+ℤ◌, ◌≤ℤ◌, max_ℤ, min_ℤ, Bool, true, false, List, [], ◌∷◌, arith, if◌then◌else◌,
  Option-cases, inl, inr, All, All-append,
}
use siem_sentinel_xv.Value.{Value, get, get_or_null, dict_of}
use siem_sentinel_xv.Number.{int_of}
use siem_sentinel_xv.Detection.Clause.{Lists}
use siem_sentinel_xv.RuleEngine.{Binding}
use siem_sentinel_xv.RuleEngine.Bindings.{Context, adjust, set_metadata, binds, apply_contexts}

abbrev pub IsBounded : ℤ → Type 0
IsBounded n = (pos 0 ≤ℤ n) × (n ≤ℤ pos 30)

-- The severity is within 0 and 30, and so is the result of every adjustment noted.
abbrev pub IsGraded : Context → Type 0
IsGraded c = IsBounded c.severity × All (λ a. IsBounded a.result) c.adjustments

clamped : (n : ℤ) → IsBounded (max_ℤ (pos 0) (min_ℤ (pos 30) n))
clamped n = ground arith

adjust-IsGraded : (b : Binding) (c : Context) → IsGraded c → IsGraded (adjust b c)
unfolding adjust
adjust-IsGraded b c g = elim (Option-cases (get b.action_config "adjust_severity")) [
  | inl n ↦ rw (n, adjust) g
  | inr (v, e) ↦
      rw (e, adjust)
        (elim (Option-cases (int_of v)) [
          | inl n ↦ rw (n, adjust) g
          | inr (offset, f) ↦
              rw (f, adjust)
                (
                  clamped (c.severity +ℤ offset),
                  All-append (λ a. IsBounded a.result) c.adjustments _ g.1
                      (clamped (c.severity +ℤ offset), tt),
                )
        ])
]

set_metadata-IsGraded : (b : Binding) (c : Context) → IsGraded c → IsGraded (set_metadata b c)
unfolding set_metadata
set_metadata-IsGraded b c g =
    elim (Option-cases (dict_of (get_or_null b.action_config "set_metadata"))) [
      | inl n ↦ rw (n, set_metadata) g
      | inr (new, e) ↦ rw (e, set_metadata) g
    ]

-- If the severity that a rule gives is within 0 and 30, so it is after any contexts that the event
-- meets, and so is the result of every adjustment that the alert's evidence lists.
pub apply_contexts-IsGraded :
    (lists : Lists) (snap : Value) (bs : List Binding) (c : Context)
    → IsGraded c
    → IsGraded (apply_contexts lists snap bs c)
unfolding apply_contexts
apply_contexts-IsGraded lists snap [] c g = g
apply_contexts-IsGraded lists snap (b ∷ bs) c g =
    apply_contexts-IsGraded lists snap bs _ (chosen (binds lists snap b))
  where
    chosen : (met : Bool) → IsGraded (if met then set_metadata b (adjust b c) else c)
    chosen true = set_metadata-IsGraded b (adjust b c) (adjust-IsGraded b c g)
    chosen false = g
