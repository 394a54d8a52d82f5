-- ===== src/RuleEngine/Window/Own.antt =====
-- What the buffer of a rule holds after an event, app/services/rule_engine_v2.py.
use siem_sentinel_xv.Base.{
  ℕ, ◌+◌, ◌*◌, ◌≤◌, ltb, leb, ◌≡◌, refl, Bool, List, [], ◌∷◌, ◌++◌, keep, All, arith, Bool-cases,
  inl, inr,
}
use siem_sentinel_xv.RuleEngine.{BufItem}
use siem_sentinel_xv.RuleEngine.Window.{evict, push}

-- The item is not older than the window.
abbrev pub is_recent : ℕ → ℕ → BufItem → Bool
is_recent now window it = leb now (it.ts + window * 1000000)

abbrev pub AreLater : ℕ → List BufItem → Type 0
AreLater t = All (λ it. t ≤ it.ts)

-- The items are in the order of their times.
abbrev pub AreInOrder : List BufItem → Type 0
AreInOrder [] = Unit
AreInOrder (it ∷ dq) = AreLater it.ts dq × AreInOrder dq

all_recent :
    (now window t : ℕ) (dq : List BufItem)
    → now ≤ t + window * 1000000
    → AreLater t dq
    → keep (is_recent now window) dq ≡ dq
all_recent now window t [] h s = refl
all_recent now window t (it ∷ dq) h s = ground (arith, all_recent now window t dq h s.1)

evict-append :
    (window : ℕ) (dq : List BufItem) (it : BufItem)
    → AreInOrder dq
    → evict it.ts window (dq ++ it ∷ []) ≡ keep (is_recent it.ts window) dq ++ it ∷ []
unfolding evict
evict-append window [] it s = ground arith
evict-append window (x ∷ dq) it s = elim (Bool-cases (ltb (x.ts + window * 1000000) it.ts)) [
  | inl y ↦ ground (arith, evict-append window dq it s.1)
  | inr n ↦ ground (arith, all_recent it.ts window x.ts dq (ground arith) s.0)
]

-- After an event the buffer of its group, if it was in the order of times, holds just the items that
-- are not older than the window counts from the event's own time, and the event itself at the end.
pub push-recent :
    (window : ℕ) (dq : List BufItem) (it : BufItem)
    → AreInOrder dq
    → push window dq it ≡ keep (is_recent it.ts window) dq ++ it ∷ []
unfolding push
push-recent window dq it s = evict-append window dq it s
