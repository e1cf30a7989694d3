-- ===== src/Alerting/Acknowledge.antt =====
-- Acknowledging an alert in internal/alerting/alerting.go.
use logs_tracker.Prelude.{
  String, ◌≡◌, ◌≢◌, ◌⊎◌, inl, inr, refl, ap, true, false, List, [], ◌∷◌, ◌++◌, arith, All, str_eq,
  eq_iff, Bool-cases,
}
use logs_tracker.Alerting.{Alert, MemorySink, acknowledge, acknowledge_in}

acknowledge_in_cases :
    (id : String) (alerts : List Alert)
    → ((acknowledge_in id alerts ≡ (alerts, false)) × All (λ a. a.id ≢ id) alerts)
      ⊎ ((before : List Alert) × (a : Alert) × (after : List Alert) × (alerts ≡ before ++ a ∷ after)
          × All (λ b. b.id ≢ id) before
          × (a.id ≡ id)
          × (acknowledge_in id alerts ≡ (before ++ record a { acknowledged = true } ∷ after, true)))
unfolding acknowledge_in
acknowledge_in_cases id [] = inl (refl, tt)
acknowledge_in_cases id (a ∷ rest) = elim (Bool-cases (str_eq a.id id)) [
  | inl same ↦ inr ([], a, rest, refl, tt, (eq_iff a.id id).0 same, rw same)
  | inr other ↦
      let differs : a.id ≢ id = λ p. ground (arith, eq_iff a.id id) in
      elim (acknowledge_in_cases id rest) [
        | inl (e, h) ↦ inl (rw (other, e), (differs, h))
        | inr (before, b, after, split, others, this, e) ↦
            inr (a ∷ before, b, after, ap (◌∷◌ a) split, (differs, others), this, rw (other, e))
      ]
]

-- The call reports success exactly when an alert has the identifier, and marks the first such
-- alert and nothing else.
pub acknowledge_lem :
    (id : String) (m : MemorySink)
    → ((acknowledge id m ≡ (m, false)) × All (λ a. a.id ≢ id) m.alerts)
      ⊎ ((before : List Alert) × (a : Alert) × (after : List Alert) × (m.alerts
            ≡ before ++ a ∷ after)
          × All (λ b. b.id ≢ id) before
          × (a.id ≡ id)
          × (acknowledge id m
              ≡ (record { alerts = before ++ record a { acknowledged = true } ∷ after }, true)))
unfolding acknowledge
acknowledge_lem id m = elim (acknowledge_in_cases id m.alerts) [
  | inl (e, h) ↦ inl (rw e, h)
  | inr (before, a, after, split, others, this, e) ↦
      inr (before, a, after, split, others, this, rw e)
]

-- A sink without alerts acknowledges none.
pub acknowledge-empty :
    (id : String) → acknowledge id (record { alerts = [] }) ≡ (record { alerts = [] }, false)
unfolding acknowledge acknowledge_in
acknowledge-empty id = refl
