-- ===== src/Alerting/RateLimit.antt =====
-- The rate limit of internal/alerting/alerting.go.
use logs_tracker.Prelude.{
  ℕ, ◌+◌, ◌≤◌, ◌<◌, String, ◌≡◌, ◌⊎◌, inl, inr, refl, ap, ◌∙◌, true, false, Option, none, some,
  List, [], ◌∷◌, ◌++◌, map, arith, All, str_eq, eq_iff, Bool-cases,
}
use logs_tracker.Prelude.Dict.{get, put, get-put}
use logs_tracker.Alerting.{
  Alert, Dispatcher, Request, rate_key, is_suppressed, alert_of, send, trigger, trigger_all,
}

-- The key was sent at `since` or later.
abbrev pub SentSince : String → ℕ → Dispatcher → Type 0
SentSince key since d = (last : ℕ) × (get key d.rate_limiter ≡ some last) × (since ≤ last)

put-SentSince :
    (key : String) (since : ℕ) (q : Request) (d : Dispatcher)
    → since ≤ q.stamped_at
    → SentSince key since d
    → (last : ℕ) × (get key (put (rate_key q) q.stamped_at d.rate_limiter) ≡ some last)
      × (since ≤ last)
put-SentSince key since q d later (last, e, h) = elim (Bool-cases (str_eq (rate_key q) key)) [
  | inl same ↦
      (q.stamped_at, ground (arith, get-put key (rate_key q) q.stamped_at d.rate_limiter), later)
  | inr other ↦ (last, ground (arith, get-put key (rate_key q) q.stamped_at d.rate_limiter), h)
]

trigger-SentSince :
    (key : String) (since : ℕ) (q : Request) (d : Dispatcher)
    → since ≤ q.stamped_at
    → SentSince key since d
    → SentSince key since (trigger q d).0
unfolding trigger
trigger-SentSince key since q d later (last, e, h) =
    elim (Bool-cases (is_suppressed (get (rate_key q) d.rate_limiter) q.tested_at d.cooldown)) [
      | inl s ↦ rw (s, trigger) (last, e, h)
      | inr r ↦ rw (r, trigger) (put-SentSince key since q d later (last, e, h))
    ]

trigger-cooldown : (q : Request) (d : Dispatcher) → (trigger q d).0.cooldown ≡ d.cooldown
unfolding trigger
trigger-cooldown q d = ground arith

trigger_all-SentSince :
    (key : String) (since : ℕ) (qs : List Request) (d : Dispatcher)
    → All (λ q. since ≤ q.stamped_at) qs
    → SentSince key since d
    → SentSince key since (trigger_all qs d)
unfolding trigger_all
trigger_all-SentSince key since [] d later s = s
trigger_all-SentSince key since (q ∷ qs) d later s =
    trigger_all-SentSince key since qs (trigger q d).0 later.1
      (trigger-SentSince key since q d later.0 s)

trigger_all-cooldown :
    (qs : List Request) (d : Dispatcher) → (trigger_all qs d).cooldown ≡ d.cooldown
unfolding trigger_all
trigger_all-cooldown [] d = refl
trigger_all-cooldown (q ∷ qs) d = trigger_all-cooldown qs (trigger q d).0 ∙ trigger-cooldown q d

SentSince-is_suppressed :
    (key : String) (since now : ℕ) (d : Dispatcher)
    → SentSince key since d
    → now < since + d.cooldown
    → is_suppressed (get key d.rate_limiter) now d.cooldown ≡ true
unfolding is_suppressed
SentSince-is_suppressed key since now d (last, e, h) soon = ground arith

trigger-suppressed :
    (q : Request) (d : Dispatcher)
    → is_suppressed (get (rate_key q) d.rate_limiter) q.tested_at d.cooldown ≡ true
    → trigger q d ≡ (d, none)
unfolding trigger
trigger-suppressed q d s = rw s

trigger-raised :
    (q : Request) (d : Dispatcher) (a : Alert)
    → (trigger q d).1 ≡ some a
    → SentSince (rate_key q) q.stamped_at (trigger q d).0
unfolding trigger
trigger-raised q d a h =
    elim (Bool-cases (is_suppressed (get (rate_key q) d.rate_limiter) q.tested_at d.cooldown)) [
      | inl s ↦ cc (ap (λ (r : Dispatcher × Option Alert). r.1) (trigger-suppressed q d s))
      | inr r ↦
          rw (r, trigger)
            (
              q.stamped_at,
              ground (
                arith,
                get-put (rate_key q) (rate_key q) q.stamped_at d.rate_limiter,
                eq_iff (rate_key q) (rate_key q),
              ),
              omega arith,
            )
    ]

is_suppressed-true :
    (o : Option ℕ) (now cooldown : ℕ)
    → is_suppressed o now cooldown ≡ true
    → (last : ℕ) × (o ≡ some last) × (now < last + cooldown)
unfolding is_suppressed
is_suppressed-true none now cooldown h = cc
is_suppressed-true (some last) now cooldown h = (last, refl, ground arith)

is_suppressed-false :
    (o : Option ℕ) (now cooldown : ℕ)
    → is_suppressed o now cooldown ≡ false
    → (last : ℕ) → o ≡ some last
    → last + cooldown ≤ now
unfolding is_suppressed
is_suppressed-false none now cooldown h last e = cc
is_suppressed-false (some l) now cooldown h last e = ground arith

-- After an alert is raised, a request with the same trigger and table raises no alert within the
-- cooldown and changes nothing, whatever requests come in between, if the clock does not go back.
pub trigger-within_cooldown :
    (first again : Request) (between : List Request) (d : Dispatcher)
    → (trigger first d).1 ≡ some (alert_of first)
    → rate_key again ≡ rate_key first
    → All (λ q. first.stamped_at ≤ q.stamped_at) between
    → again.tested_at < first.stamped_at + d.cooldown
    → trigger again (trigger_all between (trigger first d).0)
      ≡ (trigger_all between (trigger first d).0, none)
trigger-within_cooldown first again between d raised same later soon =
    let e = trigger_all between (trigger first d).0 in
    let sent =
      trigger_all-SentSince (rate_key first) first.stamped_at between (trigger first d).0 later
        (trigger-raised first d (alert_of first) raised) in
    let unchanged = trigger_all-cooldown between (trigger first d).0 ∙ trigger-cooldown first d in
    trigger-suppressed again e (
      rw same (
        SentSince-is_suppressed (rate_key first) first.stamped_at again.tested_at e sent
          (omega (arith, unchanged))))

-- A request that the rate limit lets through raises its alert once in the memory sink and once in
-- every other sink, and any other request changes nothing.
pub trigger_lem :
    (q : Request) (d : Dispatcher)
    → (((trigger q d) ≡ (d, none))
        × ((last : ℕ) × (get (rate_key q) d.rate_limiter ≡ some last)
            × (q.tested_at < last + d.cooldown)))
      ⊎ (((trigger q d).1 ≡ some (alert_of q))
          × ((trigger q d).0.memory_sink.alerts ≡ d.memory_sink.alerts ++ alert_of q ∷ [])
          × ((trigger q d).0.other_sinks
              ≡ map (λ (s : List Alert). s ++ alert_of q ∷ []) d.other_sinks)
          × ((last : ℕ)
              → get (rate_key q) d.rate_limiter ≡ some last
              → last + d.cooldown ≤ q.tested_at))
unfolding trigger send
trigger_lem q d =
    elim (Bool-cases (is_suppressed (get (rate_key q) d.rate_limiter) q.tested_at d.cooldown)) [
      | inl s ↦ inl (trigger-suppressed q d s, is_suppressed-true _ q.tested_at d.cooldown s)
      | inr r ↦
          rw (r, trigger) (inr (refl, refl, refl, is_suppressed-false _ q.tested_at d.cooldown r))
    ]
