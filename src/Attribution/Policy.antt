-- ===== src/Attribution/Policy.antt =====
-- What the attribution of internal/attribution/attribution.go says of a transaction.
use logs_tracker.Prelude.{
  String, ◌≡◌, ◌≢◌, ◌↔◌, ◌⊎◌, inl, inr, refl, sym, true, false, Option, none, some, List, [], ◌∷◌,
  arith, Occurs, eq_iff, Option-cases, zero, suc,
}
use logs_tracker.Prelude.Dict.{get}
use logs_tracker.Source.{EventType, insert, Value, text, Row, RowChange, Transaction}
use logs_tracker.Config.{TableConfig, Manager, get_table_config, text_or}
use logs_tracker.Attribution.{
  ActorAttribution, context_row, is_insert, actor_of_row, find_actor, by_policy,
  correlate_transaction,
}

-- The change is an insert of a context row that names the user `u`.
pub record NamesActor (change : RowChange) (u : String) : Type 0 where
  pub context_table : change.table ≡ "_audit_context"
  pub inserted : change.action ≡ insert
  pub row : Row
  pub image : change.after_image ≡ some row
  pub user : get "user_id" row ≡ some (text u)
  pub nonempty : u ≢ ""

-- The attribution of a context row that names `u`.
pub record AttributesTo (a : ActorAttribution) (u : String) : Type 0 where
  pub actor : a.actor_user_id ≡ some u
  pub silent : a.trigger_alert ≡ false

is_insert-eq : (a : EventType) → is_insert a ≡ true → a ≡ insert
unfolding is_insert
is_insert-eq insert h = refl
is_insert-eq a h = cc

text_or-text : (v : Option Value) (u : String) → text_or "" v ≡ u → u ≢ "" → v ≡ some (text u)
unfolding text_or
text_or-text none u h n = absurd (n (sym h))
text_or-text (some (text s)) u h n = cc
text_or-text (some v) u h n = absurd (n (sym h))

context_row-some :
    (c : RowChange) (row : Row)
    → context_row c ≡ some row
    → (c.table ≡ "_audit_context") × (c.action ≡ insert) × (c.after_image ≡ some row)
unfolding context_row
context_row-some c row h = ground (arith, eq_iff c.table "_audit_context", is_insert-eq c.action)

actor_of_row-some :
    (row : Row) (a : ActorAttribution)
    → actor_of_row (some row) ≡ some a
    → (u : String) × (u ≢ "") × (get "user_id" row ≡ some (text u)) × AttributesTo a u
unfolding actor_of_row
actor_of_row-some row a h =
    let u = text_or "" (get "user_id" row) in
    let nonempty : u ≢ "" = λ p. ground (arith, eq_iff u "") in
    (
      u,
      nonempty,
      text_or-text (get "user_id" row) u refl nonempty,
      record { actor = ground arith; silent = ground arith },
    )

actor_of_none :
    (c : RowChange) (a : ActorAttribution)
    → context_row c ≡ none
    → actor_of_row (context_row c) ≡ some a
    → ⊥
unfolding actor_of_row
actor_of_none c a e h = ground arith

actor_of_row-NamesActor :
    (c : RowChange) (a : ActorAttribution)
    → actor_of_row (context_row c) ≡ some a
    → (u : String) × NamesActor c u × AttributesTo a u
actor_of_row-NamesActor c a h = elim (Option-cases (context_row c)) [
  | inl e ↦ absurd (actor_of_none c a e h)
  | inr (row, e) ↦
      let (u, nonempty, user, to) = actor_of_row-some row a (rw e at h) in
      let (t, i, m) = context_row-some c row e in
      (
        u,
        record {
          context_table = t;
          inserted = i;
          row = row;
          image = m;
          user = user;
          nonempty = nonempty;
        },
        to,
      )
]

-- A context row that names a user is enough.
NamesActor-actor_of_row :
    (c : RowChange) (u : String) → NamesActor c u → actor_of_row (context_row c) ≢ none
unfolding actor_of_row context_row is_insert text_or
NamesActor-actor_of_row c u h e = ground (
  arith,
  eq_iff c.table "_audit_context",
  eq_iff u "",
  h.context_table,
  h.inserted,
  h.image,
  h.user,
  h.nonempty,
)

find_actor-cons :
    (c : RowChange) (rest : List RowChange)
    → find_actor (c ∷ rest) ≡ none
    → (actor_of_row (context_row c) ≡ none) × (find_actor rest ≡ none)
unfolding find_actor
find_actor-cons c rest h = ground arith

find_actor-none :
    (changes : List RowChange) (c : RowChange) (u : String)
    → find_actor changes ≡ none
    → Occurs c changes
    → ¬ NamesActor c u
find_actor-none [] c u h (i, o) n = cc
find_actor-none (d ∷ rest) c u h (zero, o) n =
    let same : d ≡ c = cc in
    NamesActor-actor_of_row c u n (rw same at ((find_actor-cons d rest h).0))
find_actor-none (d ∷ rest) c u h (suc i, o) n =
    find_actor-none rest c u (find_actor-cons d rest h).1 (i, o) n

find_actor-some :
    (changes : List RowChange) (a : ActorAttribution)
    → find_actor changes ≡ some a
    → (c : RowChange) × (u : String) × Occurs c changes × NamesActor c u × AttributesTo a u
unfolding find_actor
find_actor-some [] a h = cc
find_actor-some (c ∷ rest) a h = elim (Option-cases (actor_of_row (context_row c))) [
  | inl e ↦
      let (d, u, (i, o), names, to) = find_actor-some rest a (rw (e, find_actor) at h) in
      (d, u, (suc i, o), names, to)
  | inr (b, e) ↦
      let (u, names, to) = actor_of_row-NamesActor c b e in
      (
        c,
        u,
        (0, refl),
        names,
        let q : b ≡ a = (let k : some b ≡ some a = rw (e, find_actor) at h in cc) in rw (← q) to,
      )
]

policy_alerts :
    (table : String) (cfg : TableConfig)
    → cfg.unattributed_policy ≢ "tolerate"
    → (by_policy table (some cfg)).trigger_alert ≡ true
unfolding by_policy
policy_alerts table cfg n = ground (arith, eq_iff cfg.unattributed_policy "tolerate")

ap_policy :
    (c d : TableConfig)
    → some c ≡ some d
    → c.unattributed_policy ≡ "tolerate"
    → d.unattributed_policy ≡ "tolerate"
ap_policy c d e p = let q : c ≡ d = cc in rw (← q) p

by_policy-alert :
    (table : String) (o : Option TableConfig)
    → ((by_policy table o).trigger_alert ≡ true)
      ↔ ((cfg : TableConfig) × (o ≡ some cfg) × (cfg.unattributed_policy ≢ "tolerate"))
unfolding by_policy
by_policy-alert table none = (λ h. cc, λ h. cc h.1)
by_policy-alert table (some cfg) = (
  λ h. (cfg, refl, λ p. ground (arith, eq_iff cfg.unattributed_policy "tolerate")),
  λ h. policy_alerts table cfg (λ p. h.2 (ap_policy cfg h.0 h.1 p)),
)

by_policy-actor :
    (table : String) (o : Option TableConfig) → (by_policy table o).actor_user_id ≡ none
unfolding by_policy
by_policy-actor table none = refl
by_policy-actor table (some cfg) = ground arith

-- An alert is raised exactly when no change of the transaction is a context row that names a user,
-- and the table has a configuration whose policy is another than "tolerate".
pub correlate_transaction-alert :
    (m : Manager) (tx : Transaction) (table : String)
    → ((correlate_transaction m tx table).trigger_alert ≡ true) ↔ (
        ((c : RowChange) (u : String) → Occurs c tx.changes → ¬ NamesActor c u)
        × ((cfg : TableConfig) × (get_table_config table m ≡ some cfg)
            × (cfg.unattributed_policy ≢ "tolerate")))
unfolding correlate_transaction
correlate_transaction-alert m tx table = elim (Option-cases (find_actor tx.changes)) [
  | inl e ↦
      rw (e, correlate_transaction)
        (
          λ h. (
            λ c u o. find_actor-none tx.changes c u e o,
            (by_policy-alert table (get_table_config table m)).0 h,
          ),
          λ h. (by_policy-alert table (get_table_config table m)).1 h.1,
        )
  | inr (a, e) ↦
      let (c, u, o, names, to) = find_actor-some tx.changes a e in
      rw (e, correlate_transaction) (λ h. cc (to.silent), λ h. absurd (h.0 c u o names))
]

-- A change is attributed to a user exactly when some change of its transaction is a context row
-- that names a user, and the user is one that such a row names.
pub correlate_transaction-actor :
    (m : Manager) (tx : Transaction) (table : String)
    → (((correlate_transaction m tx table).actor_user_id ≡ none)
        × ((c : RowChange) (u : String) → Occurs c tx.changes → ¬ NamesActor c u))
      ⊎ ((c : RowChange) × (u : String) × Occurs c tx.changes
          × NamesActor c u
          × ((correlate_transaction m tx table).actor_user_id ≡ some u))
unfolding correlate_transaction
correlate_transaction-actor m tx table = elim (Option-cases (find_actor tx.changes)) [
  | inl e ↦ inl (
    rw (e, correlate_transaction) (by_policy-actor table (get_table_config table m)),
    λ c u o. find_actor-none tx.changes c u e o,
  )
  | inr (a, e) ↦
      let (c, u, o, names, to) = find_actor-some tx.changes a e in
      inr (c, u, o, names, rw (e, correlate_transaction) to.actor)
]
