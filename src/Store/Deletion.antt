-- ===== src/Store/Deletion.antt =====
-- What DeleteRecordsByBatchID of the MemoryStore in internal/store/store.go removes.
use logs_tracker.Prelude.{
  String, ◌≡◌, ◌≢◌, refl, ap, sym, ◌∙◌, true, false, Bool-cases, inl, inr, some, [], ◌∷◌, arith,
  eq_iff,
}
use logs_tracker.Prelude.Dict.{Dict, get}
use logs_tracker.Store.Records.{delete_records_by_batch_id-keeps}
use logs_tracker.Store.{
  Record, MemoryStore, select, in_batch, sort_by_index, drop_batch, delete_records_by_batch_id,
  get_records_by_batch_id,
}

select-drop_batch : (b : String) (d : Dict Record) → select (in_batch b) (drop_batch b d) ≡ []
unfolding select drop_batch
select-drop_batch b [] = refl
select-drop_batch b ((k, r) ∷ rest) = elim (Bool-cases (in_batch b r)) [
  | inl t ↦ rw t (select-drop_batch b rest)
  | inr f ↦ rw (f, select, f) (select-drop_batch b rest)
]

other_batch : (b c : String) (r : Record) → c ≢ b → in_batch b r ≡ true → in_batch c r ≡ false
unfolding in_batch
other_batch b c r n t = ground (arith, eq_iff r.batch_id b, eq_iff r.batch_id c, eq_iff c b)

select_other-drop_batch :
    (b c : String) (d : Dict Record)
    → c ≢ b
    → select (in_batch c) (drop_batch b d) ≡ select (in_batch c) d
unfolding select drop_batch
select_other-drop_batch b c [] n = refl
select_other-drop_batch b c ((k, r) ∷ rest) n =
    let ih = select_other-drop_batch b c rest n in
    elim (Bool-cases (in_batch b r)) [
      | inl t ↦ rw (t, other_batch b c r n t) ih
      | inr f ↦ rw (f, select, ih) refl
    ]

-- Deleting the records of a batch leaves none of them in the batch's listing, and leaves the listing
-- of another batch and the lookup of a record of that other batch as they were.
pub delete_records_by_batch_id_lem :
    (b c id : String) (r : Record) (m : MemoryStore)
    → c ≢ b
    → get id m.records ≡ some r
    → r.batch_id ≡ c
    → (get_records_by_batch_id b (delete_records_by_batch_id b m) ≡ [])
      × (get_records_by_batch_id c (delete_records_by_batch_id b m) ≡ get_records_by_batch_id c m)
      × (get id (delete_records_by_batch_id b m).records ≡ some r)
unfolding get_records_by_batch_id delete_records_by_batch_id
delete_records_by_batch_id_lem b c id r m n e same = (
  ap sort_by_index (select-drop_batch b m.records),
  ap sort_by_index (select_other-drop_batch b c m.records n),
  delete_records_by_batch_id-keeps b id r m (λ q. n (sym same ∙ q)) e,
)
