-- ===== src/Store/Checkpoint.antt =====
-- The position from which internal/store/store.go lets the reader resume.
use logs_tracker.Prelude.{
  suc, ◌≤◌, String, ◌≡◌, ◌⊎◌, inl, inr, refl, ap, sym, Bool-cases, none, some, [], ◌∷◌, All, Occurs,
  ltb, arith,
}
use logs_tracker.Prelude.Dict.{Dict}
use logs_tracker.Store.{Batch, MemoryStore, latest, checkpoint_of, get_latest_checkpoint}

-- One of the batches, and none of them closed after it.
abbrev pub IsLatest : Batch → Dict Batch → Type 0
IsLatest b m =
    ((k : String) × Occurs (k, b) m) × All (λ (e : String × Batch). e.1.closed_at ≤ b.closed_at) m

-- The best of a batch and the rest of a map.
record IsBest (best : Batch) (rest : Dict Batch) : Type 0 where
  chosen : Batch
  is_latest : latest (some best) rest ≡ some chosen
  not_before : best.closed_at ≤ chosen.closed_at
  none_after : All (λ (e : String × Batch). e.1.closed_at ≤ chosen.closed_at) rest
  found_in : (chosen ≡ best) ⊎ ((k : String) × Occurs (k, chosen) rest)

latest-IsBest : (best : Batch) (rest : Dict Batch) → IsBest best rest
unfolding latest
latest-IsBest best [] = record {
  chosen = best;
  is_latest = refl;
  not_before = omega arith;
  none_after = tt;
  found_in = inl refl;
}
latest-IsBest best ((k, b) ∷ rest) = elim (Bool-cases (ltb best.closed_at b.closed_at)) [
  | inl t ↦
      let h = latest-IsBest b rest in
      let later : best.closed_at ≤ b.closed_at = ground arith in
      record {
        chosen = h.chosen;
        is_latest = rw (latest, t) h.is_latest;
        not_before = omega (arith, later, h.not_before);
        none_after = (h.not_before, h.none_after);
        found_in = inr (elim h.found_in [
          | inl e ↦ (k, (0, ap (λ u. some (k, u)) (sym e)))
          | inr (j, (i, e)) ↦ (j, (suc i, e))
        ]);
      }
  | inr f ↦
      let h = latest-IsBest best rest in
      let earlier : b.closed_at ≤ best.closed_at = ground arith in
      record {
        chosen = h.chosen;
        is_latest = rw (latest, f) h.is_latest;
        not_before = h.not_before;
        none_after = (omega (arith, earlier, h.not_before), h.none_after);
        found_in = elim h.found_in [ inl e ↦ inl e | inr (j, (i, e)) ↦ inr (j, (suc i, e)) ];
      }
]

latest_cases :
    (m : Dict Batch)
    → ((m ≡ []) × (latest none m ≡ none)) ⊎ ((b : Batch) × IsLatest b m × (latest none m ≡ some b))
unfolding latest
latest_cases [] = inl (refl, refl)
latest_cases ((k, b) ∷ rest) =
    let h = latest-IsBest b rest in
    inr (
      h.chosen,
      (
        elim h.found_in [
          | inl e ↦ (k, (0, ap (λ u. some (k, u)) (sym e)))
          | inr (j, (i, e)) ↦ (j, (suc i, e))
        ],
        (h.not_before, h.none_after),
      ),
      h.is_latest,
    )

-- The checkpoint is the binlog position of a batch of the store that no other batch closed after,
-- or the empty position if the store has no batch.
pub get_latest_checkpoint_lem :
    (m : MemoryStore)
    → ((m.batches ≡ []) × (get_latest_checkpoint m ≡ ("", 0)))
      ⊎ ((b : Batch) × IsLatest b m.batches
          × (get_latest_checkpoint m ≡ (b.binlog_file, b.binlog_position)))
unfolding get_latest_checkpoint checkpoint_of
get_latest_checkpoint_lem m = elim (latest_cases m.batches) [
  | inl (e, none_yet) ↦ inl (e, ap checkpoint_of none_yet)
  | inr (b, is_latest, e) ↦ inr (b, is_latest, ap checkpoint_of e)
]
