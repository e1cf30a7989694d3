-- ===== src/Snapshot/Fields.antt =====
-- What stands in a record that internal/snapshot/snapshot.go builds.
use logs_tracker.Prelude.{ℕ, String, ◌≡◌, sym, ap, inl, inr}
use logs_tracker.Errors.{ok, Result-cases, ok-injective}
use logs_tracker.Source.{RowChange}
use logs_tracker.Config.{TableConfig}
use logs_tracker.Attribution.{ActorAttribution}
use logs_tracker.Store.{Record}
use logs_tracker.Snapshot.{Codec, build_record, image, has_before, has_after, extract_primary_key}

-- The record's identifier is the fresh one.
pub build_record-id :
    (codec : Codec) (id : String) (c : RowChange) (cfg : TableConfig) (attr : ActorAttribution)
    (tx_id : String) (at leaf : ℕ) (r : Record)
    → build_record codec id c cfg attr tx_id at leaf ≡ ok r
    → r.id ≡ id
unfolding build_record
build_record-id codec id c cfg attr tx_id at leaf r e =
    elim (Result-cases (
      image codec "failed to process before image" "failed to marshal before image"
        (has_before c.action) cfg.encrypted_columns c.before_image)) [
          | inr (x, h) ↦ cc (rw (build_record, h) at e)
          | inl (before, h) ↦
              elim (Result-cases (
                image codec "failed to process after image" "failed to marshal after image"
                  (has_after c.action) cfg.encrypted_columns c.after_image)) [
                    | inr (x, h') ↦ cc (rw (build_record, h, h') at e)
                    | inl (after, h') ↦
                        elim (Result-cases
                          (extract_primary_key codec c.before_image c.after_image)) [
                            | inr (x, k) ↦ cc (rw (build_record, h, h', k) at e)
                            | inl (key, k) ↦
                                ap (λ (q : Record). q.id)
                                  (sym (ok-injective (rw (build_record, h, h', k) at e)))
                          ]
                  ]
        ]
