-- ===== src/Batch/Kept.antt =====
-- What the services keep, closing a batch keeps (internal/batch/batcher.go).
use logs_tracker.Prelude.{String, ◌≡◌, refl, ◌∙◌, Option, none, some, List, [], ◌∷◌}
use logs_tracker.Errors.{GoError, Result, ok, err}
use logs_tracker.Merkle.{Bytes, Tree, build_tree}
use logs_tracker.Merkle.Payload.{Runtime}
use logs_tracker.Store.{Batch, Record, leaf_hashes}
use logs_tracker.Alerting.{Alert}
use logs_tracker.Batch.{
  CheckpointObject, Batcher, Services, Moment, dispatch_all, announce, anchor_result, anchor,
  persist, signed, rooted, hashed, close_records, close_current_batch, batch_row, checkpoint_object,
}

-- A property of the services' state that none of them ends.
pub record IsKept {S : Type 0} (services : Services S) (P : S → Type 0) : Type 0 where
  pub by_create :
      (row : Batch) (rs : List Record) (s : S) → P s → P (services.create_batch row rs s).0
  pub by_put :
      (id : String) (content : Bytes) (s : S) → P s → P (services.put_checkpoint id content s).0
  pub by_dispatch : (a : Alert) (s : S) → P s → P (services.dispatch a s)
  pub by_closed : (row : Batch) (s : S) → P s → P (services.batch_closed row s)

-- A dispatcher that changes no state.
pub dispatch_all-silent :
    (rt : Runtime) {S : Type 0} (services : Services S)
    → ((a : Alert) (s : S) → services.dispatch a s ≡ s)
    → (alerts : List Alert) (s : S) → dispatch_all rt services alerts s ≡ s
unfolding dispatch_all
dispatch_all-silent rt services silent [] s = refl
dispatch_all-silent rt services silent (a ∷ alerts) s =
    dispatch_all-silent rt services silent alerts (services.dispatch a s) ∙ silent a s

module _ (rt : Runtime) {S : Type 0} (services : Services S) (P : S → Type 0)
    (kept : IsKept services P) where
  pub keep_dispatch : (alerts : List Alert) (s : S) → P s → P (dispatch_all rt services alerts s)
  unfolding dispatch_all
  keep_dispatch [] s h = h
  keep_dispatch (a ∷ rest) s h = keep_dispatch rest (services.dispatch a s) (kept.by_dispatch a s h)

  keep_anchor_result :
      (t : Moment) (b : Batcher) (row : Batch) (s : S) (e : Option GoError)
      → P s
      → P (anchor_result rt services t b row (s, e)).1
  unfolding anchor_result announce
  keep_anchor_result t b row s none h = kept.by_closed row _ (keep_dispatch b.alerts_queue s h)
  keep_anchor_result t b row s (some e) h = h

  keep_anchor :
      (t : Moment) (b : Batcher) (row : Batch) (s : S) (o : Option Bytes)
      → P s
      → P (anchor rt services t b row s o).1
  unfolding anchor
  keep_anchor t b row s none h = h
  keep_anchor t b row s (some content) h =
      let next = services.put_checkpoint b.current_batch_id content s in
      keep_anchor_result t b row next.0 next.1 (kept.by_put b.current_batch_id content s h)

  keep_persist :
      (t : Moment) (b : Batcher) (row : Batch) (c : CheckpointObject) (s : S) (e : Option GoError)
      → P s
      → P (persist rt services t b row c (s, e)).1
  unfolding persist
  keep_persist t b row c s none h = keep_anchor t b row s (services.marshal_checkpoint c) h
  keep_persist t b row c s (some e) h = h

  keep_signed :
      (t : Moment) (b : Batcher) (s : S) (root : Bytes) (r : Result (Bytes × String))
      → P s
      → P (signed rt services t b s root r).1
  unfolding signed
  keep_signed t b s root (err e) h = h
  keep_signed t b s root (ok (sig, version)) h =
      let row = batch_row t b root sig version in
      let next = services.create_batch row b.records s in
      keep_persist t b row (checkpoint_object t b root sig version) next.0 next.1
        (kept.by_create row b.records s h)

  keep_rooted :
      (t : Moment) (b : Batcher) (s : S) (o : Option Tree) → P s → P (rooted rt services t b s o).1
  unfolding rooted
  keep_rooted t b s none h = h
  keep_rooted t b s (some tree) h = keep_signed t b s tree.root (services.sign tree.root) h

  keep_hashed :
      (t : Moment) (b : Batcher) (s : S) (r : Result (List Bytes))
      → P s
      → P (hashed rt services t b s r).1
  unfolding hashed
  keep_hashed t b s (err e) h = h
  keep_hashed t b s (ok leaves) h = keep_rooted t b s (build_tree rt.sha256 leaves) h

  keep_close_records :
      (t : Moment) (b : Batcher) (s : S) (rs : List Record)
      → P s
      → P (close_records rt services t b s rs).1
  unfolding close_records
  keep_close_records t b s [] h = h
  keep_close_records t b s (r ∷ rs) h = keep_hashed t b s (leaf_hashes rt (r ∷ rs)) h

  pub keep_close :
      (t : Moment) (b : Batcher) (s : S) → P s → P (close_current_batch rt services t b s).1
  unfolding close_current_batch
  keep_close t b s h = keep_close_records t b s b.records h
