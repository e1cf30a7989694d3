-- ===== src/Examples/Orders.antt =====
-- The theorem on the order of the maps of MemoryStore at two records of one batch.
use mathlib.Core.List.Memᴰ
use mathlib.Core.List.Permᴰ
use logs_tracker.Prelude.{◌≡◌, refl, ap, sym, ◌∙◌, false, none, [], ◌∷◌}
use logs_tracker.Prelude.Text.{differs}
use logs_tracker.Store.{Batch, Record, MemoryStore, get_record_for_verification}
use logs_tracker.Store.Order.{HasOneEach, HasOnePlace, get_record_for_verification-Permᴰ}
use logs_tracker.Examples.Batches.{runtime, order}

abbrev first : Record
first = record (order "r1") { batch_id = "b1" }

abbrev second : Record
second = record (order "r2") { batch_id = "b1"; merkle_leaf_index = 1 }

abbrev batch : Batch
batch = record {
  id = "b1";
  started_at = 0;
  closed_at = 5;
  event_count = 2;
  merkle_root = [];
  signature = [];
  key_version = "v1";
  binlog_file = "bin.1";
  binlog_position = 300;
  status = "signed";
  worm_object_key = none;
  is_bootstrap = false;
  bootstrap_table_name = none;
}

abbrev one_order : MemoryStore
one_order = record {
  batches = ("b1", batch) ∷ [];
  records = ("r1", first) ∷ ("r2", second) ∷ [];
  worm_index = [];
}

abbrev other_order : MemoryStore
other_order = record one_order { records = ("r2", second) ∷ ("r1", first) ∷ [] }

keys : HasOneEach one_order.records
keys a b (Memᴰ.head p) (Memᴰ.head q) e = p ∙ sym q
keys a b (Memᴰ.tail (Memᴰ.head p)) (Memᴰ.tail (Memᴰ.head q)) e = p ∙ sym q
keys a b (Memᴰ.head p) (Memᴰ.tail (Memᴰ.head q)) e =
    absurd (differs "r1" "r2" refl (sym (ap (λ x. x.0) p) ∙ e ∙ ap (λ x. x.0) q))
keys a b (Memᴰ.tail (Memᴰ.head p)) (Memᴰ.head q) e =
    absurd (differs "r2" "r1" refl (sym (ap (λ x. x.0) p) ∙ e ∙ ap (λ x. x.0) q))
keys a b (Memᴰ.tail (Memᴰ.tail m)) k e = elim m [ ]
keys a b (Memᴰ.head p) (Memᴰ.tail (Memᴰ.tail k)) e = elim k [ ]
keys a b (Memᴰ.tail (Memᴰ.head p)) (Memᴰ.tail (Memᴰ.tail k)) e = elim k [ ]

batch_keys : HasOneEach one_order.batches
batch_keys a b (Memᴰ.head p) (Memᴰ.head q) e = p ∙ sym q
batch_keys a b (Memᴰ.head p) (Memᴰ.tail k) e = elim k [ ]
batch_keys a b (Memᴰ.tail m) k e = elim m [ ]

places : HasOnePlace one_order.records
places a b (Memᴰ.head p) (Memᴰ.head q) e f = ap (λ x. x.1) (p ∙ sym q)
places a b (Memᴰ.tail (Memᴰ.head p)) (Memᴰ.tail (Memᴰ.head q)) e f = ap (λ x. x.1) (p ∙ sym q)
places a b (Memᴰ.head p) (Memᴰ.tail (Memᴰ.head q)) e f =
    let same = sym (ap (λ x. x.1.merkle_leaf_index) p) ∙ f ∙ ap (λ x. x.1.merkle_leaf_index) q in cc
places a b (Memᴰ.tail (Memᴰ.head p)) (Memᴰ.head q) e f =
    let same = sym (ap (λ x. x.1.merkle_leaf_index) p) ∙ f ∙ ap (λ x. x.1.merkle_leaf_index) q in cc
places a b (Memᴰ.tail (Memᴰ.tail m)) k e f = elim m [ ]
places a b (Memᴰ.head p) (Memᴰ.tail (Memᴰ.tail k)) e f = elim k [ ]
places a b (Memᴰ.tail (Memᴰ.head p)) (Memᴰ.tail (Memᴰ.tail k)) e f = elim k [ ]

get_record_for_verification-Permᴰ_example :
    get_record_for_verification runtime "r2" one_order
    ≡ get_record_for_verification runtime "r2" other_order
get_record_for_verification-Permᴰ_example =
    get_record_for_verification-Permᴰ runtime "r2" one_order other_order (Permᴰ.swap refl refl)
      (Permᴰ.refl (("b1", batch) ∷ [])) keys batch_keys places
