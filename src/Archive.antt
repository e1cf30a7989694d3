-- ===== src/Archive.antt =====
-- internal/archive/archive.go: the write-once directory. The files below the base directory are a
-- map from relative paths; what each system call returns is an input.
pub mod WriteOnce
use Prim.Native.String
use text.Mathlib.Text.{starts_with}
use logs_tracker.Prelude.{
  String, append, Bool, true, false, ◌&&◌, ◌||◌, Option, none, some, List, [], ◌∷◌, str_eq,
  if◌then◌else◌,
}
use logs_tracker.Prelude.Text.{contains, ends_with}
use logs_tracker.Prelude.Dict.{Dict, get, put, delete}
use logs_tracker.Errors.{
  GoError, object_exists, object_not_found, invalid_key, wrapped, Result, ok, err,
}
use logs_tracker.Merkle.{Bytes}

pub record File : Type 0 where
  pub content : Bytes
  pub read_only : Bool

abbrev pub Files : Type 0
Files = Dict File

-- What the calls of `writeImmutable` return. An error of `os.Stat` is one for another reason than
-- that the file does not exist; an error of `Write` comes with what was written before it.
pub record Disk : Type 0 where
  pub stat : Option GoError
  pub create_temp : Result String
  pub write : Option (Bytes × GoError)
  pub sync : Option GoError
  pub close : Option GoError
  pub rename : Option GoError
  pub chmod : Option GoError
  pub remove : Option GoError

-- The deferred clean-up, whose error is ignored, and the error that is returned.
unfoldable pub abandon : Disk → String → String → GoError → Files → Files × Option GoError
abandon d text temp e fs =
    (elim d.remove [ none ↦ delete temp fs | some ignored ↦ fs ], some (wrapped text e))

-- After the rename.
finish : Disk → String → Bytes → Files → Files × Option GoError
finish d path content fs = elim d.chmod [
  | none ↦ (put path (record { content = content; read_only = true }) fs, none)
  | some e ↦ (
    put path (record { content = content; read_only = false }) fs,
    some (wrapped "failed to set read-only permissions" e),
  )
]

-- After the temporary file is created; it holds the data once `Write` has returned.
fill : Disk → String → Bytes → String → Files → Files × Option GoError
unfolding abandon finish
fill d path content temp fs =
    let written = put temp (record { content = content; read_only = false }) fs in
    elim d.write [
      | some (part, e) ↦
          abandon d "failed to write archive data" temp e
            (put temp (record { content = part; read_only = false }) fs)
      | none ↦ elim d.sync [
        | some e ↦ abandon d "failed to sync archive data" temp e written
        | none ↦ elim d.close [
          | some e ↦ abandon d "failed to close temp file" temp e written
          | none ↦ elim d.rename [
            | some e ↦ abandon d "failed to commit immutable archive object" temp e written
            | none ↦ finish d path content (delete temp written)
          ]
        ]
      ]
    ]

start : Disk → String → Bytes → Files → Result String → Files × Option GoError
unfolding fill
start d path content fs (err e) = (fs, some (wrapped "failed to create temp archive file" e))
start d path content fs (ok temp) = fill d path content temp fs

-- The write goes on unless `os.Stat` returns no error.
unfoldable pub write_immutable : Disk → String → Bytes → Files → Files × Option GoError
unfolding start
write_immutable d path content fs = elim d.stat [
  | some e ↦ start d path content fs d.create_temp
  | none ↦ elim (get path fs) [
    | some f ↦ (fs, some (wrapped path object_exists))
    | none ↦ start d path content fs d.create_temp
  ]
]

abbrev pub checkpoint_path : String → String
checkpoint_path batch_id = append "checkpoints/" (append batch_id ".json")

abbrev pub archive_path : String → String
archive_path batch_id = append "archives/" (append batch_id ".jsonl")

unfoldable pub put_checkpoint : Disk → String → Bytes → Files → Files × Option GoError
put_checkpoint d batch_id content fs = write_immutable d (checkpoint_path batch_id) content fs

unfoldable pub put_archive : Disk → String → Bytes → Files → Files × Option GoError
put_archive d batch_id content fs = write_immutable d (archive_path batch_id) content fs

-- `filepath.Clean` is a parameter, and so is an error of `os.ReadFile` for another reason than that
-- the file does not exist.
unfoldable pub get_object : (String → String) → Option GoError → String → Files → Result Bytes
get_object clean unreadable key fs =
    let path = clean key in
    if contains path ".." || starts_with path "/" then err invalid_key else elim unreadable [
      | some e ↦ err (wrapped "failed to read archive object" e)
      | none ↦ elim (get path fs) [ none ↦ err object_not_found | some f ↦ ok f.content ]
    ]

-- The entries of checkpoints/ whose names end in .json.
unfoldable pub checkpoint_keys : Files → List String
checkpoint_keys [] = []
checkpoint_keys ((path, f) ∷ rest) =
    let more = checkpoint_keys rest in
    if starts_with path "checkpoints/" && ends_with path ".json" then path ∷ more else more

-- The error is that of `os.ReadDir`.
unfoldable pub list_checkpoints : Option GoError → Files → Result (List String)
unfolding checkpoint_keys
list_checkpoints (some e) fs = err (wrapped "failed to read checkpoints dir" e)
list_checkpoints none fs = ok (checkpoint_keys fs)
