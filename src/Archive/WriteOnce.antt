-- ===== src/Archive/WriteOnce.antt =====
-- The writes of internal/archive/archive.go.
use logs_tracker.Prelude.{
  String, ◌≡◌, ◌⊎◌, inl, inr, refl, ap, ◌∙◌, true, false, Option, none, some, str_eq, eq_iff, arith,
  Option-cases, Bool-cases,
}
use logs_tracker.Prelude.Dict.{get, put, delete, get-put, get-delete}
use logs_tracker.Errors.{GoError, Result, ok, err, object_exists, wrapped}
use logs_tracker.Merkle.{Bytes}
use logs_tracker.Archive.{File, Files, Disk, abandon, finish, fill, start, write_immutable}

-- `os.CreateTemp` gives a name that no file has.
abbrev pub GivesFreshName : Disk → Files → Type 0
GivesFreshName d fs = (temp : String) → d.create_temp ≡ ok temp → get temp fs ≡ none

-- The path is not that of the temporary file, or `os.Remove` does not fail.
abbrev pub IsCleared : Disk → String → Type 0
IsCleared d q = d.create_temp ≡ ok q → d.remove ≡ none

-- The state and the error of a write of `content` at `path`.
abbrev pub Outcome : Disk → String → Bytes → Files → Files × Option GoError → Type 0
Outcome d path content fs (after, e) =
    ((e ≡ none)
      × (get path after ≡ some (record { content = content; read_only = true }))
      × ((q : String) → str_eq path q ≡ false → get q after ≡ get q fs))
    ⊎ ((x : GoError) × (e ≡ some x) × ((q : String) → IsCleared d q → get q after ≡ get q fs))
    ⊎ ((x : GoError) × (d.chmod ≡ some x)
        × (e ≡ some (wrapped "failed to set read-only permissions" x))
        × (get path after ≡ some (record { content = content; read_only = false }))
        × ((q : String) → str_eq path q ≡ false → get q after ≡ get q fs))

get-cleaned :
    (q temp : String) (f : File) (fs : Files)
    → get temp fs ≡ none
    → get q (delete temp (put temp f fs)) ≡ get q fs
get-cleaned q temp f fs fresh =
    ground (arith, get-delete q temp (put temp f fs), get-put q temp f fs, eq_iff temp q)

get-put_same : (path : String) (f : File) (fs : Files) → get path (put path f fs) ≡ some f
get-put_same path f fs = ground (arith, get-put path path f fs, eq_iff path path)

get-put_other :
    (path q : String) (f : File) (fs : Files)
    → str_eq path q ≡ false
    → get q (put path f fs) ≡ get q fs
get-put_other path q f fs n = ground (arith, get-put q path f fs)

module _ (d : Disk) (path : String) (content : Bytes) (fs : Files) where
  finish_cases :
      (gs : Files)
      → ((q : String) → get q gs ≡ get q fs)
      → Outcome d path content fs (finish d path content gs)
  unfolding finish
  finish_cases gs same = elim (Option-cases d.chmod) [
    | inl e ↦ rw e (inl (refl, get-put_same path _ gs, λ q n. get-put_other path q _ gs n ∙ same q))
    | inr (x, e) ↦ rw e (
        inr (
          inr (x, refl, refl, get-put_same path _ gs, λ q n. get-put_other path q _ gs n ∙ same q)))
  ]

  get-abandoned :
      (q temp text : String) (f : File) (e : GoError)
      → d.create_temp ≡ ok temp
      → get temp fs ≡ none
      → IsCleared d q
      → get q (abandon d text temp e (put temp f fs)).0 ≡ get q fs
  unfolding abandon
  get-abandoned q temp text f e named fresh cleared = elim (Option-cases d.remove) [
    | inl r ↦ rw (abandon, r) (get-cleaned q temp f fs fresh)
    | inr (x, r) ↦ elim (Bool-cases (str_eq temp q)) [
      | inl t ↦
          let same : temp ≡ q = (eq_iff temp q).0 t in
          let gone : d.remove ≡ none = cleared (named ∙ ap ok same) in cc
      | inr n ↦ rw (abandon, r) (get-put_other temp q f fs n)
    ]
  ]

  fill_cases :
      (temp : String)
      → d.create_temp ≡ ok temp
      → get temp fs ≡ none
      → Outcome d path content fs (fill d path content temp fs)
  unfolding fill abandon
  fill_cases temp named fresh =
      let whole : File = record { content = content; read_only = false } in
      let clears =
        λ (q : String) (f : File) (e : GoError). get-abandoned q temp "" f e named fresh in
      elim (Option-cases d.write) [
        | inr ((part, x), e) ↦ rw e (inr (inl (_, refl, λ q. clears q _ x)))
        | inl e ↦ elim (Option-cases d.sync) [
          | inr (x, e') ↦ rw (e, e') (inr (inl (_, refl, λ q. clears q _ x)))
          | inl e' ↦ elim (Option-cases d.close) [
            | inr (x, c) ↦ rw (e, e', c) (inr (inl (_, refl, λ q. clears q _ x)))
            | inl c ↦ elim (Option-cases d.rename) [
              | inr (x, r) ↦ rw (e, e', c, r) (inr (inl (_, refl, λ q. clears q _ x)))
              | inl r ↦ rw (e, e', c, r) (finish_cases _ (λ q. get-cleaned q temp whole fs fresh))
            ]
          ]
        ]
      ]

  start_cases :
      (o : Result String)
      → d.create_temp ≡ o
      → GivesFreshName d fs
      → Outcome d path content fs (start d path content fs o)
  unfolding start
  start_cases (err e) named fresh = inr (inl (_, refl, λ q c. refl))
  start_cases (ok temp) named fresh = fill_cases temp named (fresh temp named)

  -- If `os.Stat` does not find the object, since it is not there or since the call fails, and the
  -- name that `os.CreateTemp` gives is new, then a write returns no error and the object has the
  -- content and is read-only, or it returns an error and every lookup is as before, save that of the
  -- temporary file if `os.Remove` fails too, or it returns the error of `os.Chmod` and the object has
  -- the content and is not read-only. What is stored under other paths is as before on the first
  -- and the last branch.
  pub write_immutable_lem :
      (d.stat ≡ none → get path fs ≡ none)
      → GivesFreshName d fs
      → Outcome d path content fs (write_immutable d path content fs)
  unfolding write_immutable
  write_immutable_lem unseen fresh =
      let started = start_cases d.create_temp refl fresh in
      elim (Option-cases d.stat) [
        | inr (x, e) ↦ rw (write_immutable, e) started
        | inl e ↦ rw (write_immutable, e, unseen e) started
      ]

  pub present-write_immutable :
      (f : File)
      → d.stat ≡ none
      → get path fs ≡ some f
      → write_immutable d path content fs ≡ (fs, some (wrapped path object_exists))
  unfolding write_immutable
  present-write_immutable f seen e = rw (write_immutable, seen, e)

  Outcome-keeps :
      (q : String) (f : File) (r : Files × Option GoError)
      → get path fs ≡ none
      → get q fs ≡ some f
      → GivesFreshName d fs
      → Outcome d path content fs r
      → get q r.0 ≡ some f
  Outcome-keeps q f r absent e fresh (inl (_, _, same)) =
      let other : str_eq path q ≡ false = ground (arith, eq_iff path q) in same q other ∙ e
  Outcome-keeps q f r absent e fresh (inr (inl (x, _, same))) =
      same q (λ named. (let gone = fresh q named in cc)) ∙ e
  Outcome-keeps q f r absent e fresh (inr (inr (x, _, _, _, same))) =
      let other : str_eq path q ≡ false = ground (arith, eq_iff path q) in same q other ∙ e

  -- If `os.Stat` fails for no other reason than that the file does not exist, and the name that
  -- `os.CreateTemp` gives is new, then a write, at any path and with any errors of the other system
  -- calls, leaves each object that is there as it is, its content and its permissions.
  pub write_immutable-keeps :
      (q : String) (f : File)
      → get q fs ≡ some f
      → d.stat ≡ none
      → GivesFreshName d fs
      → get q (write_immutable d path content fs).0 ≡ some f
  write_immutable-keeps q f e seen fresh = elim (Option-cases (get path fs)) [
    | inr (g, there) ↦ ap (λ r. get q r.0) (present-write_immutable g seen there) ∙ e
    | inl absent ↦ Outcome-keeps q f _ absent e fresh (write_immutable_lem (λ k. absent) fresh)
  ]
