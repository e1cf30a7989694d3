-- ===== src/Prelude/Text.antt =====
-- The functions of Go's `strings` that the code uses, and strings in order.
use Prim.Native.String
use Prim.Native.String.{String}
use Prim.Native.Nat.{Ordering}
use mathlib.Core.Path.{◌≡◌}
use mathlib.Core.Logic.{◌≢◌}
use text.Mathlib.TextEquality.{eq_iff}
use mathlib.Core.Bool.{Bool, true, false, ◌&&◌}
use mathlib.Core.Option.{none, some}
use mathlib.Core.List.{List, [], ◌∷◌}
use text.Mathlib.Text.{find?, ◌==◌ as str_eq}
use logs_tracker.Prelude.Tests.{if◌then◌else◌}

-- `strings.Contains`
unfoldable pub contains : String → String → Bool
contains s part = elim (find? s part) [ none ↦ false | some i ↦ true ]

-- `strings.HasSuffix`
unfoldable pub ends_with : String → String → Bool
ends_with String.[] suffix = str_eq String.[] suffix
ends_with (String.◌∷◌ c s) suffix =
    let later = ends_with s suffix in if str_eq (String.◌∷◌ c s) suffix then true else later

-- `a <= b`, by code points, which is the order of the bytes in UTF-8.
unfoldable pub str_leb : String → String → Bool
str_leb a b = elim (String.compare a b) [ Ordering.gt ↦ false | _ ↦ true ]

unfoldable pub insert_string : String → List String → List String
insert_string s [] = s ∷ []
insert_string s (t ∷ ts) =
    let later = insert_string s ts in if str_leb s t then s ∷ t ∷ ts else t ∷ later

-- `sort.Strings`
unfoldable pub sort_strings : List String → List String
sort_strings [] = []
sort_strings (s ∷ ss) = insert_string s (sort_strings ss)

-- `strings.HasPrefix`
unfoldable pub starts_with : String → String → Bool
starts_with s String.[] = true
starts_with String.[] (String.◌∷◌ d prefix) = false
starts_with (String.◌∷◌ c s) (String.◌∷◌ d prefix) =
    let later = starts_with s prefix in
    if str_eq (String.◌∷◌ c String.[]) (String.◌∷◌ d String.[]) then later else false

-- The parts of a text between its slashes, as `strings.Split(s, "/")` has them.
unfoldable pub split_slashes : String → List String
split_slashes String.[] = "" ∷ []
split_slashes (String.◌∷◌ c s) =
    let later = split_slashes s in
    if str_eq (String.◌∷◌ c String.[]) "/"
    then "" ∷ later
    else elim later [ [] ↦ String.◌∷◌ c String.[] ∷ [] | part ∷ parts ↦ String.◌∷◌ c part ∷ parts ]

unfoldable pub trim_slashes_left : String → String
trim_slashes_left String.[] = String.[]
trim_slashes_left (String.◌∷◌ c s) =
    let later = trim_slashes_left s in
    if str_eq (String.◌∷◌ c String.[]) "/" then later else String.◌∷◌ c s

unfoldable pub trim_slashes_right : String → String
trim_slashes_right String.[] = String.[]
trim_slashes_right (String.◌∷◌ c s) =
    let later = trim_slashes_right s in
    if str_eq later "" && str_eq (String.◌∷◌ c String.[]) "/" then String.[] else String.◌∷◌ c later

-- `strings.Trim(s, "/")`
unfoldable pub trim_slashes : String → String
trim_slashes s = trim_slashes_right (trim_slashes_left s)

pub differs : (p q : String) → str_eq p q ≡ false → p ≢ q
differs p q f e = let t = (eq_iff p q).1 e in cc
