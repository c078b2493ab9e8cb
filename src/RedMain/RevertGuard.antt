-- ===== src/RedMain/RevertGuard.antt =====
-- .github/red_main/revert_guard.py: the pull requests that are never reverted. `none` is an exception.
use github.Base.{String, ◌<>◌, Bool, not, ◌||◌, Option, none, some}
use github.Base.{List, [], ◌∷◌, map, select, contains, ◌==◌, string_eq, if◌then◌else◌}
use github.Base.Text.{split, strip, is_blank, lstrip_of, ends_longer}
use github.Base.{eqb}
use github.Json.{Value, Fields, find, get, list_of}
use github.RedMain.Proof.Pages.{and_then}

-- What is printed: the number is on the list, a label protects it, or nothing does.
pub data Answer : Type 0 where
  on_list : String → Answer
  labelled : String → String → Answer
  ok : Answer

-- `str` of a JSON value and the lower case of a text are parameters.
module _ (python_str : Value → String) (lower : String → String) where
  abbrev items_in : String → List String
  items_in names = select (λ x. not (is_blank x)) (map strip (split b',' names))

  unfoldable pub protected_labels : String → List String
  protected_labels names = map lower (items_in names)

  unfoldable pub protected_numbers : String → List String
  protected_numbers names = map (lstrip_of (λ c. eqb c b'#')) (items_in names)

  abbrev str_or_empty : Option Value → String
  str_or_empty none = ""
  str_or_empty (some v) = python_str v

  abbrev protects : List String → Value → Bool
  protects labels label =
      let low = lower (python_str label) in
      contains labels low || low == ":p0" || ends_longer low ":p0"

  unfoldable pub find_label : List String → String → List Value → Answer
  find_label labels number [] = ok
  find_label labels number (label ∷ rest) =
      let other = find_label labels number rest in
      if protects labels label then labelled number (python_str label) else other

  abbrev labels_of : Option Value → Option (List Value)
  labels_of none = some []
  labels_of (some v) = list_of v

  unfoldable pub guard : Fields → String → String → Option Answer
  unfolding protected_labels protected_numbers find_label
  guard pr labels numbers =
      let number = str_or_empty (find pr "number") in
      if contains (protected_numbers numbers) number
      then some (on_list number)
      else and_then (labels_of (find pr "labels")) (λ found.
        some (find_label (protected_labels labels) (python_str (get pr "number")) found))

abbrev pub print_guard : Answer → String
print_guard (on_list number) = "protected: #" <> (number <> " is on the never-revert list")
print_guard (labelled number label) = "protected: #" <> (number <> (" carries the label " <> label))
print_guard ok = "ok"
