-- ===== src/MainRedGate/WayBack.antt =====
-- `is_way_back`, `open_way_back` and `decide` of main-red-gate/main_red_gate.py.
use github.Base.{ℕ, String, ◌<>◌, Bool, true, false, not, ◌&&◌, ◌||◌, Option, none, some}
use github.Base.{List, [], ◌∷◌, map, any, contains, ◌==◌, string_eq, if◌then◌else◌}
use github.Base.Text.{strip, starts_with, is_blank, lower_starts_with}
use github.Base.Decimal.{decimal}
use github.MainRedGate.Trunk.{Trunk, red, green, unknown}

-- A pull request. `none` is a key that is missing or null; `head_ref` is `head.ref`.
pub record Pull : Type 0 where
  pub number : ℕ
  pub labels : List (Option String)
  pub head_ref : Option String
  pub title : Option String
  pub draft : Bool

abbrev pub revert_labels : List String
revert_labels = "auto-revert" ∷ "queue-jump:red-main" ∷ []

abbrev pub outage_label : String
outage_label = "queue-jump:outage"

-- `value or ""`
abbrev pub text_or_empty : Option String → String
text_or_empty none = ""
text_or_empty (some s) = s

abbrev pub label_names : Pull → List String
label_names pull = map text_or_empty pull.labels

abbrev pub head_of : Pull → String
head_of pull = text_or_empty pull.head_ref

abbrev pub title_of : Pull → String
title_of pull = text_or_empty pull.title

-- The reverts that the red-main handler opens.
abbrev pub is_handler_revert : Pull → Bool
is_handler_revert pull =
    starts_with (head_of pull) "auto-revert/" || any (contains (label_names pull)) revert_labels

abbrev pub is_revert_title : Pull → Bool
is_revert_title pull = lower_starts_with (strip (title_of pull)) "revert"

unfoldable pub is_way_back : Pull → String → Option String
is_way_back pull fix_label =
    if is_handler_revert pull
    then some "revert from the red-main handler"
    else if is_revert_title pull
    then some "revert"
    else if contains (label_names pull) outage_label
    then some "live-outage fix"
    else if not (is_blank fix_label) && contains (label_names pull) fix_label
    then some ("labelled " <> fix_label)
    else none

-- Why a pull request that can be queued is a way back.
unfoldable pub reason : Pull → String → Option String
reason pull fix_label = if pull.draft then none else is_way_back pull fix_label

abbrev pub report : ℕ → Option String → Option String → Option String
report number (some why) rest =
    some ("pull request #" <> (decimal number <> (" (" <> (why <> ") is open"))))
report number none rest = rest

unfoldable pub open_way_back : List Pull → String → Option String
unfolding reason
open_way_back [] fix_label = none
open_way_back (pull ∷ pulls) fix_label =
    let rest = open_way_back pulls fix_label in report pull.number (reason pull fix_label) rest

abbrev state_name : Trunk → String
state_name (red i run) = "red"
state_name (green i run) = "green"
state_name unknown = "unknown"

abbrev nothing_moves : String → String
nothing_moves fix_label =
    "::warning::trunk is red but nothing is on its way to green (no newer Verify run is running and no revert or `"
    <> (fix_label
        <> "` pull request is open): admitted, so that the next completed run can confirm the failure and let the red-main handler act")

abbrev refusal : String → String → String
refusal motion fix_label =
    "trunk is red and "
    <> (motion
        <> (": only a revert or a pull request labelled `"
            <> (fix_label
                <> "` is admitted until Verify is green again; this pull request is neither. Re-enqueue it once the trunk is green.")))

-- The decision while the trunk is red, by why the pull request is a way back and by what is in
-- motion.
unfoldable pub decide_red : Option String → String → String → Option String → Bool × String
decide_red (some why) mode fix_label motion =
    (true, "trunk is red; this pull request is a way back to green (" <> (why <> "): admitted"))
decide_red none mode fix_label none = (true, nothing_moves fix_label)
decide_red none mode fix_label (some m) =
    if mode == "enforce"
    then (false, "::error::" <> refusal m fix_label)
    else (true, "::warning::observe mode, would have refused: " <> refusal m fix_label)

unfoldable pub decide : Trunk → Option Pull → String → String → Option String → Bool × String
unfolding decide_red
decide (red i run) none mode fix_label motion =
    (true, "::warning::trunk is red but the pull request could not be read: admitted")
decide (red i run) (some pull) mode fix_label motion =
    decide_red (is_way_back pull fix_label) mode fix_label motion
decide state _ mode fix_label motion = (true, "trunk is " <> (state_name state <> ": admitted"))
