-- ===== src/MainRedGate/Watch.antt =====
-- The watch mode of main-red-gate/main_red_gate.py: `red_minutes`, `watch_alert` and `watch`. Times
-- are seconds. `none` is an exception that ends the script.
use github.Base.{ℕ, ◌+◌, ◌≤◌, String, ◌≡◌, refl, inl, inr, Option, none, some}
use github.Base.{List, [], ◌∷◌, ltb, leb, arith, Bool-cases, if◌then◌else◌}
use github.Base.Text.{is_blank, replace}
use github.RedMain.Window.{Moment}
use github.MainRedGate.Trunk.{PushRun, Trunk, red, green, unknown, trunk_state}
use github.MainRedGate.WayBack.{Pull, open_way_back}

-- What a request gives: its answer, the status of an HTTPError, or any other exception.
pub data Reply (A : Type 0) : Type 0 where
  answered : A → Reply A
  refused : ℕ → Reply A
  broken : Reply A

-- The message: a comment on an issue, a new issue, or the status that kept the issue away.
pub data Alert : Type 0 where
  commented : ℕ → Alert
  opened : Option ℕ → Alert
  kept_away : ℕ → Alert

abbrev pub then_ask : {A : Type 0} → Reply A → (A → Option Alert) → Option Alert
then_ask (answered a) f = f a
then_ask (refused status) f = some (kept_away status)
then_ask broken f = none

-- The requests of an alert: the two labels, the open issues by number, a comment, and a new issue.
pub record Requests : Type 0 where
  pub watch_label : Reply (Unit {0})
  pub owner_label : Reply (Unit {0})
  pub open_issues : Reply (List ℕ)
  pub comment : ℕ → Reply (Unit {0})
  pub create : Reply (Option ℕ)

abbrev create_issue : Requests → Option Alert
create_issue requests = then_ask requests.create (λ number. some (opened number))

abbrev with_issues : Requests → List ℕ → Option Alert
with_issues requests [] = create_issue requests
with_issues requests (number ∷ issues) =
    if leb 1 number
    then then_ask (requests.comment number) (λ done. some (commented number))
    else create_issue requests

unfoldable pub watch_alert : Requests → Option Alert
watch_alert requests = then_ask requests.watch_label (λ done.
    then_ask requests.owner_label
      (λ labelled. then_ask requests.open_issues (with_issues requests)))

-- What the watch says: the trunk is not red, the age of its run cannot be read, it is red for less
-- than the limit, its way back is in motion, or the alert.
pub data Watched : Type 0 where
  not_red unreadable_age young : Watched
  in_motion : String → Watched
  alerted : Alert → Watched

-- `datetime.fromisoformat` and the creation of a run are parameters. `red_minutes` is the instant
-- since which the run is red.
module _ (fromisoformat : String → Option Moment) (created_at : PushRun → Option String) where
  abbrev instant_of : Option Moment → Option (Option ℕ)
  instant_of none = none
  instant_of (some moment) = some (if moment.has_zone then some moment.instant else none)

  abbrev red_at : Option String → Option (Option ℕ)
  red_at none = some none
  red_at (some stamp) =
      if is_blank stamp then some none else instant_of (fromisoformat (replace b'Z' "+00:00" stamp))

  unfoldable pub red_since : PushRun → Option (Option ℕ)
  red_since run = red_at (created_at run)

  abbrev told : Option Alert → Option Watched
  told none = none
  told (some alert) = some (alerted alert)

  -- The way back of the open pull requests, or none where they cannot be read.
  abbrev pub motion_of : Option (List Pull) → String → Option String
  motion_of none fix_label = none
  motion_of (some pulls) fix_label = open_way_back pulls fix_label

  abbrev pub with_motion : Requests → Option String → Option Watched
  with_motion requests (some motion) = some (in_motion motion)
  with_motion requests none = told (watch_alert requests)

  abbrev pub with_age : ℕ → ℕ → Requests → Option String → Option ℕ → Option Watched
  with_age limit now requests motion none = some unreadable_age
  with_age limit now requests motion (some at) =
      if ltb now (at + limit) then some young else with_motion requests motion

  abbrev pub with_since : ℕ → ℕ → Requests → Option String → Option (Option ℕ) → Option Watched
  with_since limit now requests motion none = none
  with_since limit now requests motion (some since) = with_age limit now requests motion since

  abbrev pub in_state : ℕ → ℕ → Requests → Option String → Trunk → Option Watched
  in_state limit now requests motion (red i run) =
      with_since limit now requests motion (red_since run)
  in_state limit now requests motion _ = some not_red

  unfoldable pub watch :
      ℕ → List PushRun → String → ℕ → Option (List Pull) → String → Requests → Option Watched
  unfolding red_since watch_alert
  watch limit runs branch now pulls fix_label requests =
      in_state limit now requests (motion_of pulls fix_label) (trunk_state runs branch)

  -- An alert is only for a trunk whose deciding run is red and was created the limit ago or earlier,
  -- while none of the open pull requests that were read is the way back.
  pub watch-alerted :
      (limit : ℕ) (runs : List PushRun) (branch : String) (now : ℕ) (pulls : Option (List Pull))
      (fix_label : String) (requests : Requests) (alert : Alert)
      → watch limit runs branch now pulls fix_label requests ≡ some (alerted alert)
      → (i : ℕ) × (run : PushRun) × (trunk_state runs branch ≡ red i run)
        × (at : ℕ) × (red_since run ≡ some (some at))
        × (at + limit ≤ now)
        × (motion_of pulls fix_label ≡ none)
  unfolding watch
  watch-alerted limit runs branch now pulls fix_label requests alert e =
      by_state (trunk_state runs branch) refl e
    where
      by_motion : (o : Option String) → with_motion requests o ≡ some (alerted alert) → o ≡ none
      by_motion none f = refl
      by_motion (some motion) f = cc

      by_since :
          (o : Option (Option ℕ))
          → with_since limit now requests (motion_of pulls fix_label) o ≡ some (alerted alert)
          → (at : ℕ) × (o ≡ some (some at))
            × (at + limit ≤ now)
            × (motion_of pulls fix_label ≡ none)
      by_since none f = cc
      by_since (some none) f = cc
      by_since (some (some at)) f = elim (Bool-cases (ltb now (at + limit))) [
        | inl early ↦ absurd (nothing (rw early at f))
        | inr late ↦ (at, refl, ground arith, by_motion (motion_of pulls fix_label) (rw late at f))
      ]
        where
          nothing : ◌≡◌ {A = Option Watched} (some young) (some (alerted alert)) → ⊥
          nothing g = cc

      by_state :
          (state : Trunk)
          → trunk_state runs branch ≡ state
          → in_state limit now requests (motion_of pulls fix_label) state ≡ some (alerted alert)
          → (i : ℕ) × (run : PushRun) × (trunk_state runs branch ≡ red i run)
            × (at : ℕ) × (red_since run ≡ some (some at))
            × (at + limit ≤ now)
            × (motion_of pulls fix_label ≡ none)
      by_state (red i run) same f =
          let (at, g, h, k) = by_since (red_since run) f in (i, run, same, at, g, h, k)
      by_state (green i run) same f = cc
      by_state unknown same f = cc
