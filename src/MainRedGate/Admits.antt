-- ===== src/MainRedGate/Admits.antt =====
-- Which pull requests are a way back to green, and which the gate refuses.
use mathlib.Core.Option.{some-injective}
use mathlib.Core.Path.{subst}
use github.Base.{ℕ, String, ◌≡◌, ◌≢◌, ◌↔◌, ◌⊎◌, refl, sym, true, false, Option, none, some}
use github.Base.{List, [], ◌∷◌, arith, All, eq_iff, string_eq}
use github.MainRedGate.Trunk.{PushRun, Trunk, red, green, unknown}
use github.MainRedGate.WayBack.{Pull}
use github.MainRedGate.WayBack.{is_way_back, reason, report, open_way_back, decide_red, decide}
use github.MainRedGate.Reverts.{IsWayBack, AllFail-iff, AllFail-of_none, none-of_AllFail}

-- A pull request is no way back exactly where none of these holds: its branch begins with
-- auto-revert/; it has the label auto-revert, queue-jump:red-main or queue-jump:outage; its title
-- begins, behind white space, with revert in any case; or a fix label is set and it has that label.
pub is_way_back-none_iff :
    (pull : Pull) (fix_label : String)
    → (is_way_back pull fix_label ≡ none) ↔ (¬ IsWayBack pull fix_label)
is_way_back-none_iff pull fix_label =
    let (into, back) = AllFail-iff pull fix_label in
    (λ e. none-of_AllFail pull fix_label (into e), λ n. back (AllFail-of_none pull fix_label n))

reason-none_iff :
    (pull : Pull) (fix_label : String)
    → (reason pull fix_label ≡ none) ↔ ((pull.draft ≡ true) ⊎ (is_way_back pull fix_label ≡ none))
unfolding reason
reason-none_iff pull fix_label = (λ h. ground arith, λ h. ground arith)

report-none_iff :
    (number : ℕ) (why rest : Option String)
    → (report number why rest ≡ none) ↔ ((why ≡ none) × (rest ≡ none))
report-none_iff number none rest = (λ h. (refl, h), λ h. h.1)
report-none_iff number (some why) rest = (λ h. cc, λ h. cc (h.0))

-- No pull request is the way back exactly where each is a draft or an ordinary one.
pub open_way_back-none_iff :
    (pulls : List Pull) (fix_label : String)
    → (open_way_back pulls fix_label ≡ none)
      ↔ All (λ pull. (pull.draft ≡ true) ⊎ (is_way_back pull fix_label ≡ none)) pulls
unfolding open_way_back
open_way_back-none_iff [] fix_label = (λ h. tt, λ h. refl)
open_way_back-none_iff (pull ∷ pulls) fix_label =
    let (into, back) = open_way_back-none_iff pulls fix_label in
    let (told, untold) = reason-none_iff pull fix_label in
    let (empty, nothing) =
      report-none_iff pull.number (reason pull fix_label) (open_way_back pulls fix_label) in
    (λ h. (told (empty h).0, into (empty h).1), λ h. nothing (untold h.0, back h.1))

decide_red-refuses_iff :
    (why : Option String) (mode fix_label : String) (motion : Option String)
    → ((decide_red why mode fix_label motion).0 ≡ false)
      ↔ ((why ≡ none) × (motion ≢ none) × (mode ≡ "enforce"))
unfolding decide_red
decide_red-refuses_iff (some why) mode fix_label motion = (λ h. cc, λ h. cc (h.0))
decide_red-refuses_iff none mode fix_label none = (λ h. cc, λ h. absurd (h.1 refl))
decide_red-refuses_iff none mode fix_label (some m) = (
  λ h. (refl, λ k. cc, ground (arith, eq_iff mode "enforce")),
  λ h. ground (arith, (eq_iff mode "enforce").1 (h.2)),
)

-- The gate refuses exactly where the trunk is red, the pull request could be read and is no way
-- back, something is on its way to green, and the mode is enforce.
pub decide-refuses_iff :
    (trunk : Trunk) (pull : Option Pull) (mode fix_label : String) (motion : Option String)
    → ((decide trunk pull mode fix_label motion).0 ≡ false) ↔ (
        (place : ℕ) × (run : PushRun) × (p : Pull) × (trunk ≡ red place run)
        × (pull ≡ some p)
        × (is_way_back p fix_label ≡ none)
        × (motion ≢ none)
        × (mode ≡ "enforce"))
unfolding decide
decide-refuses_iff unknown pull mode fix_label motion = (λ h. cc, λ h. cc (h.3))
decide-refuses_iff (green i r) pull mode fix_label motion = (λ h. cc, λ h. cc (h.3))
decide-refuses_iff (red i r) none mode fix_label motion = (λ h. cc, λ h. cc (h.4))
decide-refuses_iff (red i r) (some pull) mode fix_label motion =
    let (into, back) = decide_red-refuses_iff (is_way_back pull fix_label) mode fix_label motion in
    (
      λ h. let (e, m, f) = into h in (i, r, pull, refl, refl, e, m, f),
      λ (place, run, p, e, f, none_p, moves, enforce).
          let same = some-injective pull p f in
          back (subst (λ q. is_way_back q fix_label ≡ none) (sym same) none_p, moves, enforce),
    )
