-- ===== src/RedMain/FilterTests.antt =====
-- Runs of culprit.py and hold.py, and their theorems at concrete data.
use github.Base.{library, ◌≡◌, refl, true, some, List, [], ◌∷◌}
use github.RedMain.Culprit.{Candidate, blame, culprit, Blames, blame-Blames}
use github.RedMain.Culprit as Culprit
use github.RedMain.Hold as Hold
use github.RedMain.Hold.{is_inside}
use github.Base.{◌↔◌, ◌<◌, arith}
use github.Base.Text.{codes}
use github.RedMain.Hold.Clock.{IsClock, forward, is_inside-forward}

abbrev rows : List Candidate
rows = ("a1", "success") ∷ ("b2", "failure") ∷ ("c3", "cancelled") ∷ []

blame_test : blame rows ≡ culprit "b2"
unfolding blame
blame_test = refl

print_test :
    Culprit.main ("a1\tsuccess" ∷ "0123456789ab\t" ∷ [])
    ≡ "window"
      ∷ "why 012345678 concluded nothing, which is inconclusive, at or before the first failure"
      ∷ []
unfolding Culprit.main library
print_test = refl

night_test : Hold.main "22:00-06:00" "23:30" ≡ some "in"
unfolding Hold.main library
night_test = refl

blame-Blames_example : Blames rows (blame rows)
blame-Blames_example = blame-Blames rows

start-IsClock : IsClock "22:00" 1320
unfolding codes
start-IsClock = (2, 2, 0, 0, refl, omega arith, omega arith, omega arith, refl, omega arith)

end-IsClock : IsClock "06:00" 360
unfolding codes
end-IsClock = (0, 6, 0, 0, refl, omega arith, omega arith, omega arith, refl, omega arith)

now-IsClock : IsClock "23:30" 1410
unfolding codes
now-IsClock = (2, 3, 3, 0, refl, omega arith, omega arith, omega arith, refl, omega arith)

is_inside-forward_example :
    (is_inside "22:00" "06:00" "23:30" ≡ true) ↔ (forward 1320 1410 < forward 1320 360)
is_inside-forward_example =
    is_inside-forward "22:00" "06:00" "23:30" 1320 360 1410 start-IsClock end-IsClock now-IsClock
