-- ===== src/RedMain/Hold.antt =====
-- .github/red_main/hold.py: whether a time of day is inside the window in which reverts are held.
pub mod Clock
use github.Base.{String, ◌≡◌, ◌≢◌, inl, inr, Bool, true, false, not, ◌&&◌, ◌||◌, Option, none, some}
use github.Base.{List, [], ◌∷◌, arith, Bool-cases, string_eq, if◌then◌else◌}
use github.Base.Sorting.{str_leb}
use github.Base.Text.{split, is_blank}
use github.Base.TextOrder.{str_leb_total, str_leb_antisymm}

-- Text order; `now < end` is that not `end <= now`.
unfoldable pub is_inside : String → String → String → Bool
is_inside start end now =
    if str_leb start end
    then str_leb start now && not (str_leb end now)
    else str_leb start now || not (str_leb end now)

abbrev pub in_or_out : Bool → String
in_or_out true = "in"
in_or_out false = "out"

-- The window is two times with a dash between; `none` is the exception for any other text.
abbrev pub in_parts : List String → String → Option String
in_parts (start ∷ end ∷ []) now = some (in_or_out (is_inside start end now))
in_parts _ now = none

unfoldable pub main : String → String → Option String
unfolding is_inside
main window now = if is_blank window then some "out" else in_parts (split b'-' window) now
