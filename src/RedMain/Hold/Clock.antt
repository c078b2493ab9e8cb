-- ===== src/RedMain/Hold/Clock.antt =====
-- What the window of hold.py is on a clock.
use Prim.Native.String.compare as order
use github.Base.{
  ℕ, ◌+◌, ◌-◌, ◌*◌, ◌≤◌, ◌<◌, String, ◌≡◌, ◌↔◌, refl, sym, ◌∙◌, Bool, true, false, ◌&&◌, ◌||◌, List,
  [], ◌∷◌, arith, leb, ltb, eqb, if◌then◌else◌,
}
use github.Base.Sorting.{str_leb}
use github.Base.Text.{codes}
use github.RedMain.Hold.{is_inside}

-- The order of texts, by their codes.
abbrev codes_leb : List ℕ → List ℕ → Bool
codes_leb [] l = true
codes_leb (c ∷ k) [] = false
codes_leb (c ∷ k) (d ∷ l) = ltb c d || (eqb c d && codes_leb k l)

str_leb-codes : (s t : String) → str_leb s t ≡ codes_leb (codes s) (codes t)
unfolding codes
str_leb-codes String.[] String.[] = refl
str_leb-codes String.[] (String.◌∷◌ d t) = ground (arith, order.nil-cons d t)
str_leb-codes (String.◌∷◌ c s) String.[] = ground (arith, order.cons-nil c s)
str_leb-codes (String.◌∷◌ c s) (String.◌∷◌ d t) =
    ground (arith, order.cons-cons c d s t, str_leb-codes s t)

-- The text HH:MM of a minute of the day, by its digits.
abbrev pub IsClock : String → ℕ → Type 0
IsClock s minute =
    (a : ℕ) × (b : ℕ) × (c : ℕ) × (d : ℕ) × (codes s
      ≡ (48 + a) ∷ (48 + b) ∷ b':' ∷ (48 + c) ∷ (48 + d) ∷ [])
    × (b ≤ 9)
    × (c ≤ 5)
    × (d ≤ 9)
    × (minute ≡ 60 * (10 * a + b) + (10 * c + d))
    × (minute < 1440)

digits_leb :
    (a b c d e f g h : ℕ)
    → b ≤ 9
    → c ≤ 5
    → d ≤ 9
    → f ≤ 9
    → g ≤ 5
    → h ≤ 9
    → codes_leb
        ((48 + a) ∷ (48 + b) ∷ b':' ∷ (48 + c) ∷ (48 + d) ∷ [])
        ((48 + e) ∷ (48 + f) ∷ b':' ∷ (48 + g) ∷ (48 + h) ∷ [])
      ≡ leb (60 * (10 * a + b) + (10 * c + d)) (60 * (10 * e + f) + (10 * g + h))
digits_leb a b c d e f g h p q r u v w = ground arith

clock_leb : (s t : String) (m n : ℕ) → IsClock s m → IsClock t n → str_leb s t ≡ leb m n
clock_leb s t m n (a, b, c, d, k, p, q, r, i, x) (e, f, g, h, l, u, v, w, j, y) =
    str_leb-codes s t
    ∙ (λ z. codes_leb (k z) (l z))
    ∙ digits_leb a b c d e f g h p q r u v w
    ∙ (λ z. leb (sym i z) (sym j z))

-- The minutes from a time of day to the next time that another is reached.
abbrev pub forward : ℕ → ℕ → ℕ
forward from to = if leb from to then to - from else (to + 1440) - from

-- For times of day written HH:MM, now is inside the window exactly where going forward from its
-- start, past midnight where need be, now comes before its end. A window from a time to the same time
-- holds nothing.
pub is_inside-forward :
    (start end now : String) (a b n : ℕ)
    → IsClock start a
    → IsClock end b
    → IsClock now n
    → (is_inside start end now ≡ true) ↔ (forward a n < forward a b)
unfolding is_inside
is_inside-forward start end now a b n h k l =
    let window = clock_leb start end a b h k in
    let begun = clock_leb start now a n h l in
    let over = clock_leb end now b n k l in
    let (_, _, _, _, _, _, _, _, _, p) = h in
    let (_, _, _, _, _, _, _, _, _, q) = k in
    let (_, _, _, _, _, _, _, _, _, r) = l in (λ e. ground arith, λ e. ground arith)
