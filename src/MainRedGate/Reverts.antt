-- ===== src/MainRedGate/Reverts.antt =====
-- What makes a pull request a way back to green: the tests of `is_way_back`.
use mathlib.Core.Option.{some-injective}
use mathlib.Core.Path.{subst}
use github.Base.{String, ◌≡◌, ◌↔◌, ◌⊎◌, refl, sym, true, false, Option, none, some}
use github.Base.{arith, contains, string_eq}
use github.Base.Text.{is_blank, starts_with, lower_starts_with, strip, lstrip, rstrip}
use github.MainRedGate.Prefixes.{
  Begins, BeginsStripped, IsSmall, starts_with_iff, BeginsStripped-iff,
}
use mathlib.Core.List.{Memᴰ}
use github.Base.{
  Memᴰ-of_map, Memᴰ-map, Memᴰ-contains, contains-Memᴰ, Bool, Bool-cases, ap, inl, inr,
}
use github.MainRedGate.WayBack.{Pull, label_names, head_of, is_revert_title, text_or_empty}
use github.MainRedGate.WayBack.{is_way_back}

-- A pull request has a label.
abbrev pub Labelled : Pull → String → Type 0
Labelled pull label = Memᴰ (some label) pull.labels

-- Its branch is one of the handler's.
abbrev pub OnHandlerBranch : Pull → Type 0
OnHandlerBranch pull = (head : String) × (pull.head_ref ≡ some head) × Begins head "auto-revert/"

-- Its title begins with the word revert in any case, behind white space.
abbrev pub TitledRevert : Pull → Type 0
TitledRevert pull = (title : String) × (pull.title ≡ some title) × BeginsStripped title "revert"

-- A revert or a fix.
abbrev pub IsWayBack : Pull → String → Type 0
IsWayBack pull fix_label =
    OnHandlerBranch pull
    ⊎ (Labelled pull "auto-revert"
        ⊎ (Labelled pull "queue-jump:red-main"
            ⊎ (TitledRevert pull
                ⊎ (Labelled pull "queue-jump:outage"
                    ⊎ ((is_blank fix_label ≡ false) × Labelled pull fix_label)))))

Labelled-iff :
    (pull : Pull) (label : String)
    → is_blank label ≡ false
    → (contains (label_names pull) label ≡ true) ↔ Labelled pull label
Labelled-iff pull label set = (
  λ e.
      let (o, m, f) = Memᴰ-of_map text_or_empty pull.labels (contains-Memᴰ (label_names pull) e) in
      by_label o m f,
  λ m. Memᴰ-contains (Memᴰ-map text_or_empty m),
)
  where
    by_label :
        (o : Option String) → Memᴰ o pull.labels → label ≡ text_or_empty o → Labelled pull label
    by_label none m f = let empty : is_blank label ≡ true = ap is_blank f in absurd (ground arith)
    by_label (some s) m f = subst (λ t. Memᴰ (some t) pull.labels) (sym f) m

OnHandlerBranch-iff :
    (pull : Pull) → (starts_with (head_of pull) "auto-revert/" ≡ true) ↔ OnHandlerBranch pull
unfolding starts_with
OnHandlerBranch-iff pull = by_head pull.head_ref refl
  where
    by_head :
        (o : Option String)
        → pull.head_ref ≡ o
        → (starts_with (text_or_empty o) "auto-revert/" ≡ true)
          ↔ ((head : String) × (o ≡ some head) × Begins head "auto-revert/")
    by_head none e = (λ f. cc, λ h. cc (h.1))
    by_head (some head) e =
        let (into, back) = starts_with_iff head "auto-revert/" in
        (
          λ f. (head, refl, into f),
          λ (s, f, h). back (subst (λ t. Begins t "auto-revert/") (sym (some-injective _ _ f)) h),
        )

revert-IsSmall : IsSmall "revert"
revert-IsSmall = (
  omega arith,
  omega arith,
  (
    omega arith,
    omega arith,
    (
      omega arith,
      omega arith,
      (omega arith, omega arith, (omega arith, omega arith, (omega arith, omega arith, tt))),
    ),
  ),
)

TitledRevert-iff : (pull : Pull) → (is_revert_title pull ≡ true) ↔ TitledRevert pull
unfolding lower_starts_with strip lstrip rstrip
TitledRevert-iff pull = by_title pull.title
  where
    by_title :
        (o : Option String)
        → (lower_starts_with (strip (text_or_empty o)) "revert" ≡ true)
          ↔ ((title : String) × (o ≡ some title) × BeginsStripped title "revert")
    by_title none = (λ f. cc, λ h. cc (h.1))
    by_title (some title) =
        let (into, back) = BeginsStripped-iff title "revert" revert-IsSmall refl in
        (
          λ f. (title, refl, into f),
          λ (s, f, h). back (subst (λ t. BeginsStripped t "revert") (sym (some-injective _ _ f)) h),
        )

-- The tests of the function, all of which fail.
abbrev AllFail : Pull → String → Type 0
AllFail pull fix_label =
    (starts_with (head_of pull) "auto-revert/" ≡ false)
    × (contains (label_names pull) "auto-revert" ≡ false)
    × (contains (label_names pull) "queue-jump:red-main" ≡ false)
    × (is_revert_title pull ≡ false)
    × (contains (label_names pull) "queue-jump:outage" ≡ false)
    × ((is_blank fix_label ≡ true) ⊎ (contains (label_names pull) fix_label ≡ false))

pub AllFail-iff :
    (pull : Pull) (fix_label : String)
    → (is_way_back pull fix_label ≡ none) ↔ AllFail pull fix_label
unfolding is_way_back
AllFail-iff pull fix_label = (λ h. ground arith, λ h. ground arith)

-- A test that says what does not hold fails, and the other way round.
fails : {b : Bool} {P : Type 0} → (b ≡ true) ↔ P → ¬ P → b ≡ false
fails (into, back) n = from_cases into (Bool-cases _) n
  where
    from_cases :
        {c : Bool} {Q : Type 0} → (c ≡ true → Q) → (c ≡ true) ⊎ (c ≡ false) → ¬ Q → c ≡ false
    from_cases into (inl e) n = absurd (n (into e))
    from_cases into (inr e) n = e

contradicts : {b : Bool} {P : Type 0} → (b ≡ true) ↔ P → b ≡ false → ¬ P
contradicts (into, back) e p = let f = back p in absurd (ground arith)

pub AllFail-of_none :
    (pull : Pull) (fix_label : String) → ¬ IsWayBack pull fix_label → AllFail pull fix_label
AllFail-of_none pull fix_label n = (
  fails (OnHandlerBranch-iff pull) (λ p. n (inl p)),
  fails (Labelled-iff pull "auto-revert" refl) (λ p. n (inr (inl p))),
  fails (Labelled-iff pull "queue-jump:red-main" refl) (λ p. n (inr (inr (inl p)))),
  fails (TitledRevert-iff pull) (λ p. n (inr (inr (inr (inl p))))),
  fails (Labelled-iff pull "queue-jump:outage" refl) (λ p. n (inr (inr (inr (inr (inl p)))))),
  elim (Bool-cases (is_blank fix_label)) [
    | inl empty ↦ inl empty
    | inr set ↦
        inr
          (fails (Labelled-iff pull fix_label set) (λ p. n (inr (inr (inr (inr (inr (set, p))))))))
  ],
)

pub none-of_AllFail :
    (pull : Pull) (fix_label : String) → AllFail pull fix_label → ¬ IsWayBack pull fix_label
none-of_AllFail pull fix_label (a, b, c, d, e, f) h = elim h [
  | inl p ↦ contradicts (OnHandlerBranch-iff pull) a p
  | inr (inl p) ↦ contradicts (Labelled-iff pull "auto-revert" refl) b p
  | inr (inr (inl p)) ↦ contradicts (Labelled-iff pull "queue-jump:red-main" refl) c p
  | inr (inr (inr (inl p))) ↦ contradicts (TitledRevert-iff pull) d p
  | inr (inr (inr (inr (inl p)))) ↦ contradicts (Labelled-iff pull "queue-jump:outage" refl) e p
  | inr (inr (inr (inr (inr (set, p))))) ↦
      let back = (Labelled-iff pull fix_label set).1 p in absurd (ground arith)
]
