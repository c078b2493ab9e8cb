-- ===== src/RedMain/Junit/Gather.antt =====
-- What junit.py has written after its loops.
use mathlib.Core.List.{Memᴰ}
use mathlib.Core.List.Memᴰ
use mathlib.Core.Path.{subst}
use github.Base.{◌≡◌, ◌↔◌, ◌⊎◌, refl, ap, sym, inl, inr, Bool, true, not, ◌&&◌}
use github.Base.{List, [], ◌∷◌, map, select, contains, contains-Memᴰ, Bool-cases, arith}
use github.Base.Text.{is_blank}
use github.RedMain.Units.{Pair, pair_eq}
use github.RedMain.Junit.{
  Tested, pair_of, full_name, has_failed, Written, test_row, write_test, add_test, add_tests,
}

abbrev fails : Tested → Bool
fails t = not (is_blank (full_name t.0)) && has_failed t.0

-- The failing tests of a list of testcases.
abbrev pub failing_pairs : List Tested → List Pair
failing_pairs ts = map pair_of (select fails ts)

test_row-injective : (p q : Pair) → test_row p ≡ test_row q → p ≡ q
test_row-injective (a, b) (c, d) e =
    let names : a ≡ c = ap (λ r. r.name) e in let jobs : b ≡ d = ap (λ r. r.job) e in cc

-- Every test that was seen has its row, and every row of a test was seen.
abbrev pub IsFaithful : Written → Type 0
IsFaithful w = (p : Pair) → Memᴰ (test_row p) w.rows ↔ Memᴰ p w.seen

write_test-IsFaithful : (q : Pair) (w : Written) → IsFaithful w → IsFaithful (write_test q w)
write_test-IsFaithful q w h p = (
  λ m. elim (Memᴰ.append_cases w.rows m) [
    | inl n ↦ Memᴰ.append_left (q ∷ []) ((h p).0 n)
    | inr n ↦
        Memᴰ.append_right w.seen
          (elim n [ Memᴰ.head e ↦ Memᴰ.head (test_row-injective p q e) | Memᴰ.tail k ↦ elim k [ ] ])
  ],
  λ m. elim (Memᴰ.append_cases w.seen m) [
    | inl n ↦ Memᴰ.append_left (test_row q ∷ []) ((h p).1 n)
    | inr n ↦
        Memᴰ.append_right w.rows
          (elim n [ Memᴰ.head e ↦ Memᴰ.head (ap test_row e) | Memᴰ.tail k ↦ elim k [ ] ])
  ],
)

-- A round passes a test over, or writes it.
add_test-cases :
    (t : Tested) (w : Written)
    → ((add_test t w ≡ w) × (fails t ≡ true → Memᴰ (pair_of t) w.seen))
      ⊎ ((add_test t w ≡ write_test (pair_of t) w) × (fails t ≡ true))
add_test-cases t w = elim (Bool-cases (has_failed t.0)) [
  | inr passed ↦ inl (rw passed refl, λ f. absurd (ground arith))
  | inl failed ↦ elim (Bool-cases (is_blank (full_name t.0))) [
    | inl blank ↦ inl (rw (failed, blank) refl, λ f. absurd (ground arith))
    | inr named ↦ elim (Bool-cases (contains w.seen (pair_of t))) [
      | inl again ↦ inl (rw (failed, named, again) refl, λ f. contains-Memᴰ w.seen again)
      | inr fresh ↦ inr (rw (failed, named, fresh) refl, ground arith)
    ]
  ]
]

-- The failing tests with one more in front.
Memᴰ-failing_iff :
    (t : Tested) (ts : List Tested) (p : Pair)
    → Memᴰ p (failing_pairs (t ∷ ts))
      ↔ (((fails t ≡ true) × (p ≡ pair_of t)) ⊎ Memᴰ p (failing_pairs ts))
Memᴰ-failing_iff t ts p = elim (Bool-cases (fails t)) [
  | inr f ↦ rw f (λ m. inr m, λ x. elim x [ inl (g, e) ↦ absurd (ground arith) | inr m ↦ m ])
  | inl f ↦ rw f (
    λ m. elim m [ Memᴰ.head e ↦ inl (refl, e) | Memᴰ.tail n ↦ inr n ],
    λ x. elim x [ inl (g, e) ↦ Memᴰ.head e | inr m ↦ Memᴰ.tail m ],
  )
]

abbrev pub Sees : List Tested → Written → Pair → Written → Type 0
Sees ts w p after =
    IsFaithful after × (Memᴰ p after.seen ↔ (Memᴰ p w.seen ⊎ Memᴰ p (failing_pairs ts)))

Sees-passed :
    (t : Tested) (ts : List Tested) (w after : Written) (p : Pair)
    → (fails t ≡ true → Memᴰ (pair_of t) w.seen)
    → Sees ts w p after
    → Sees (t ∷ ts) w p after
Sees-passed t ts w after p again (h, (to, from)) = (
  h,
  (
    λ m. elim (to m) [ inl n ↦ inl n | inr n ↦ inr ((Memᴰ-failing_iff t ts p).1 (inr n)) ],
    λ x. elim x [
      | inl n ↦ from (inl n)
      | inr n ↦ elim ((Memᴰ-failing_iff t ts p).0 n) [
        | inl (f, e) ↦ from (inl (subst (λ q. Memᴰ q w.seen) (sym e) (again f)))
        | inr k ↦ from (inr k)
      ]
    ],
  ),
)

Sees-written :
    (t : Tested) (ts : List Tested) (w after : Written) (p : Pair)
    → fails t ≡ true
    → Sees ts (write_test (pair_of t) w) p after
    → Sees (t ∷ ts) w p after
Sees-written t ts w after p f (h, (to, from)) = (
  h,
  (
    λ m. elim (to m) [
      | inl n ↦ elim (Memᴰ.append_cases w.seen n) [
        | inl k ↦ inl k
        | inr k ↦ elim k [
          | Memᴰ.head e ↦ inr ((Memᴰ-failing_iff t ts p).1 (inl (f, e)))
          | Memᴰ.tail l ↦ elim l [ ]
        ]
      ]
      | inr n ↦ inr ((Memᴰ-failing_iff t ts p).1 (inr n))
    ],
    λ x. elim x [
      | inl n ↦ from (inl (Memᴰ.append_left (pair_of t ∷ []) n))
      | inr n ↦ elim ((Memᴰ-failing_iff t ts p).0 n) [
        | inl (g, e) ↦ from (inl (Memᴰ.append_right w.seen (Memᴰ.head e)))
        | inr k ↦ from (inr k)
      ]
    ],
  ),
)

pub add_tests-Sees :
    (ts : List Tested) (w : Written) (p : Pair) → IsFaithful w → Sees ts w p (add_tests ts w)
unfolding add_tests
add_tests-Sees [] w p h = (h, (λ m. inl m, λ x. elim x [ inl m ↦ m | inr m ↦ elim m [ ] ]))
add_tests-Sees (t ∷ ts) w p h = elim (add_test-cases t w) [
  | inl (same, again) ↦
      subst (λ v. Sees (t ∷ ts) w p (add_tests ts v)) (sym same)
        (Sees-passed t ts w (add_tests ts w) p again (add_tests-Sees ts w p h))
  | inr (same, f) ↦
      subst (λ v. Sees (t ∷ ts) w p (add_tests ts v)) (sym same)
        (Sees-written t ts w (add_tests ts (write_test (pair_of t) w)) p f
          (add_tests-Sees ts (write_test (pair_of t) w) p (write_test-IsFaithful (pair_of t) w h)))
]
