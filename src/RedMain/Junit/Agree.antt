-- ===== src/RedMain/Junit/Agree.antt =====
-- The rows of junit.py, and what `read_junit` of window.py reads in the same files.
use mathlib.Core.List.{Memᴰ}
use mathlib.Core.List.Memᴰ
use mathlib.Core.Path.{subst}
use github.Base.{select-select, string_eq, String, ◌≡◌, ◌↔◌, refl, ap, sym, inl, inr, not, ◌||◌}
use github.Base.{List, [], ◌∷◌, map, select, contains, Bool-cases}
use github.Base.Dict.{Dict}
use github.Base.Text.{is_blank}
use github.RedMain.Proof.Proven.{differ}
use github.RedMain.Units.{Row, Pair, pair_eq}
use github.RedMain.Junit.{
  File, pair_of, tested, read_junit, has_failed, is_named, Written, nothing_written, test_row,
  add_tests, lane_row, add_lane, add_lanes, failing_rows,
}
use github.RedMain.Junit.Gather.{failing_pairs, IsFaithful, add_tests-Sees}

-- No row of a lane is a row of a test.
lane_row-not :
    (signatures : Dict String String) (lane : String) (p : Pair)
    → ¬ (test_row p ≡ lane_row signatures lane)
lane_row-not signatures lane p e = differ "test" "lane" refl (ap kind_of e)
  where
    kind_of : Row → String
    kind_of row = row.kind

-- The loop over the lanes adds no test.
add_lane-tests :
    (signatures : Dict String String) (lane : String) (w : Written) (p : Pair)
    → Memᴰ (test_row p) (add_lane signatures lane w).rows ↔ Memᴰ (test_row p) w.rows
add_lane-tests signatures lane w p =
    elim (Bool-cases (contains w.covered lane || contains w.seen (lane, lane))) [
      | inl known ↦ rw known (λ m. m, λ m. m)
      | inr fresh ↦ rw fresh (
        λ m. elim (Memᴰ.append_cases w.rows m) [
          | inl n ↦ n
          | inr n ↦ elim n [
            | Memᴰ.head e ↦ absurd (lane_row-not signatures lane p e)
            | Memᴰ.tail k ↦ elim k [ ]
          ]
        ],
        λ m. Memᴰ.append_left (lane_row signatures lane ∷ []) m,
      )
    ]

add_lanes-tests :
    (signatures : Dict String String) (lanes : List String) (w : Written) (p : Pair)
    → Memᴰ (test_row p) (add_lanes signatures lanes w).rows ↔ Memᴰ (test_row p) w.rows
unfolding add_lanes
add_lanes-tests signatures [] w p = (λ m. m, λ m. m)
add_lanes-tests signatures (lane ∷ lanes) w p =
    let (to, from) = add_lanes-tests signatures lanes (add_lane signatures lane w) p in
    let (back, forth) = add_lane-tests signatures lane w p in
    (λ m. back (to m), λ m. from (forth m))

nothing-IsFaithful : IsFaithful nothing_written
nothing-IsFaithful p = (λ m. elim m [ ], λ m. elim m [ ])

-- The failing tests that junit.py writes, each for its lane, are those that `read_junit` of window.py
-- reads as failing in the same files, whatever the lanes and the signatures are.
pub failing_rows-read_junit_iff :
    (lane_map : Dict String String) (files : List File) (signatures : Dict String String)
    (lanes : List String) (p : Pair)
    → Memᴰ (test_row p) (failing_rows lane_map files signatures lanes)
      ↔ Memᴰ p (read_junit lane_map files).0
unfolding failing_rows read_junit
failing_rows-read_junit_iff lane_map files signatures lanes p =
    let (faithful, (to, from)) =
      add_tests-Sees (tested lane_map files) nothing_written p nothing-IsFaithful in
    let (back, forth) =
      add_lanes-tests signatures (select (λ lane. not (is_blank lane)) lanes)
        (add_tests (tested lane_map files) nothing_written) p in
    let same : failing_pairs (tested lane_map files) ≡ (read_junit lane_map files).0 =
      ap (map pair_of)
        (sym (select-select (λ t. has_failed t.0) is_named (tested lane_map files))) in
    (
      λ m. elim (to ((faithful p).0 (back m))) [
        | inl n ↦ elim n [ ]
        | inr n ↦ subst (Memᴰ p) same n
      ],
      λ m. forth ((faithful p).1 (from (inr (subst (Memᴰ p) (sym same) m)))),
    )
