-- ===== src/CiOkPolling/Stable.antt =====
-- The polling loop ends, and passes only on the same complete result twice in a row.
use github.Base.{
  ℕ, zero, suc, ◌+◌, ◌*◌, ◌<◌, String, ◌≡◌, refl, sym, ap, ◌∙◌, inl, inr, Bool, true, false,
}
use github.Base.{
  Option, none, some, List, [], ◌∷◌, arith, ltb, leb, ltb→lt, Bool-cases, eq_iff, if◌then◌else◌,
  string_eq,
}
use mathlib.Core.Option.{some-injective}
use mathlib.Core.Path.{subst}
use github.CiOkPolling.Evaluate.{State, pending, fail, pass, Inputs, evaluate}
use github.CiOkPolling.Loop.{Reading, read, rate_limited, unreadable, Round, Seen, nothing_seen}
use github.CiOkPolling.Loop.{
  list_beq, same_detail, count_pass, Next, exit, sleep_until, after_evaluate, round,
}
use github.CiOkPolling.Loop.{poll, main}
use github.CiOkPolling.Ends.{go_on, poll-Answers}

list_beq-eq : (l m : List String) → list_beq l m ≡ true → l ≡ m
list_beq-eq [] [] h = refl
list_beq-eq [] (t ∷ ts) h = cc
list_beq-eq (s ∷ ss) [] h = cc
list_beq-eq (s ∷ ss) (t ∷ ts) h = ground (arith, eq_iff s t, list_beq-eq ss ts)

same_detail-eq :
    (last : Option (List String)) (detail : List String)
    → same_detail last detail ≡ true
    → last ≡ some detail
same_detail-eq none detail h = cc
same_detail-eq (some l) detail h = ap some (sym (list_beq-eq detail l h))

module _ (schedule : ℕ → Round) where
  -- A round whose reading passes with these details.
  abbrev pub PassesAt : ℕ → List String → Type 0
  PassesAt i detail =
      (x : Inputs) × (remaining : Option ℕ) × ((schedule i).reading ≡ read x remaining)
      × (evaluate x ≡ (pass, detail))

  -- A round that could not be read.
  abbrev pub IsUnread : Reading → Type 0
  IsUnread (read x remaining) = ⊥
  IsUnread _ = Unit

  -- The rounds before `j` whose last reading passed with these details.
  abbrev pub PassedBefore : ℕ → List String → Type 0
  PassedBefore j detail =
      (i : ℕ) × (i < j)
      × PassesAt i detail
      × ((m : ℕ) → i < m → m < j → IsUnread (schedule m).reading)

  -- What the loop has seen is what the last reading passed with.
  abbrev Remembers : ℕ → Seen → Type 0
  Remembers j seen = (detail : List String) → seen.last ≡ some detail → PassedBefore j detail

  -- Two rounds passed alike, with no reading between them.
  abbrev pub PassedTwice : Type 0
  PassedTwice = (j : ℕ) × (detail : List String) × PassesAt j detail × PassedBefore j detail

  IsUnread-extend :
      (j : ℕ) {i : ℕ}
      → ((m : ℕ) → i < m → m < j → IsUnread (schedule m).reading)
      → IsUnread (schedule j).reading
      → (m : ℕ) → i < m
      → m < suc j
      → IsUnread (schedule m).reading
  IsUnread-extend j quiet u m lo hi = elim (Bool-cases (ltb m j)) [
    | inl e ↦ quiet m lo (ltb→lt _ _ e)
    | inr e ↦ let same : j ≡ m = ground arith in subst (λ k. IsUnread (schedule k).reading) same u
  ]

  Remembers-unread :
      (j : ℕ) (seen : Seen)
      → IsUnread (schedule j).reading
      → Remembers j seen
      → Remembers (suc j) seen
  Remembers-unread j seen u r detail e =
      let (i, lt, passed, quiet) = r detail e in (i, omega arith, passed, IsUnread-extend j quiet u)

  -- What a round at `j` leaves behind.
  Keeps : ℕ → Next → Type 0
  Keeps j (exit status) = status ≡ 0 → PassedTwice
  Keeps j (sleep_until time seen) = Remembers (suc j) seen

  just_passed :
      (j : ℕ) (detail : List String)
      → PassesAt j detail
      → (n : ℕ) → Remembers (suc j) (record { last = some detail; stable = n })
  just_passed j detail p n d e =
      (j, omega arith, subst (PassesAt j) (some-injective _ _ e) p, λ m lo hi. absurd (omega arith))

  Keeps-if :
      (j : ℕ) (b : Bool) (time : ℕ) (seen : Seen)
      → (b ≡ true → PassedTwice)
      → Remembers (suc j) seen
      → Keeps j (if b then exit 0 else sleep_until time seen)
  unfolding Keeps
  Keeps-if j true time seen twice r = λ h. twice refl
  Keeps-if j false time seen twice r = r

  after_evaluate-Keeps :
      (interval now j : ℕ) (remaining : Option ℕ) (x : Inputs) (seen : Seen)
      (result : State × List String)
      → (schedule j).reading ≡ read x remaining
      → evaluate x ≡ result
      → Remembers j seen
      → Keeps j (after_evaluate interval now remaining seen result)
  unfolding after_evaluate Keeps count_pass
  after_evaluate-Keeps interval now j remaining x seen (fail, d) e f r = λ h. absurd (omega arith)
  after_evaluate-Keeps interval now j remaining x seen (pending, d) e f r = λ detail h. cc
  after_evaluate-Keeps interval now j remaining x seen (pass, d) e f r =
      let here : PassesAt j d = (x, remaining, e, f) in
      elim (Bool-cases (same_detail seen.last d)) [
        | inl same ↦
            Keeps-if j _ _ _ (λ _. (j, d, here, r d (same_detail-eq seen.last d same)))
              (just_passed j d here (count_pass seen d).stable)
        | inr other ↦
            Keeps-if j _ _ _ (λ twice. absurd (ground arith))
              (just_passed j d here (count_pass seen d).stable)
      ]

  round-Keeps :
      (interval deadline now j : ℕ) (seen : Seen) (reading : Reading)
      → (schedule j).reading ≡ reading
      → Remembers j seen
      → Keeps j (round interval deadline now seen reading)
  unfolding round Keeps
  round-Keeps interval deadline now j seen (read x remaining) e r =
      after_evaluate-Keeps interval now j remaining x seen (evaluate x) e refl r
  round-Keeps interval deadline now j seen (rate_limited reset) e r =
      elim (Bool-cases (leb deadline reset)) [
        | inl spent ↦ rw spent (λ h. absurd (omega arith))
        | inr back ↦ rw back (Remembers-unread j seen (subst IsUnread (sym e) tt) r)
      ]
  round-Keeps interval deadline now j seen unreadable e r =
      Remembers-unread j seen (subst IsUnread (sym e) tt) r

  go_on-PassedTwice :
      (interval deadline fuel j : ℕ) (step : Next)
      → Keeps j step
      → ((time : ℕ) (seen : Seen)
          → Remembers (suc j) seen
          → poll schedule interval deadline fuel (suc j) time seen ≡ some 0
          → PassedTwice)
      → go_on schedule interval deadline fuel j step ≡ some 0
      → PassedTwice
  unfolding Keeps
  go_on-PassedTwice interval deadline fuel j (exit status) k rec e = k (some-injective _ _ e)
  go_on-PassedTwice interval deadline fuel j (sleep_until time seen) k rec e = rec time seen k e

  poll-PassedTwice :
      (interval deadline fuel j now : ℕ) (seen : Seen)
      → Remembers j seen
      → poll schedule interval deadline fuel j now seen ≡ some 0
      → PassedTwice
  unfolding poll
  poll-PassedTwice interval deadline zero j now seen r e = cc
  poll-PassedTwice interval deadline (suc fuel) j now seen r e =
      elim (Bool-cases (ltb now deadline)) [
        | inl before ↦
            go_on-PassedTwice interval deadline fuel j
              (round interval deadline (now + (schedule j).duration) seen (schedule j).reading)
              (round-Keeps interval deadline (now + (schedule j).duration) j seen
                (schedule j).reading refl r)
              (λ time seen' k h. poll-PassedTwice interval deadline fuel (suc j) time seen' k h)
              (rw before at e)
        | inr late ↦ absurd (one_is_not_zero (rw late at e))
      ]
    where
      one_is_not_zero : ◌≡◌ {A = Option ℕ} (some 1) (some 0) → ⊥
      one_is_not_zero h = ground arith

  -- Where the interval is above 0, or else every reading takes a second or more, the gate answers
  -- within any fuel that exceeds the seconds it is given, and exits with 0 only where two readings
  -- passed with the same details and no reading came between them.
  pub main-Stable :
      (interval minutes settle fuel start : ℕ)
      → ((i : ℕ) → 0 < interval + (schedule i).duration)
      → 60 * minutes < fuel
      → (status : ℕ) × (main schedule interval minutes settle fuel start ≡ some status)
        × (status ≡ 0 → PassedTwice)
  unfolding main
  main-Stable interval minutes settle fuel start h f =
      let (status, e) =
        poll-Answers schedule interval (start + 60 * minutes) fuel 0 (start + settle) nothing_seen h
          (omega arith) in
      (
        status,
        e,
        λ zero_status.
            poll-PassedTwice interval (start + 60 * minutes) fuel 0 (start + settle) nothing_seen
              (λ detail k. cc) (e ∙ ap some zero_status),
      )
