-- ===== src/CiOkPolling/Newest.antt =====
-- The newest run of each name, which `latest_runs` of ci-ok-polling/ci_ok.py collects.
use mathlib.Core.List.{Memᴰ}
use mathlib.Core.Path.{subst}
use mathlib.Core.Option.{some-injective}
use github.Base.{ℕ, suc, ◌≤◌, String, ◌≡◌, refl, sym, ap, ◌∙◌, ◌⊎◌, inl, inr, Bool, true, false}
use github.Base.{Option, none, some, List, [], ◌∷◌, arith, Bool-cases, ◌==◌, string_eq, eq_iff}
use github.Base.{option_eq, nat_eq, if◌then◌else◌}
use github.Base.TextOrder.{str_leb_total, str_leb_trans, str_leb_antisymm}
use github.Base.Dict.{Dict, lookup, put, lookup-put, lookup-nil}
use github.CiOkPolling.Runs.{CheckRun, Placed, Started, started, later, place, newest, replaces}
use github.CiOkPolling.Runs.{is_newest}

later_trans : (a b c : Started) → later a b ≡ false → later b c ≡ false → later a c ≡ false
unfolding later
later_trans (s, m) (t, n) (u, k) h e = ground (
  arith,
  eq_iff s t,
  eq_iff t u,
  eq_iff s u,
  str_leb_trans s t u,
  str_leb_antisymm s t,
  str_leb_antisymm t u,
)

later_total : (a b : Started) → later a b ≡ true → later b a ≡ false
unfolding later
later_total (s, m) (t, n) h = ground (arith, eq_iff s t, eq_iff t s, str_leb_total s t)

later_refl : (a : Started) → later a a ≡ false
unfolding later
later_refl (s, m) = ground (arith, eq_iff s s)

pick : Placed → Option Placed → Option Placed
pick p o = if replaces p o then some p else o

-- The newest run of a name, as a search of its own.
best : String → Option Placed → List Placed → Option Placed
best k o [] = o
best k o (p ∷ ps) = best k (if p.1.name == k then pick p o else o) ps

put_step :
    (k : String) (d : Dict String Placed) (p : Placed) (b : Bool)
    → replaces p (lookup d p.1.name) ≡ b
    → lookup (if b then put d p.1.name p else d) k
      ≡ (if p.1.name == k then pick p (lookup d k) else lookup d k)
unfolding pick
put_step k d p b e = elim (Bool-cases (p.1.name == k)) [
  | inl h ↦ at_name b ((eq_iff p.1.name k).0 h) e
  | inr h ↦ elsewhere b h
]
  where
    at_name :
        (b : Bool)
        → p.1.name ≡ k
        → replaces p (lookup d p.1.name) ≡ b
        → lookup (if b then put d p.1.name p else d) k
          ≡ (if p.1.name == k then pick p (lookup d k) else lookup d k)
    at_name true h e =
        ground
          (arith, lookup-put d p.1.name k p, eq_iff p.1.name k, ap (λ j. replaces p (lookup d j)) h)
    at_name false h e = ground (arith, eq_iff p.1.name k, ap (λ j. replaces p (lookup d j)) h)

    elsewhere :
        (b : Bool)
        → (p.1.name == k) ≡ false
        → lookup (if b then put d p.1.name p else d) k
          ≡ (if p.1.name == k then pick p (lookup d k) else lookup d k)
    elsewhere true h = ground (arith, lookup-put d p.1.name k p)
    elsewhere false h = ground arith

lookup-newest :
    (k : String) (d : Dict String Placed) (ps : List Placed)
    → lookup (newest d ps) k ≡ best k (lookup d k) ps
unfolding newest best
lookup-newest k d [] = refl
lookup-newest k d (p ∷ ps) =
    lookup-newest k (if replaces p (lookup d p.1.name) then put d p.1.name p else d) ps
    ∙ ap (λ o. best k o ps) (put_step k d p (replaces p (lookup d p.1.name)) refl)

-- The second of two placed runs is as new as the first.
abbrev pub AsNew : Placed → Placed → Type 0
AsNew p q = later (started p.1) (started q.1) ≡ false

pick-AsNew_old : (p a : Placed) → (q : Placed) × (pick p (some a) ≡ some q) × AsNew a q
unfolding pick replaces
pick-AsNew_old p a = elim (Bool-cases (later (started p.1) (started a.1))) [
  | inl h ↦ (p, rw h refl, later_total _ _ h)
  | inr h ↦ (a, rw h refl, later_refl _)
]

pick-AsNew_new : (p : Placed) (o : Option Placed) → (q : Placed) × (pick p o ≡ some q) × AsNew p q
unfolding pick replaces
pick-AsNew_new p none = (p, refl, later_refl _)
pick-AsNew_new p (some a) = elim (Bool-cases (later (started p.1) (started a.1))) [
  | inl h ↦ (p, rw h refl, later_refl _)
  | inr h ↦ (a, rw h refl, h)
]

pick-cases : (p q : Placed) (o : Option Placed) → pick p o ≡ some q → (o ≡ some q) ⊎ (q ≡ p)
unfolding pick
pick-cases p q o e = elim (Bool-cases (replaces p o)) [
  | inl h ↦ inr (some-injective _ _ (sym (rw h at e)))
  | inr h ↦ inl (rw h at e)
]

best_above :
    (k : String) (a : Placed) (ps : List Placed)
    → (q : Placed) × (best k (some a) ps ≡ some q) × AsNew a q
unfolding best
best_above k a [] = (a, refl, later_refl _)
best_above k a (p ∷ ps) = elim (Bool-cases (p.1.name == k)) [
  | inl h ↦
      let (b, e, new) = pick-AsNew_old p a in
      let (q, f, newer) = best_above k b ps in
      (q, rw (h, best) (rw e f), later_trans _ _ _ new newer)
  | inr h ↦ let (q, f, new) = best_above k a ps in (q, rw (h, best) f, new)
]

best-AsNew :
    (k : String) (o : Option Placed) (ps : List Placed) {p : Placed}
    → Memᴰ p ps
    → p.1.name ≡ k
    → (q : Placed) × (best k o ps ≡ some q) × AsNew p q
unfolding best
best-AsNew k o [] m n = elim m [ ]
best-AsNew k o (r ∷ ps) {p} (Memᴰ.head e) n =
    let (b, f, new) = pick-AsNew_new r o in
    let (q, g, newer) = best_above k b ps in
    let named : (r.1.name == k) ≡ true =
      (eq_iff _ _).1 (sym (ap (λ (x : Placed). x.1.name) e) ∙ n) in
    (q, rw (named, best) (rw f g), subst (λ x. AsNew x q) (sym e) (later_trans _ _ _ new newer))
best-AsNew k o (r ∷ ps) (Memᴰ.tail m) n =
    best-AsNew k (if r.1.name == k then pick r o else o) ps m n

best-cases :
    (k : String) (o : Option Placed) (ps : List Placed) {q : Placed}
    → best k o ps ≡ some q
    → (o ≡ some q) ⊎ (Memᴰ q ps × (q.1.name ≡ k))
unfolding best
best-cases k o [] e = inl e
best-cases k o (p ∷ ps) {q} e = elim (Bool-cases (p.1.name == k)) [
  | inl h ↦ elim (best-cases k (pick p o) ps (rw (h, best) at e)) [
    | inl f ↦ elim (pick-cases p q o f) [
      | inl g ↦ inl g
      | inr g ↦ inr (Memᴰ.head g, ap (λ (x : Placed). x.1.name) g ∙ (eq_iff _ _).0 h)
    ]
    | inr (m, n) ↦ inr (Memᴰ.tail m, n)
  ]
  | inr h ↦ elim (best-cases k o ps (rw (h, best) at e)) [
    | inl f ↦ inl f
    | inr (m, n) ↦ inr (Memᴰ.tail m, n)
  ]
]

-- The places of a list are its indices, so a place has one run.
place-le : (n : ℕ) (l : List CheckRun) {p : Placed} → Memᴰ p (place n l) → n ≤ p.0
unfolding place
place-le n [] m = elim m [ ]
place-le n (r ∷ l) {p} (Memᴰ.head e) = omega (arith, ap (λ (x : Placed). x.0) e)
place-le n (r ∷ l) {p} (Memᴰ.tail m) = omega (arith, place-le (suc n) l m)

place_unique :
    (n : ℕ) (l : List CheckRun) {p q : Placed}
    → Memᴰ p (place n l)
    → Memᴰ q (place n l)
    → p.0 ≡ q.0
    → p ≡ q
unfolding place
place_unique n [] m k e = elim m [ ]
place_unique n (r ∷ l) (Memᴰ.head f) (Memᴰ.head g) e = f ∙ sym g
place_unique n (r ∷ l) {p} {q} (Memᴰ.head f) (Memᴰ.tail k) e =
    absurd (omega (arith, ap (λ (x : Placed). x.0) f, place-le (suc n) l k))
place_unique n (r ∷ l) {p} {q} (Memᴰ.tail m) (Memᴰ.head g) e =
    absurd (omega (arith, ap (λ (x : Placed). x.0) g, place-le (suc n) l m))
place_unique n (r ∷ l) (Memᴰ.tail m) (Memᴰ.tail k) e = place_unique (suc n) l m k e

pub Memᴰ-place :
    (n : ℕ) (l : List CheckRun) {r : CheckRun} → Memᴰ r l → (i : ℕ) × Memᴰ (i, r) (place n l)
unfolding place
Memᴰ-place n [] m = elim m [ ]
Memᴰ-place n (s ∷ l) (Memᴰ.head e) = (n, Memᴰ.head (λ i. (n, e i)))
Memᴰ-place n (s ∷ l) (Memᴰ.tail m) = let (i, k) = Memᴰ-place (suc n) l m in (i, Memᴰ.tail k)

pub place-Memᴰ : (n : ℕ) (l : List CheckRun) {p : Placed} → Memᴰ p (place n l) → Memᴰ p.1 l
unfolding place
place-Memᴰ n [] m = elim m [ ]
place-Memᴰ n (s ∷ l) (Memᴰ.head e) = Memᴰ.head (ap (λ (x : Placed). x.1) e)
place-Memᴰ n (s ∷ l) (Memᴰ.tail m) = Memᴰ.tail (place-Memᴰ (suc n) l m)

module _ (l : List CheckRun) where
  abbrev pub placed : List Placed
  placed = place 0 l

  abbrev pub table : Dict String Placed
  table = newest [] placed

  lookup-table : (k : String) → lookup table k ≡ best k none placed
  lookup-table k = lookup-newest k [] placed ∙ ap (λ o. best k o placed) (lookup-nil k)

  pub table-cases :
      (k : String) {q : Placed} → lookup table k ≡ some q → Memᴰ q placed × (q.1.name ≡ k)
  table-cases k {q} e = elim (best-cases k none placed (sym (lookup-table k) ∙ e)) [
    | inl f ↦ absurd (ground arith)
    | inr h ↦ h
  ]

  -- The table holds a run that is as new, for every run.
  pub table-AsNew :
      {p : Placed} → Memᴰ p placed → (q : Placed) × (lookup table p.1.name ≡ some q) × AsNew p q
  table-AsNew {p} m =
      let (q, e, new) = best-AsNew p.1.name none placed m refl in
      (q, lookup-table p.1.name ∙ e, new)

  pub is_newest_self : {q : Placed} → lookup table q.1.name ≡ some q → is_newest table q ≡ true
  unfolding is_newest
  is_newest_self {q} e = rw (e, is_newest) (ground arith)

  pub is_newest-inv :
      {p : Placed} → Memᴰ p placed → is_newest table p ≡ true → lookup table p.1.name ≡ some p
  unfolding is_newest
  is_newest-inv {p} m h = go (lookup table p.1.name) refl h
    where
      go :
          (o : Option Placed)
          → lookup table p.1.name ≡ o
          → elim o [ none ↦ false | some q ↦ q.0 == p.0 ] ≡ true
          → lookup table p.1.name ≡ some p
      go none e h = cc
      go (some q) e h = e ∙ ap some (place_unique 0 l (table-cases p.1.name e).0 m (ground arith))
