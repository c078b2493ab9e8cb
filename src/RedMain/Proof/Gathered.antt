-- ===== src/RedMain/Proof/Gathered.antt =====
-- What a page of `paged` adds to the rows that were gathered.
use github.Base.{
  ℕ, suc, ◌-◌, ◌≡◌, refl, ap, sym, ◌∙◌, inl, inr, String, false, ◌&&◌, ◌||◌, Option, none, some,
  min,
}
use github.Base.{List, [], ◌∷◌, ◌++◌, map, arith, length, All, Bool-cases, contains, ◌==◌, nat_eq}
use mathlib.Core.Option.{some-injective}
use mathlib.Core.List.{map-append, append-nil, append_assoc}
use mathlib.Core.Path.{subst}
use github.Json.{Value, Fields, get, obj, count_of, list_of, positive_of}
use github.RedMain.Proof.Pages.{
  Row, Gathered, add_row, and_then, add_rows, total_or, accept_rows, read_page,
}
use github.RedMain.Proof.Checks.{id_of}
use github.RedMain.Proof.Proven.{bound}

-- No number comes twice.
abbrev pub Distinct : List ℕ → Type 0
Distinct [] = Unit
Distinct (n ∷ ns) = (contains ns n ≡ false) × Distinct ns

contains-append :
    (ms ns : List ℕ) (a : ℕ) → contains (ms ++ ns) a ≡ (contains ms a || contains ns a)
contains-append [] ns a = refl
contains-append (m ∷ ms) ns a = ground (arith, contains-append ms ns a)

Distinct-append :
    (ns : List ℕ) (n : ℕ) → Distinct ns → contains ns n ≡ false → Distinct (ns ++ n ∷ [])
Distinct-append [] n d c = (refl, tt)
Distinct-append (m ∷ ns) n (c, d) e =
    (ground (arith, contains-append ns (n ∷ []) m), Distinct-append ns n d (ground arith))

-- A row has a positive identity.
abbrev pub HasId : Row → Type 0
HasId row = positive_of (get row "id") ≡ some (id_of row)

All-snoc : (rows : List Row) (row : Row) → All HasId rows → HasId row → All HasId (rows ++ row ∷ [])
All-snoc [] row all h = (h, tt)
All-snoc (r ∷ rows) row (k, all) h = (k, All-snoc rows row all h)

-- The identities are those of the rows, positive and all different.
abbrev pub IsGathered : Gathered → Type 0
IsGathered (rows, ids) = (map id_of rows ≡ ids) × Distinct ids × All HasId rows

-- The rows of a batch were added.
abbrev IsAdded : List Value → Gathered → Gathered → Type 0
IsAdded batch before after =
    (rows : List Row) × (batch ≡ map obj rows) × (after.0 ≡ before.0 ++ rows)

add_row-IsGathered :
    (row : Row) (before after : Gathered) (id : Option ℕ)
    → positive_of (get row "id") ≡ id
    → IsGathered before
    → add_row id row before ≡ some after
    → IsGathered after
add_row-IsGathered row before after none f h e = cc
add_row-IsGathered row (rows, ids) after (some n) f (same, d, all) e =
    elim (Bool-cases (contains ids n)) [
      | inl again ↦ absurd (nothing (rw again at e))
      | inr fresh ↦
          let named : id_of row ≡ n = rw f refl in
          subst IsGathered (some-injective _ _ (rw fresh at e)) (
            map-append id_of rows (row ∷ [])
                ∙ ap (λ l. l ++ id_of row ∷ []) same
                ∙ ap (λ k. ids ++ k ∷ []) named,
            Distinct-append ids n d fresh,
            All-snoc rows row all (f ∙ ap some (sym named)),
          )
    ]
  where
    nothing : ◌≡◌ {A = Option Gathered} none (some after) → ⊥
    nothing g = cc

add_row-rows :
    (row : Row) (before after : Gathered) (id : Option ℕ)
    → add_row id row before ≡ some after
    → after.0 ≡ before.0 ++ row ∷ []
add_row-rows row before after none e = cc
add_row-rows row (rows, ids) after (some n) e = elim (Bool-cases (contains ids n)) [
  | inl again ↦ absurd (nothing (rw again at e))
  | inr fresh ↦ sym (ap (λ (x : Gathered). x.0) (some-injective _ _ (rw fresh at e)))
]
  where
    nothing : ◌≡◌ {A = Option Gathered} none (some after) → ⊥
    nothing g = cc

IsAdded-cons :
    (row : Row) (batch : List Value) (before more after : Gathered)
    → more.0 ≡ before.0 ++ row ∷ []
    → IsAdded batch more after
    → IsAdded (obj row ∷ batch) before after
IsAdded-cons row batch before more after e (rows, f, g) = (
  row ∷ rows,
  ap (λ l. obj row ∷ l) f,
  g ∙ ap (λ l. l ++ rows) e ∙ append_assoc (before.0) (row ∷ []) rows,
)

add_rows-IsGathered :
    (batch : List Value) (gathered after : Gathered)
    → IsGathered gathered
    → add_rows batch gathered ≡ some after
    → IsGathered after × IsAdded batch gathered after
unfolding add_rows
add_rows-IsGathered [] gathered after h e =
    let same = some-injective _ _ e in
    (
      subst IsGathered same h,
      ([], refl, ap (λ (x : Gathered). x.0) (sym same) ∙ sym (append-nil _)),
    )
add_rows-IsGathered (obj row ∷ batch) gathered after h e =
    let (more, f, g) = bound _ _ _ e in
    let (inner, added) =
      add_rows-IsGathered batch more after (add_row-IsGathered row gathered more _ refl h f) g in
    (inner, IsAdded-cons row batch gathered more after (add_row-rows row gathered more _ f) added)
add_rows-IsGathered (Value.null ∷ batch) gathered after h e = cc
add_rows-IsGathered (Value.bool b ∷ batch) gathered after h e = cc
add_rows-IsGathered (Value.int n ∷ batch) gathered after h e = cc
add_rows-IsGathered (Value.real n s ∷ batch) gathered after h e = cc
add_rows-IsGathered (Value.str s ∷ batch) gathered after h e = cc
add_rows-IsGathered (Value.arr vs ∷ batch) gathered after h e = cc

abbrev pub Agreed : Option ℕ → ℕ → Type 0
Agreed none count = Unit
Agreed (some total) count = total ≡ count

Agreed-total_or : (total : Option ℕ) (count : ℕ) → Agreed total (total_or total count)
Agreed-total_or none count = tt
Agreed-total_or (some total) count = refl

length-map : {A B : Type 0} (f : A → B) (l : List A) → length (map f l) ≡ length l
length-map f [] = refl
length-map f (x ∷ l) = ap suc (length-map f l)

-- The rows of a page, which hold 100 of the total or all that are left of it.
abbrev IsPage : List Value → Gathered → ℕ × Gathered → Type 0
IsPage batch before next =
    (rows : List Row) × (batch ≡ map obj rows)
    × (next.1.0 ≡ before.0 ++ rows)
    × (length rows ≡ min 100 (next.0 - length before.0))

accept_rows-IsPage :
    (total : Option ℕ) (gathered : Gathered) (count : ℕ) (batch : List Value) (next : ℕ × Gathered)
    → IsGathered gathered
    → accept_rows total gathered count batch ≡ some next
    → (count ≡ next.0) × IsGathered next.1 × Agreed total next.0 × IsPage batch gathered next
unfolding accept_rows
accept_rows-IsPage total gathered count batch next h e =
    elim (Bool-cases (
      count == total_or total count
      && length batch == min 100 (total_or total count - length gathered.0))) [
        | inr wrong ↦ absurd (nothing (rw wrong at e))
        | inl right ↦
            let (more, f, g) =
              bound (add_rows batch gathered) (λ m. some (total_or total count, m)) next
                (rw right at e) in
            let same : count ≡ total_or total count = ground arith in
            let full : length batch ≡ min 100 (total_or total count - length gathered.0) =
              ground arith in
            let (inner, (rows, k, l)) = add_rows-IsGathered batch gathered more h f in
            let sized : length rows ≡ length batch =
              sym (length-map obj rows) ∙ ap length (sym k) in
            subst (λ x. (count ≡ x.0) × IsGathered x.1 × Agreed total x.0 × IsPage batch gathered x)
              (some-injective _ _ g)
              (same, inner, Agreed-total_or total count, (rows, k, l, sized ∙ full))
      ]
  where
    nothing : ◌≡◌ {A = Option (ℕ × Gathered)} none (some next) → ⊥
    nothing g = cc

-- A body declares a total, and has a list of rows.
abbrev pub Declares : String → Value → ℕ → List Row → Type 0
Declares key body total rows =
    (fields : Fields) × (body ≡ obj fields)
    × (count_of (get fields "total_count") ≡ some total)
    × (list_of (get fields key) ≡ some (map obj rows))

-- What a page adds.
abbrev pub Adds : String → Value → Gathered → ℕ × Gathered → Type 0
Adds key body before next =
    (rows : List Row) × Declares key body next.0 rows
    × (next.1.0 ≡ before.0 ++ rows)
    × (length rows ≡ min 100 (next.0 - length before.0))

pub read_page-Adds :
    (key : String) (total : Option ℕ) (gathered : Gathered) (body : Value) (next : ℕ × Gathered)
    → IsGathered gathered
    → read_page key total gathered body ≡ some next
    → Adds key body gathered next × IsGathered next.1 × Agreed total next.0
unfolding read_page
read_page-Adds key total gathered (obj body) next h e =
    let (count, f, g) =
      bound (count_of (get body "total_count"))
        (λ c. and_then (list_of (get body key)) (accept_rows total gathered c)) next e in
    let (batch, k, l) = bound (list_of (get body key)) (accept_rows total gathered count) next g in
    let (same, inner, agrees, (rows, m, n, o)) =
      accept_rows-IsPage total gathered count batch next h l in
    ((rows, (body, refl, f ∙ ap some same, k ∙ ap some m), n, o), inner, agrees)
read_page-Adds key total gathered (Value.null) next h e = cc
read_page-Adds key total gathered (Value.bool b) next h e = cc
read_page-Adds key total gathered (Value.int n) next h e = cc
read_page-Adds key total gathered (Value.real n s) next h e = cc
read_page-Adds key total gathered (Value.str s) next h e = cc
read_page-Adds key total gathered (Value.arr vs) next h e = cc
