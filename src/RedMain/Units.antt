-- ===== src/RedMain/Units.antt =====
-- Failing units, the rows `kind<TAB>name<TAB>job` that junit.py writes, and how confirm.py and
-- window.py read a file of them. A file is its lines without their ends; `none` cannot be read.
use github.Base.{String, ◌≡◌, ◌↔◌, Bool, true, not, ◌&&◌, Option, none, some, List, [], ◌∷◌, arith}
use github.Base.{Eq, ◌==◌, string_eq, eq_iff, if◌then◌else◌}
use github.Base.Sorting.{str_leb}
use github.Base.Text.{is_blank, split}

pub record Row : Type 0 where
  pub kind : String
  pub name : String
  pub job : String

abbrev row_beq : Row → Row → Bool
row_beq r s = r.kind == s.kind && (r.name == s.name && r.job == s.job)

pub row_beq_iff : (r s : Row) → (row_beq r s ≡ true) ↔ (r ≡ s)
row_beq_iff r s = (
  λ h. ground (arith, eq_iff r.kind s.kind, eq_iff r.name s.name, eq_iff r.job s.job),
  λ h. ground (arith, eq_iff r.kind s.kind, eq_iff r.name s.name, eq_iff r.job s.job),
)

instance abbrev pub row_eq : Eq Row
row_eq = record { is_same = row_beq; is_same_iff = row_beq_iff }

-- A name and its job, the pairs that confirm.py compares.
abbrev pub Pair : Type 0
Pair = String × String

abbrev pub pair_beq : Pair → Pair → Bool
pair_beq (a, b) (c, d) = a == c && b == d

pub pair_beq_iff : (p q : Pair) → (pair_beq p q ≡ true) ↔ (p ≡ q)
pair_beq_iff (a, b) (c, d) =
    (λ h. ground (arith, eq_iff a c, eq_iff b d), λ h. ground (arith, eq_iff a c, eq_iff b d))

instance abbrev pub pair_eq : Eq Pair
pair_eq = record { is_same = pair_beq; is_same_iff = pair_beq_iff }

-- Python's order of tuples.
abbrev pub pair_leb : Pair → Pair → Bool
pair_leb (a, b) (c, d) = if a == c then str_leb b d else str_leb a c

abbrev pub row_leb : Row → Row → Bool
row_leb r s =
    if r.kind == s.kind then pair_leb (r.name, r.job) (s.name, s.job) else str_leb r.kind s.kind

-- `line.split("\t")`, if it has three parts
row_of : List String → Option Row
row_of (kind ∷ name ∷ job ∷ []) = some (record { kind = kind; name = name; job = job })
row_of _ = none

-- The rows that a file's reader keeps.
keep : (Row → Bool) → Option Row → List Row → List Row
keep test none rows = rows
keep test (some row) rows = if test row then row ∷ rows else rows

read_lines : (Row → Bool) → List String → List Row
unfolding row_of keep
read_lines test [] = []
read_lines test (line ∷ lines) = keep test (row_of (split 9 line)) (read_lines test lines)

read : (Row → Bool) → Option (List String) → List Row
unfolding read_lines
read test none = []
read test (some lines) = read_lines test lines

-- `read` of confirm.py
unfoldable pub read_confirm : String → Option (List String) → List Row
unfolding read
read_confirm aggregate = read (λ row. not (row.job == aggregate))

-- `read_units` of window.py
unfoldable pub read_units : Option (List String) → List Row
unfolding read
read_units =
    read (λ row. not (is_blank row.kind) && not (is_blank row.name) && not (is_blank row.job))
