-- ===== src/RedMain/Gate/Taken.antt =====
-- The fields of the answer of gate.py, and where they are from.
use github.Base.{
  String, ◌<>◌, ◌≡◌, ◌≢◌, ◌⊎◌, refl, ap, sym, ◌∙◌, inl, inr, Bool, true, false, Option, some,
}
use github.Base.{Bool-cases, string_eq}
use github.Json.{Value, Fields, get, str}
use github.Base.Text.{strip_prefix, every}
use github.RedMain.Proof.Proven.{differ}
use github.RedMain.Gate.{
  Answer, migrations, is_owner, are_globs, is_window, paths_with, if_text, refuse,
}

-- Fields that the shell can rely on: an owner label, globs that keep the defaults, and a window of
-- the day or none.
abbrev pub IsWellFormed : Answer → Type 0
IsWellFormed a =
    (is_owner a.owner ≡ true)
    × ((a.paths ≡ migrations)
        ⊎ ((extra : String) × (a.paths ≡ migrations <> ("," <> extra)) × (are_globs extra ≡ true)))
    × ((a.hold ≡ "") ⊎ (is_window a.hold ≡ true))

-- A field of the table where it is a text that passes its test, and a default where it is not.
abbrev pub Takes : (String → Bool) → (String → String) → Value → String → String → Type 0
Takes test made v default result =
    ((s : String) × (v ≡ str s) × (test s ≡ true) × (result ≡ made s))
    ⊎ (((s : String) → v ≡ str s → test s ≡ false) × (result ≡ default))

-- The fields of a table.
abbrev pub IsTaken : Fields → Answer → Type 0
IsTaken table a =
    Takes is_owner (λ s. s) (get table "red_main_owner") "owner:ops" a.owner
    × Takes are_globs (λ s. migrations <> ("," <> s)) (get table "migration_paths") migrations
        a.paths
    × Takes is_window (λ s. s) (get table "revert_hold_utc") "" a.hold

-- The default fields.
abbrev pub IsDefault : Answer → Type 0
IsDefault a = (a.owner ≡ "owner:ops") × (a.paths ≡ migrations) × (a.hold ≡ "")

-- To act, with the fields of the table that was read, or not to act, with the default ones.
abbrev pub IsFrom : Option Fields → Answer → Type 0
IsFrom ci a =
    ((table : Fields) × (ci ≡ some table) × (a.verdict ≡ "act") × IsTaken table a)
    ⊎ (IsDefault a × (a.verdict ≢ "act"))

str-injective : {s t : String} → str s ≡ str t → s ≡ t
str-injective h = cc

pub Takes-if_text :
    (test : String → Bool) (v : Value) (default : String)
    → Takes test (λ s. s) v default (if_text test v default)
Takes-if_text test (str s) default = elim (Bool-cases (test s)) [
  | inl f ↦ inl (s, refl, f, rw f refl)
  | inr f ↦ inr (λ u e. ap test (sym (str-injective e)) ∙ f, rw f refl)
]
Takes-if_text test (Value.null) default = inr (λ s e. cc, refl)
Takes-if_text test (Value.bool b) default = inr (λ s e. cc, refl)
Takes-if_text test (Value.int n) default = inr (λ s e. cc, refl)
Takes-if_text test (Value.real n t) default = inr (λ s e. cc, refl)
Takes-if_text test (Value.arr vs) default = inr (λ s e. cc, refl)
Takes-if_text test (Value.obj fs) default = inr (λ s e. cc, refl)

pub Takes-paths_with :
    (v : Value) → Takes are_globs (λ s. migrations <> ("," <> s)) v migrations (paths_with v)
Takes-paths_with (str s) = elim (Bool-cases (are_globs s)) [
  | inl f ↦ inl (s, refl, f, rw f refl)
  | inr f ↦ inr (λ u e. ap are_globs (sym (str-injective e)) ∙ f, rw f refl)
]
Takes-paths_with (Value.null) = inr (λ s e. cc, refl)
Takes-paths_with (Value.bool b) = inr (λ s e. cc, refl)
Takes-paths_with (Value.int n) = inr (λ s e. cc, refl)
Takes-paths_with (Value.real n t) = inr (λ s e. cc, refl)
Takes-paths_with (Value.arr vs) = inr (λ s e. cc, refl)
Takes-paths_with (Value.obj fs) = inr (λ s e. cc, refl)

-- What is taken is well formed.
IsWellFormed-of_taken : (table : Fields) (a : Answer) → IsTaken table a → IsWellFormed a
unfolding is_owner strip_prefix every
IsWellFormed-of_taken table a (owner, paths, hold) = (
  elim owner [ inl (s, e, f, g) ↦ ap is_owner g ∙ f | inr (f, g) ↦ ap is_owner g ],
  elim paths [ inl (s, e, f, g) ↦ inr (s, g, f) | inr (f, g) ↦ inl g ],
  elim hold [ inl (s, e, f, g) ↦ inr (ap is_window g ∙ f) | inr (f, g) ↦ inl g ],
)

IsWellFormed-of_default : (a : Answer) → IsDefault a → IsWellFormed a
unfolding is_owner strip_prefix every
IsWellFormed-of_default a (owner, paths, hold) = (ap is_owner owner, inl paths, inl hold)

pub IsWellFormed-of_from : (ci : Option Fields) (a : Answer) → IsFrom ci a → IsWellFormed a
IsWellFormed-of_from ci a (inl (table, e, f, taken)) = IsWellFormed-of_taken table a taken
IsWellFormed-of_from ci a (inr (h, f)) = IsWellFormed-of_default a h

pub off-IsFrom : (ci : Option Fields) (basis : String) → IsFrom ci (refuse "off" basis)
off-IsFrom ci basis = inr ((refl, refl, refl), differ "off" "act" refl)

pub error-IsFrom : (ci : Option Fields) (basis : String) → IsFrom ci (refuse "error" basis)
error-IsFrom ci basis = inr ((refl, refl, refl), differ "error" "act" refl)
