-- ===== src/CiOk/Reading.antt =====
-- What ci_ok.py reads from NEEDS.
use github.Base.{String, ◌≡◌, refl, ◌≢◌, ◌↔◌, inl, inr, false, Option, none, some}
use github.Base.{[], ◌∷◌, string_eq}
use mathlib.Core.Option.{some-injective}
use github.Base.{◌∙◌, ap, sym, Bool-cases}
use github.Json.{Value, Fields, no_fields, field, obj, str, find}
use github.Base.Text.{is_blank}
use github.NeedsPass.{JobResult, Needs}
use github.CiOk.{result_of, read_value, add_entry, read_needs}

-- What the value of a job says: it is an object whose result is a text, null or absent.
abbrev pub Says : Value → JobResult → Type 0
Says value JobResult.absent = (fs : Fields) × (value ≡ obj fs) × (find fs "result" ≡ none)
Says value JobResult.null = (fs : Fields) × (value ≡ obj fs) × (find fs "result" ≡ some Value.null)
Says value (JobResult.text s) = (fs : Fields) × (value ≡ obj fs) × (find fs "result" ≡ some (str s))

-- Each entry names a job, and its value says the result.
abbrev pub SayAll : Fields → Needs → Type 0
SayAll no_fields [] = Unit
SayAll no_fields (need ∷ needs) = ⊥
SayAll (field job value fs) [] = ⊥
SayAll (field job value fs) ((name, r) ∷ needs) =
    (name ≡ job) × (is_blank job ≡ false) × Says value r × SayAll fs needs

-- A nonempty object of such entries.
abbrev pub SaysNeeds : Value → Needs → Type 0
SaysNeeds v needs = (fs : Fields) × (v ≡ obj fs) × (fs ≢ no_fields) × SayAll fs needs

result_of-Says :
    (fs : Fields) (r : JobResult) → (result_of (find fs "result") ≡ some r) ↔ Says (obj fs) r
result_of-Says fs r = (by_value (find fs "result") r refl, by_result r)
  where
    by_value :
        (o : Option Value) (r : JobResult)
        → find fs "result" ≡ o
        → result_of o ≡ some r
        → Says (obj fs) r
    by_value none JobResult.absent f e = (fs, refl, f)
    by_value none JobResult.null f e = cc
    by_value none (JobResult.text s) f e = cc
    by_value (some Value.null) JobResult.null f e = (fs, refl, f)
    by_value (some Value.null) JobResult.absent f e = cc
    by_value (some Value.null) (JobResult.text s) f e = cc
    by_value (some (str t)) (JobResult.text s) f e =
        let same : t ≡ s = cc in (fs, refl, f ∙ ap (λ u. some (str u)) same)
    by_value (some (str t)) JobResult.null f e = cc
    by_value (some (str t)) JobResult.absent f e = cc
    by_value (some (Value.bool b)) r f e = cc
    by_value (some (Value.int n)) r f e = cc
    by_value (some (Value.real n s)) r f e = cc
    by_value (some (Value.arr vs)) r f e = cc
    by_value (some (obj gs)) r f e = cc

    same_fields : {gs : Fields} → obj fs ≡ obj gs → fs ≡ gs
    same_fields h = cc

    found :
        (gs : Fields) (o : Option Value)
        → obj fs ≡ obj gs
        → find gs "result" ≡ o
        → result_of (find fs "result") ≡ result_of o
    found gs o e f = ap result_of (ap (λ l. find l "result") (same_fields e) ∙ f)

    by_result : (r : JobResult) → Says (obj fs) r → result_of (find fs "result") ≡ some r
    by_result JobResult.absent (gs, e, f) = found gs none e f
    by_result JobResult.null (gs, e, f) = found gs (some Value.null) e f
    by_result (JobResult.text s) (gs, e, f) = found gs (some (str s)) e f

Says-obj : (v : Value) (r : JobResult) → Says v r → (fs : Fields) × (v ≡ obj fs)
Says-obj v JobResult.absent (fs, e, f) = (fs, e)
Says-obj v JobResult.null (fs, e, f) = (fs, e)
Says-obj v (JobResult.text s) (fs, e, f) = (fs, e)

read_value-Says : (v : Value) (r : JobResult) → (read_value v ≡ some r) ↔ Says v r
unfolding read_value
read_value-Says (obj fs) r = result_of-Says fs r
read_value-Says (Value.null) r = (λ e. cc, λ h. let x = Says-obj Value.null r h in cc (x.1))
read_value-Says (Value.bool b) r = (λ e. cc, λ h. let x = Says-obj (Value.bool b) r h in cc (x.1))
read_value-Says (Value.int n) r = (λ e. cc, λ h. let x = Says-obj (Value.int n) r h in cc (x.1))
read_value-Says (Value.real n s) r =
    (λ e. cc, λ h. let x = Says-obj (Value.real n s) r h in cc (x.1))
read_value-Says (str s) r = (λ e. cc, λ h. let x = Says-obj (str s) r h in cc (x.1))
read_value-Says (Value.arr vs) r = (λ e. cc, λ h. let x = Says-obj (Value.arr vs) r h in cc (x.1))

add_entry-some :
    (job : String) (o : Option JobResult) (more : Option Needs) (needs : Needs)
    → add_entry job o more ≡ some needs
    → (r : JobResult) × (rest : Needs) × (o ≡ some r)
      × (more ≡ some rest)
      × (is_blank job ≡ false)
      × ((job, r) ∷ rest ≡ needs)
add_entry-some job none more needs e = cc
add_entry-some job (some r) none needs e = cc
add_entry-some job (some r) (some rest) needs e = elim (Bool-cases (is_blank job)) [
  | inl blank ↦ absurd (nothing (rw blank at e))
  | inr named ↦ (r, rest, refl, refl, named, some-injective _ _ (rw named at e))
]
  where
    nothing : ◌≡◌ {A = Option Needs} none (some needs) → ⊥
    nothing g = cc

pub read_needs-SayAll :
    (fs : Fields) (needs : Needs) → (read_needs fs ≡ some needs) ↔ SayAll fs needs
unfolding read_needs
read_needs-SayAll no_fields [] = (λ e. tt, λ h. refl)
read_needs-SayAll no_fields (need ∷ needs) = (λ e. cc, λ h. absurd h)
read_needs-SayAll (field job value fs) [] = (
  λ e. let (r, rest, f, g, named, h) = add_entry-some job (read_value value) _ [] e in cc,
  λ h. absurd h,
)
read_needs-SayAll (field job value fs) ((name, r) ∷ needs) = (
  λ e.
      let (s, rest, f, g, named, h) =
        add_entry-some job (read_value value) (read_needs fs) ((name, r) ∷ needs) e in
      let same_name : name ≡ job = cc in
      let same_result : s ≡ r = cc in
      let same_rest : rest ≡ needs = cc in
      (
        same_name,
        named,
        (read_value-Says value r).0 (f ∙ ap some same_result),
        (read_needs-SayAll fs needs).0 (g ∙ ap some same_rest),
      ),
  λ (same, named, says, all).
      let f = (read_value-Says value r).1 says in
      let g = (read_needs-SayAll fs needs).1 all in
      rw (f, g, named) (ap (λ j. some ((j, r) ∷ needs)) (sym same)),
)
