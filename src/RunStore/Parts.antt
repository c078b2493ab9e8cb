-- ===== src/RunStore/Parts.antt =====
-- run-store/parts.py. `none` is an exception, with which the script exits with 1. Bytes are numbers.
use Prim.Native.Char.{code}
use mathlib.Core.Option.{map as map_option}
use github.Base.{
  ℕ, zero, suc, ◌+◌, ◌-◌, ◌/◌, min, String, ◌<>◌, Bool, true, false, not, ◌&&◌, ◌||◌, Option, none,
  some,
}
use github.Base.{
  List, [], ◌∷◌, ◌++◌, map, length, all, contains, ltb, leb, ◌==◌, string_eq, nat_eq, if◌then◌else◌,
}
use github.Base.Text.{is_blank}
use github.Base.Pieces.{read_all}
use github.Base.Decimal.{decimal}
use github.Json.{nat, Value, int, str, obj, Fields, field, no_fields, find, entries}

-- The first bytes of a file: MAGIC, MAGIC_V2 or others.
pub data Magic : Type 0 where
  v1 v2 other : Magic

-- A file that may be a manifest: its first bytes, and the rest, with what `json.loads` reads of it.
pub record Document : Type 0 where
  pub magic : Magic
  pub tail_bytes : ℕ
  pub tail : Option Value

-- The dictionary that `manifest` returns.
pub record Manifest : Type 0 where
  pub parts : ℕ
  pub size : ℕ
  pub sha256 : String
  pub generation : Option Value

abbrev pub most_parts : ℕ
most_parts = 10000

abbrev pub part_bytes_limit : ℕ
part_bytes_limit = 67108864

abbrev is_hex_digit : ℕ → Bool
is_hex_digit c = (leb 48 c && leb c 57) || (leb 97 c && leb c 102)

-- Whether the text is `n` characters of 0123456789abcdef.
unfoldable pub is_hex : ℕ → String → Bool
is_hex zero String.[] = true
is_hex zero (String.◌∷◌ c s) = false
is_hex (suc n) String.[] = false
is_hex (suc n) (String.◌∷◌ c s) = is_hex_digit (code c) && is_hex n s

-- `re.fullmatch(r'[0-9a-f]{32}', str(value))`: of what is not a text, only a number may match.
abbrev pub is_generation : Option Value → Bool
is_generation (some (str s)) = is_hex 32 s
is_generation (some (int (nat n))) = is_hex 32 (decimal n)
is_generation _ = false

abbrev pub expected_fields : Magic → List String
expected_fields v2 = "parts" ∷ "size" ∷ "sha256" ∷ "generation" ∷ []
expected_fields _ = "parts" ∷ "size" ∷ "sha256" ∷ []

-- `set(value) == fields`
abbrev pub has_fields : List String → Fields → Bool
has_fields expected fs =
    let keys = map (λ entry. entry.0) (entries fs) in
    all (contains expected) keys && all (contains keys) expected

abbrev pub is_v2 : Magic → Bool
is_v2 v2 = true
is_v2 _ = false

-- An integer from 1 to the bound; `type(…) is int` leaves out the Booleans.
unfoldable pub integer_to : ℕ → Option Value → Option ℕ
integer_to bound (some (int (nat n))) = if leb 1 n && leb n bound then some n else none
integer_to bound _ = none

unfoldable pub digest_in : Option Value → Option String
digest_in (some (str s)) = if is_hex 64 s then some s else none
digest_in _ = none

-- `min(10000, math.ceil(maximum / part_bytes))`
abbrev pub parts_bound : ℕ → ℕ → ℕ
parts_bound maximum part_bytes = min most_parts ((maximum + part_bytes - 1) / part_bytes)

abbrev pub assemble : Option ℕ → Option ℕ → Option String → Option Value → Option Manifest
assemble (some parts) (some size) (some sha256) generation =
    some (record { parts = parts; size = size; sha256 = sha256; generation = generation })
assemble _ _ _ _ = none

-- The checks on the JSON value.
unfoldable pub manifest_value : Magic → ℕ → ℕ → Value → Option Manifest
unfolding integer_to digest_in
manifest_value magic maximum part_bytes (obj fs) =
    if not (has_fields (expected_fields magic) fs)
    then none
    else if is_v2 magic && not (is_generation (find fs "generation"))
    then none
    else assemble (integer_to (parts_bound maximum part_bytes) (find fs "parts"))
        (integer_to maximum (find fs "size")) (digest_in (find fs "sha256")) (find fs "generation")
manifest_value magic maximum part_bytes _ = none

-- A manifest, or Python's None for a file that is none, or an exception.
pub data Inspected : Type 0 where
  found : Manifest → Inspected
  no_manifest invalid : Inspected

abbrev pub of_option : Option Manifest → Inspected
of_option none = invalid
of_option (some m) = found m

abbrev pub inspect_tail : Magic → ℕ → ℕ → Option Value → Inspected
inspect_tail magic maximum part_bytes none = invalid
inspect_tail magic maximum part_bytes (some value) =
    of_option (manifest_value magic maximum part_bytes value)

abbrev pub inspect_magic : Magic → ℕ → Option Value → ℕ → ℕ → Inspected
inspect_magic other tail_bytes tail maximum part_bytes = no_manifest
inspect_magic magic tail_bytes tail maximum part_bytes =
    if ltb 4096 tail_bytes then invalid else inspect_tail magic maximum part_bytes tail

unfoldable pub manifest : Document → ℕ → ℕ → Inspected
unfolding manifest_value
manifest doc maximum part_bytes = inspect_magic doc.magic doc.tail_bytes doc.tail maximum part_bytes

-- The checks of main on its arguments.
abbrev pub valid_limits : String → ℕ → ℕ → Bool
valid_limits generation maximum part_bytes =
    (is_blank generation || is_hex 32 generation)
    && leb 1 maximum
    && leb 1 part_bytes
    && leb part_bytes part_bytes_limit

-- The `while True` of split over what it reads: the parts that it writes.
unfoldable pub split_parts : ℕ → List (List ℕ) → ℕ → ℕ → Option (List (List ℕ))
split_parts maximum [] size parts = some []
split_parts maximum (piece ∷ rest) size parts =
    let others = split_parts maximum rest (size + length piece) (parts + 1) in
    if ltb maximum (size + length piece) || leb most_parts parts
    then none
    else map_option (λ l. piece ∷ l) others

-- What split leaves in the directory.
pub record Store : Type 0 where
  pub parts : List (List ℕ)
  pub manifest : Document
  pub suffix : String

abbrev pub suffix_for : String → String
suffix_for generation =
    if is_blank generation then ".part-" else ".parts-" <> (generation <> ".part-")

-- The first bytes and the last field of a manifest, by whether there is no generation.
abbrev pub magic_for : Bool → Magic
magic_for true = v1
magic_for false = v2

abbrev pub generation_fields : Bool → String → Fields
generation_fields true generation = no_fields
generation_fields false generation = field "generation" (str generation) no_fields

-- Python's hashlib and json: the digest of bytes, and the length of a value's text.
module _ (digest : List ℕ → String) (encoded : Value → ℕ) where
  abbrev pub manifest_fields : ℕ → List ℕ → String → Fields
  manifest_fields parts body generation = field "parts" (int (nat parts)) (
      field "size" (int (nat (length body)))
        (field "sha256" (str (digest body)) (generation_fields (is_blank generation) generation)))

  abbrev pub write_manifest : ℕ → List ℕ → String → Document
  write_manifest parts body generation =
      let value = obj (manifest_fields parts body generation) in
      record {
        magic = magic_for (is_blank generation);
        tail_bytes = encoded value + 1;
        tail = some value;
      }

  abbrev pub store_of : List ℕ → String → List (List ℕ) → Store
  store_of body generation parts = record {
    parts = parts;
    manifest = write_manifest (length parts) body generation;
    suffix = suffix_for generation;
  }

  -- `main` in the mode split.
  unfoldable pub split : String → ℕ → ℕ → List ℕ → Option Store
  unfolding split_parts
  split generation maximum part_bytes body =
      if valid_limits generation maximum part_bytes
      then map_option (store_of body generation)
          (split_parts maximum (read_all part_bytes body) 0 0)
      else none

-- What join has written, with its size.
abbrev pub Joined : Type 0
Joined = ℕ × List ℕ

-- The inner loop of join over the pieces of a part, of 1024 * 1024 bytes each.
unfoldable pub join_chunks : ℕ → ℕ → List (List ℕ) → ℕ → ℕ → List ℕ → Option Joined
join_chunks part_bytes declared [] part_size size written = some (size, written)
join_chunks part_bytes declared (piece ∷ rest) part_size size written =
    let after =
      join_chunks part_bytes declared rest (part_size + length piece) (size + length piece)
        (written ++ piece) in
    if ltb part_bytes (part_size + length piece) || ltb declared (size + length piece)
    then none
    else after

-- A part that is read and joined to what is written.
unfoldable pub join_part : ℕ → ℕ → Option (List ℕ) → Joined → Option Joined
unfolding join_chunks
join_part part_bytes declared none joined = none
join_part part_bytes declared (some part) (size, written) =
    join_chunks part_bytes declared (read_all 1048576 part) 0 size written

-- The rest of the loop, unless an exception ends it.
abbrev pub go_on : Option Joined → (Joined → Option Joined) → Option Joined
go_on none rest = none
go_on (some joined) rest = rest joined

-- `for index in range(value['parts'])`, over the files of the directory.
unfoldable pub join_parts : (ℕ → Option (List ℕ)) → ℕ → ℕ → ℕ → ℕ → Joined → Option Joined
unfolding join_part
join_parts files part_bytes declared zero index joined = some joined
join_parts files part_bytes declared (suc left) index joined =
    go_on (join_part part_bytes declared (files index) joined)
      (join_parts files part_bytes declared left (index + 1))

module _ (digest : List ℕ → String) where
  abbrev pub check_joined : Manifest → Option Joined → Option (List ℕ)
  check_joined value none = none
  check_joined value (some (size, written)) =
      if size == value.size && digest written == value.sha256 then some written else none

  unfoldable pub join_found : ℕ → (ℕ → Option (List ℕ)) → Inspected → Option (List ℕ)
  unfolding join_parts
  join_found part_bytes files (found value) =
      check_joined value (join_parts files part_bytes value.size value.parts 0 (0, []))
  join_found part_bytes files _ = none

  -- `main` in the mode join: the bundle, which is unlinked on an exception.
  unfoldable pub join : String → ℕ → ℕ → Document → (ℕ → Option (List ℕ)) → Option (List ℕ)
  unfolding join_found
  join generation maximum part_bytes doc files =
      if valid_limits generation maximum part_bytes
      then join_found part_bytes files (manifest doc maximum part_bytes)
      else none
