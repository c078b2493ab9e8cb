-- ===== src/RunStore/Written.antt =====
-- The manifest that split writes is one that manifest accepts.
use github.Base.{ℕ, ◌≤◌, ◌<◌, ◌≡◌, refl, String, Bool, true, false, ◌||◌, Option, none, some}
use github.Base.{List, arith, length, ltb, string_eq}
use github.Base.Text.{is_blank}
use github.Json.{Value, field, obj, int, nat, str, find, entries}
use github.RunStore.Parts.{
  Manifest, is_hex, integer_to, digest_in, parts_bound, manifest_value, found, inspect_magic,
  manifest,
}
use github.RunStore.Parts.{manifest_fields, generation_fields, magic_for, write_manifest}

module _ (digest : List ℕ → String) (encoded : Value → ℕ) where
  abbrev generation_for : Bool → String → Option Value
  generation_for true generation = none
  generation_for false generation = some (str generation)

  abbrev pub generation_of : String → Option Value
  generation_of generation = generation_for (is_blank generation) generation

  abbrev pub declared : ℕ → List ℕ → String → Manifest
  declared parts body generation = record {
    parts = parts;
    size = length body;
    sha256 = digest body;
    generation = generation_of generation;
  }

module _ (digest : List ℕ → String) (encoded : Value → ℕ) (maximum part_bytes parts : ℕ)
    (body : List ℕ) (few : 0 < parts) (bound : parts ≤ parts_bound maximum part_bytes)
    (nonempty : 0 < length body) (small : length body ≤ maximum)
    (hex : is_hex 64 (digest body) ≡ true) where
  in_range : (n most : ℕ) → 0 < n → n ≤ most → integer_to most (some (int (nat n))) ≡ some n
  unfolding integer_to
  in_range n most p q = ground arith

  is_digest : digest_in (some (str (digest body))) ≡ some (digest body)
  unfolding digest_in
  is_digest = rw hex refl

  abbrev value_for : Bool → String → Value
  value_for blank generation = obj (
      field "parts" (int (nat parts)) (
        field "size" (int (nat (length body)))
          (field "sha256" (str (digest body)) (generation_fields blank generation))))

  accepted :
      (blank : Bool) (generation : String)
      → (blank || is_hex 32 generation) ≡ true
      → manifest_value (magic_for blank) maximum part_bytes (value_for blank generation)
        ≡ some (record {
          parts = parts;
          size = length body;
          sha256 = digest body;
          generation = generation_for digest encoded blank generation;
        })
  unfolding manifest_value find entries
  accepted true generation h =
      rw (in_range parts _ few bound, in_range (length body) maximum nonempty small, is_digest) refl
  accepted false generation h =
      let good : is_hex 32 generation ≡ true = ground arith in
      rw
        (good, in_range parts _ few bound, in_range (length body) maximum nonempty small, is_digest)
        refl

  inspected :
      (blank : Bool) (tail_bytes : ℕ) (value : Value) (m : Manifest)
      → tail_bytes ≤ 4096
      → manifest_value (magic_for blank) maximum part_bytes value ≡ some m
      → inspect_magic (magic_for blank) tail_bytes (some value) maximum part_bytes ≡ found m
  inspected true n value m h e = let brief : ltb 4096 n ≡ false = ground arith in rw (brief, e) refl
  inspected false n value m h e =
      let brief : ltb 4096 n ≡ false = ground arith in rw (brief, e) refl

  pub manifest-written :
      (generation : String)
      → (is_blank generation || is_hex 32 generation) ≡ true
      → encoded (obj (manifest_fields digest encoded parts body generation)) < 4096
      → manifest (write_manifest digest encoded parts body generation) maximum part_bytes
        ≡ found (declared digest encoded parts body generation)
  unfolding manifest
  manifest-written generation h compact =
      inspected (is_blank generation) _ (value_for (is_blank generation) generation) _ (omega arith)
        (accepted (is_blank generation) generation h)
