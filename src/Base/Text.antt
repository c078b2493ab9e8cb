-- ===== src/Base/Text.antt =====
-- Python's `str` methods that the program uses, over the native texts.
use Prim.Native.Nat.{ℕ, zero, suc, ◌+◌}
use Prim.Native.Char.{Char, code}
use Prim.Native.String.{String, ◌++◌}
use mathlib.Core.Path.{◌≡◌, refl}
use mathlib.Core.Bool.{Bool, true, false, ◌&&◌, ◌||◌}
use mathlib.Core.List.{List, [], ◌∷◌}
use mathlib.Core.Option.{Option, none, some}
use text.Mathlib.Text.{◌==◌ as str_eq}
use github.Base.Tests.{leb, eqb, if◌then◌else◌}

-- `bool(s)` of a text, negated
abbrev pub is_blank : String → Bool
is_blank String.[] = true
is_blank (String.◌∷◌ c s) = false

push : Char → List String → List String
push c [] = String.◌∷◌ c String.[] ∷ []
push c (w ∷ ws) = String.◌∷◌ c w ∷ ws

-- `s.split(chr(sep))`
unfoldable pub split : ℕ → String → List String
unfolding push
split sep String.[] = "" ∷ []
split sep (String.◌∷◌ c s) =
    let rest = split sep s in if eqb (code c) sep then "" ∷ rest else push c rest

-- `sep.join(words)`
unfoldable pub join : String → List String → String
join sep [] = ""
join sep (w ∷ []) = w
join sep (w ∷ v ∷ ws) = w ++ (sep ++ join sep (v ∷ ws))

-- `s.replace(chr(old), new)`
unfoldable pub replace : ℕ → String → String → String
replace old new String.[] = ""
replace old new (String.◌∷◌ c s) =
    let rest = replace old new s in if eqb (code c) old then new ++ rest else String.◌∷◌ c rest

-- What `str.isspace` accepts.
unfoldable pub is_space : ℕ → Bool
is_space c =
    (leb 9 c && leb c 13)
    || (leb 28 c && leb c 32)
    || eqb c 133
    || eqb c 160
    || eqb c 5760
    || (leb 8192 c && leb c 8202)
    || eqb c 8232
    || eqb c 8233
    || eqb c 8239
    || eqb c 8287
    || eqb c 12288

unfoldable pub lstrip : String → String
unfolding is_space
lstrip String.[] = ""
lstrip (String.◌∷◌ c s) = let rest = lstrip s in if is_space (code c) then rest else String.◌∷◌ c s

unfoldable pub rstrip : String → String
unfolding is_space
rstrip String.[] = ""
rstrip (String.◌∷◌ c s) =
    let rest = rstrip s in if is_space (code c) && is_blank rest then "" else String.◌∷◌ c rest

-- `s.strip()`
unfoldable pub strip : String → String
unfolding lstrip rstrip
strip s = rstrip (lstrip s)

-- `s.startswith(prefix)`
unfoldable pub starts_with : String → String → Bool
starts_with s String.[] = true
starts_with String.[] (String.◌∷◌ d prefix) = false
starts_with (String.◌∷◌ c s) (String.◌∷◌ d prefix) = eqb (code c) (code d) && starts_with s prefix

-- The code of a letter in lower case, for ASCII capitals.
abbrev pub small : ℕ → ℕ
small c = if leb 65 c && leb c 90 then c + 32 else c

-- `s.lower().startswith(prefix)`, for a prefix of ASCII letters but i and k: no other letter has
-- another capital.
unfoldable pub lower_starts_with : String → String → Bool
lower_starts_with s String.[] = true
lower_starts_with String.[] (String.◌∷◌ d prefix) = false
lower_starts_with (String.◌∷◌ c s) (String.◌∷◌ d prefix) =
    eqb (small (code c)) (code d) && lower_starts_with s prefix

-- `s[len(prefix):]` where `s` starts with the prefix
unfoldable pub strip_prefix : String → String → Option String
strip_prefix s String.[] = some s
strip_prefix String.[] (String.◌∷◌ d prefix) = none
strip_prefix (String.◌∷◌ c s) (String.◌∷◌ d prefix) =
    let rest = strip_prefix s prefix in if eqb (code c) (code d) then rest else none

-- `s.endswith(suffix)` for a suffix that `s` is longer than
unfoldable pub ends_longer : String → String → Bool
ends_longer String.[] suffix = false
ends_longer (String.◌∷◌ c s) suffix = str_eq s suffix || ends_longer s suffix

-- Whether a test holds of the code of every character.
unfoldable pub every : (ℕ → Bool) → String → Bool
every test String.[] = true
every test (String.◌∷◌ c s) = test (code c) && every test s

-- `len(s)`
unfoldable pub text_length : String → ℕ
text_length String.[] = 0
text_length (String.◌∷◌ c s) = suc (text_length s)

-- `s[:n]`
unfoldable pub cut : ℕ → String → String
cut zero s = ""
cut (suc n) String.[] = ""
cut (suc n) (String.◌∷◌ c s) = String.◌∷◌ c (cut n s)

-- Whether the text begins with a word.
begins_word : String → Bool
unfolding is_space
begins_word String.[] = false
begins_word (String.◌∷◌ c s) = if is_space (code c) then false else true

-- `s.split()`: the words between whitespace.
unfoldable pub words : String → List String
unfolding push is_space begins_word
words String.[] = []
words (String.◌∷◌ c s) =
    let rest = words s in
    if is_space (code c)
    then rest
    else if begins_word s
    then push c rest
    else String.◌∷◌ c String.[] ∷ rest

-- `re.search(r"[\x00-\x1f\x7f]", s)`, of one character
abbrev is_control : ℕ → Bool
is_control c = leb c 31 || eqb c 127

unfoldable pub has_control : String → Bool
has_control String.[] = false
has_control (String.◌∷◌ c s) = is_control (code c) || has_control s

-- `re.sub(r"[\x00-\x1f\x7f]", " ", s)`
unfoldable pub blank_controls : String → String
blank_controls String.[] = ""
blank_controls (String.◌∷◌ c s) =
    let rest = blank_controls s in if is_control (code c) then " " ++ rest else String.◌∷◌ c rest

abbrev is_break : ℕ → Bool
is_break c =
    (leb 10 c && leb c 13) || (leb 28 c && leb c 30) || eqb c 133 || eqb c 8232 || eqb c 8233

-- Whether a line feed follows a carriage return, which end one line together.
pairs_with : ℕ → String → Bool
pairs_with c String.[] = false
pairs_with c (String.◌∷◌ d s) = eqb c 13 && eqb (code d) 10

-- `s.splitlines()`
unfoldable pub split_lines : String → List String
unfolding push pairs_with
split_lines String.[] = []
split_lines (String.◌∷◌ c s) =
    let rest = split_lines s in
    if is_break (code c) then if pairs_with (code c) s then rest else "" ∷ rest else push c rest

-- `s.partition(chr(sep))`, the texts before and after the first separator
unfoldable pub partition : ℕ → String → String × String
partition sep String.[] = ("", "")
partition sep (String.◌∷◌ c s) =
    let rest = partition sep s in
    if eqb (code c) sep then ("", s) else (String.◌∷◌ c rest.0, rest.1)

-- The text after the last occurrence of a text that is not empty, if it occurs.
unfoldable pub after_last : String → String → Option String
unfolding strip_prefix
after_last sep String.[] = none
after_last sep (String.◌∷◌ c s) =
    let found = after_last sep s in
    elim found [ none ↦ strip_prefix (String.◌∷◌ c s) sep | some rest ↦ some rest ]

-- `s.endswith(chr(last))`
unfoldable pub ends_in : ℕ → String → Bool
ends_in last String.[] = false
ends_in last (String.◌∷◌ c s) = (eqb (code c) last && is_blank s) || ends_in last s

-- The codes of the characters.
unfoldable pub codes : String → List ℕ
codes String.[] = []
codes (String.◌∷◌ c s) = code c ∷ codes s

-- `s.lstrip(chars)` and `s.strip(chars)`, for the characters that pass a test
unfoldable pub lstrip_of : (ℕ → Bool) → String → String
lstrip_of test String.[] = ""
lstrip_of test (String.◌∷◌ c s) =
    let rest = lstrip_of test s in if test (code c) then rest else String.◌∷◌ c s

unfoldable pub rstrip_of : (ℕ → Bool) → String → String
rstrip_of test String.[] = ""
rstrip_of test (String.◌∷◌ c s) =
    let rest = rstrip_of test s in if test (code c) && is_blank rest then "" else String.◌∷◌ c rest

unfoldable pub strip_of : (ℕ → Bool) → String → String
unfolding lstrip_of rstrip_of
strip_of test s = rstrip_of test (lstrip_of test s)

-- `chr(c) in s`
unfoldable pub has_char : ℕ → String → Bool
has_char c String.[] = false
has_char c (String.◌∷◌ d s) = eqb (code d) c || has_char c s

split_test : split b',' "a,,b" ≡ "a" ∷ "" ∷ "b" ∷ []
unfolding split
split_test = refl

strip_test : strip " a b " ≡ "a b"
unfolding strip
strip_test = refl

words_test : words "  a bc  d " ≡ "a" ∷ "bc" ∷ "d" ∷ []
unfolding words
words_test = refl

lines_test : split_lines "a\r\n\nb" ≡ "a" ∷ "" ∷ "b" ∷ []
unfolding split_lines
lines_test = refl

after_last_test : after_last " / " "verify / rust / x" ≡ some "x"
unfolding after_last
after_last_test = refl
