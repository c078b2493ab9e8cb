-- ===== src/MainRedGate/Prefixes.antt =====
-- What `startswith` tests, with the prefix as written and in any case, behind white space.
use Prim.Native.String.{String}
use Prim.Native.Char.{code}
use github.Base.{
  ℕ, ◌+◌, ◌≤◌, ◌≡◌, ◌↔◌, ◌⊎◌, refl, ap, sym, ◌∙◌, inl, inr, true, false, ◌&&◌, List, [], ◌∷◌, ◌++◌,
  All, arith, Bool-cases, eqb,
}
use github.Base.Text.{
  codes, starts_with, lower_starts_with, small, is_space, is_blank, lstrip, rstrip, strip,
}

-- A text that begins with another.
abbrev pub Begins : String → String → Type 0
Begins s prefix = (rest : List ℕ) × (codes s ≡ codes prefix ++ rest)

pub starts_with_iff : (s prefix : String) → (starts_with s prefix ≡ true) ↔ Begins s prefix
unfolding starts_with codes
starts_with_iff s String.[] = (λ e. (codes s, refl), λ h. refl)
starts_with_iff String.[] (String.◌∷◌ d prefix) = (λ e. cc, λ (rest, e). cc)
starts_with_iff (String.◌∷◌ c s) (String.◌∷◌ d prefix) =
    let (into, back) = starts_with_iff s prefix in
    (
      λ e.
          let same : code c ≡ code d = ground arith in
          let (rest, f) = into (ground arith) in (rest, λ i. same i ∷ f i),
      λ (rest, e).
          let same : code c ≡ code d = cc in
          let tail : codes s ≡ codes prefix ++ rest = cc in
          let h = back (rest, tail) in ground arith,
    )

-- A text of small letters.
abbrev pub IsSmall : String → Type 0
IsSmall String.[] = Unit
IsSmall (String.◌∷◌ d word) = (97 ≤ code d) × (code d ≤ 122) × IsSmall word

-- Letters that spell a word of small letters, each small or a capital.
abbrev pub Spells : String → List ℕ → Type 0
Spells String.[] letters = letters ≡ []
Spells (String.◌∷◌ d word) letters =
    (c : ℕ) × (rest : List ℕ) × (letters ≡ c ∷ rest)
    × ((c ≡ code d) ⊎ (c + 32 ≡ code d))
    × Spells word rest

abbrev BeginsAnyCase : String → String → Type 0
BeginsAnyCase s word =
    (letters : List ℕ) × (rest : List ℕ) × (codes s ≡ letters ++ rest) × Spells word letters

small_iff : (c d : ℕ) → 97 ≤ d → d ≤ 122 → (eqb (small c) d ≡ true) ↔ ((c ≡ d) ⊎ (c + 32 ≡ d))
small_iff c d p q = (λ e. ground arith, λ h. ground arith)

lower_starts_with_iff :
    (s word : String) → IsSmall word → (lower_starts_with s word ≡ true) ↔ BeginsAnyCase s word
unfolding lower_starts_with codes
lower_starts_with_iff s String.[] h = (λ e. ([], codes s, refl, refl), λ k. refl)
lower_starts_with_iff String.[] (String.◌∷◌ d word) h = (
  λ e. cc,
  λ (letters, rest, e, (c, more, f, g, k)).
      let whole : [] ≡ c ∷ (more ++ rest) = e ∙ ap (λ l. l ++ rest) f in cc,
)
lower_starts_with_iff (String.◌∷◌ c s) (String.◌∷◌ d word) (p, q, h) =
    let (into, back) = lower_starts_with_iff s word h in
    let (to, from) = small_iff (code c) (code d) p q in
    (
      λ e.
          let (letters, rest, f, g) = into (ground arith) in
          (
            code c ∷ letters,
            rest,
            ap (λ l. code c ∷ l) f,
            (code c, letters, refl, to (ground arith), g),
          ),
      λ (letters, rest, e, (x, more, f, g, k)).
          let whole : code c ∷ codes s ≡ x ∷ (more ++ rest) = e ∙ ap (λ l. l ++ rest) f in
          let same : x ≡ code c = cc in
          let tail : codes s ≡ more ++ rest = cc in
          let here = from (as_code same g) in
          let later = back (more, rest, tail, k) in ground arith,
    )
  where
    as_code :
        {x : ℕ}
        → x ≡ code c
        → (x ≡ code d) ⊎ (x + 32 ≡ code d)
        → (code c ≡ code d) ⊎ (code c + 32 ≡ code d)
    as_code e h = ground arith

-- White space is no letter.
space-not_small : (c d : ℕ) → 97 ≤ d → d ≤ 122 → is_space c ≡ true → eqb (small c) d ≡ false
unfolding is_space
space-not_small c d p q e = ground arith

-- What follows a word does not matter, white space included.
lower_starts_with-rstrip :
    (s word : String) → IsSmall word → lower_starts_with (rstrip s) word ≡ lower_starts_with s word
unfolding lower_starts_with rstrip
lower_starts_with-rstrip s String.[] h = refl
lower_starts_with-rstrip String.[] (String.◌∷◌ d word) h = refl
lower_starts_with-rstrip (String.◌∷◌ c s) (String.◌∷◌ d word) (p, q, h) =
    elim (Bool-cases (is_space (code c) && is_blank (rstrip s))) [
      | inl gone ↦
          let other = space-not_small (code c) (code d) p q (ground arith) in rw (gone, other) refl
      | inr stays ↦
          rw stays
            (ap (λ b. eqb (small (code c)) (code d) && b) (lower_starts_with-rstrip s word h))
    ]

-- A text that begins with a word in any case, behind white space.
abbrev pub BeginsStripped : String → String → Type 0
BeginsStripped s word =
    (lead : List ℕ) × (letters : List ℕ) × (rest : List ℕ) × (codes s ≡ lead ++ (letters ++ rest))
    × All (λ c. is_space c ≡ true) lead
    × Spells word letters

lstrip_iff :
    (s word : String)
    → IsSmall word
    → is_blank word ≡ false
    → (lower_starts_with (lstrip s) word ≡ true) ↔ BeginsStripped s word
unfolding lower_starts_with lstrip codes
lstrip_iff s String.[] h n = cc
lstrip_iff String.[] (String.◌∷◌ d word) h n =
    (λ e. cc, λ (lead, letters, rest, e, all, k). absurd (no_letters lead letters rest e k))
  where
    no_letters :
        (lead letters rest : List ℕ)
        → [] ≡ lead ++ (letters ++ rest)
        → Spells (String.◌∷◌ d word) letters
        → ⊥
    no_letters (x ∷ lead) letters rest e k = cc
    no_letters [] letters rest e (c, more, f, g, k) =
        let whole : [] ≡ c ∷ (more ++ rest) = e ∙ ap (λ l. l ++ rest) f in cc
lstrip_iff (String.◌∷◌ c s) (String.◌∷◌ d word) h n = elim (Bool-cases (is_space (code c))) [
  | inl space ↦
      let (into, back) = lstrip_iff s (String.◌∷◌ d word) h n in
      rw space (
        λ e.
            let (lead, letters, rest, f, all, k) = into e in
            (code c ∷ lead, letters, rest, ap (λ l. code c ∷ l) f, (space, all), k),
        λ (lead, letters, rest, f, all, k). back (behind space lead letters rest f all k),
      )
  | inr letter ↦
      let (into, back) = lower_starts_with_iff (String.◌∷◌ c s) (String.◌∷◌ d word) h in
      rw letter (
        λ e. let (letters, rest, f, k) = into e in ([], letters, rest, f, tt, k),
        λ (lead, letters, rest, f, all, k).
            back (letters, rest, no_lead letter lead letters rest f all, k),
      )
]
  where
    behind :
        is_space (code c) ≡ true
        → (lead letters rest : List ℕ) → code c ∷ codes s ≡ lead ++ (letters ++ rest)
        → All (λ x. is_space x ≡ true) lead
        → Spells (String.◌∷◌ d word) letters
        → BeginsStripped s (String.◌∷◌ d word)
    behind space (x ∷ lead) letters rest f all k =
        let tail : codes s ≡ lead ++ (letters ++ rest) = cc in (lead, letters, rest, tail, all.1, k)
    behind space [] letters rest f all (x, more, g, l, k) =
        let whole : code c ∷ codes s ≡ x ∷ (more ++ rest) = f ∙ ap (λ l. l ++ rest) g in
        let same : x ≡ code c = cc in
        let other = space-not_small (code c) (code d) h.0 h.1 space in
        absurd (ground (arith, (small_iff x (code d) h.0 h.1).1 l, same))

    no_lead :
        is_space (code c) ≡ false
        → (lead letters rest : List ℕ) → code c ∷ codes s ≡ lead ++ (letters ++ rest)
        → All (λ x. is_space x ≡ true) lead
        → code c ∷ codes s ≡ letters ++ rest
    no_lead letter [] letters rest f all = f
    no_lead letter (x ∷ lead) letters rest f all =
        let same : x ≡ code c = cc in
        let space : is_space (code c) ≡ true = ap is_space (sym same) ∙ all.0 in
        absurd (ground arith)

pub BeginsStripped-iff :
    (s word : String)
    → IsSmall word
    → is_blank word ≡ false
    → (lower_starts_with (strip s) word ≡ true) ↔ BeginsStripped s word
unfolding strip
BeginsStripped-iff s word h n =
    let same = lower_starts_with-rstrip (lstrip s) word h in
    let (into, back) = lstrip_iff s word h n in (λ e. into (sym same ∙ e), λ k. same ∙ back k)
