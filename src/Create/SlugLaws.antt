-- ===== src/Create/SlugLaws.antt =====
-- apps/cms/utils/slugify.ts: what a key looks like, and that it is its own key.
use Prim.Native.Char.{Char, code}
use text.Mathlib.TextEquality.{Char-path}
use boject_cms.Common.{
  if-true, if-false, eqb_iff, ℕ, String, Bool, true, false, ◌&&◌, ◌||◌, not, ◌≡◌, refl, sym, ap,
  ◌∙◌, arith, if◌then◌else◌, Bool-cases, inl, inr,
}
use boject_cms.Create.Slug.{
  is_slug_char, is_dash, dash_runs, strip_front, before_stripped, strip_back, slugify,
}

-- Letters and digits in words with one dash between two; the flag says that no character of a word
-- stands right before. No word is empty.
unfoldable pub slug_after : Bool → String → Bool
slug_after between String.[] = not between
slug_after between (String.◌∷◌ c cs) =
    if is_slug_char (code c)
    then slug_after false cs
    else (is_dash (code c) && not between) && slug_after true cs

abbrev is_nothing : String → Bool
is_nothing String.[] = true
is_nothing (String.◌∷◌ c cs) = false

unfoldable pub is_slug : String → Bool
unfolding slug_after
is_slug s = is_nothing s || slug_after true s

-- The same, but a dash may stand at the end.
runs : Bool → String → Bool
runs between String.[] = true
runs between (String.◌∷◌ c cs) =
    if is_slug_char (code c)
    then runs false cs
    else (is_dash (code c) && not between) && runs true cs

runs-dash_runs : (after : Bool) (s : String) → runs after (dash_runs after s) ≡ true
unfolding runs dash_runs
runs-dash_runs after String.[] = refl
runs-dash_runs after (String.◌∷◌ c cs) =
    ground (arith, runs-dash_runs false cs, runs-dash_runs true cs)

runs-strip_front : (s : String) → runs false s ≡ true → runs true (strip_front s) ≡ true
unfolding runs strip_front
runs-strip_front String.[] h = refl
runs-strip_front (String.◌∷◌ c cs) h = ground arith

stripped_dash : (c : Char) → is_dash (code c) ≡ true → before_stripped c "" ≡ ""
stripped_dash c h = if-true (is_dash (code c)) _ _ h

stripped_word : (c : Char) → is_dash (code c) ≡ false → before_stripped c "" ≡ String.◌∷◌ c ""
stripped_word c h = if-false (is_dash (code c)) _ _ h

slug_char-is_dash : (n : ℕ) → is_slug_char n ≡ true → is_dash n ≡ false
slug_char-is_dash n h = ground arith

not_nothing :
    (d : Char) (ds : String)
    → runs true (String.◌∷◌ d ds) ≡ true
    → is_nothing (strip_back (String.◌∷◌ d ds)) ≡ false
unfolding runs strip_back
not_nothing d String.[] h =
    ap is_nothing (stripped_word d (slug_char-is_dash (code d) (ground arith)))
not_nothing d (String.◌∷◌ e es) h = refl

unless_nothing :
    (t : String) → (is_nothing t || slug_after false t) ≡ true → slug_after false t ≡ true
unfolding slug_after
unless_nothing String.[] h = refl
unless_nothing (String.◌∷◌ c cs) h = h

slug_after-strip_back :
    (between : Bool) (s : String)
    → runs between s ≡ true
    → (is_nothing (strip_back s) || slug_after between (strip_back s)) ≡ true
unfolding runs strip_back slug_after
slug_after-strip_back between String.[] h = refl
slug_after-strip_back between (String.◌∷◌ c String.[]) h = elim (Bool-cases (is_dash (code c))) [
  | inl dash ↦ ap (λ t. is_nothing t || slug_after between t) (stripped_dash c dash)
  | inr word ↦
      ap (λ t. is_nothing t || slug_after between t) (stripped_word c word)
      ∙ ground (arith, word, h)
]
slug_after-strip_back between (String.◌∷◌ c (String.◌∷◌ d ds)) h = ground (
  arith,
  slug_after-strip_back false (String.◌∷◌ d ds),
  slug_after-strip_back true (String.◌∷◌ d ds),
  not_nothing d ds,
  unless_nothing (strip_back (String.◌∷◌ d ds)),
)

dash_runs_self : (after : Bool) (s : String) → slug_after after s ≡ true → dash_runs after s ≡ s
unfolding dash_runs slug_after
dash_runs_self after String.[] h = refl
dash_runs_self after (String.◌∷◌ c cs) h = elim (Bool-cases (is_slug_char (code c))) [
  | inl word ↦
      if-true (is_slug_char (code c)) _ _ word
      ∙ ap (λ t. String.◌∷◌ c t) (dash_runs_self false cs (ground (arith, word, h)))
  | inr other ↦
      let dash : is_dash (code c) ≡ true = ground (arith, other, h) in
      let inside : after ≡ false = ground (arith, other, h) in
      if-false (is_slug_char (code c)) _ _ other
      ∙ (if-false after _ _ inside
          ∙ (ap (λ t. String.◌∷◌ "-" t) (dash_runs_self true cs (ground (arith, other, h)))
              ∙ ap (λ d. String.◌∷◌ d cs) (Char-path "-" c (sym ((eqb_iff (code c) b'-').0 dash)))))
]

strip_front_self : (s : String) → slug_after true s ≡ true → strip_front s ≡ s
unfolding strip_front slug_after
strip_front_self String.[] h = refl
strip_front_self (String.◌∷◌ c cs) h =
    if-false (is_dash (code c)) _ _ (slug_char-is_dash (code c) (ground arith))

strip_back_self : (between : Bool) (s : String) → slug_after between s ≡ true → strip_back s ≡ s
unfolding strip_back slug_after
strip_back_self between String.[] h = refl
strip_back_self between (String.◌∷◌ c String.[]) h =
    stripped_word c (slug_char-is_dash (code c) (ground arith))
strip_back_self between (String.◌∷◌ c (String.◌∷◌ d ds)) h =
    elim (Bool-cases (is_slug_char (code c))) [
      | inl word ↦
          ap (λ t. String.◌∷◌ c t)
            (strip_back_self false (String.◌∷◌ d ds) (ground (arith, word, h)))
      | inr other ↦
          ap (λ t. String.◌∷◌ c t)
            (strip_back_self true (String.◌∷◌ d ds) (ground (arith, other, h)))
    ]

weaker : (s : String) → slug_after true s ≡ true → slug_after false s ≡ true
unfolding slug_after
weaker String.[] h = refl
weaker (String.◌∷◌ c cs) h = ground arith

-- What looks like a key stays as it is.
steps_self :
    (s : String) → slug_after true s ≡ true → strip_back (strip_front (dash_runs false s)) ≡ s
steps_self s h =
    ap (λ t. strip_back (strip_front t)) (dash_runs_self false s (weaker s h))
    ∙ (ap strip_back (strip_front_self s h) ∙ strip_back_self true s h)

again :
    (s : String)
    → (is_nothing s || slug_after true s) ≡ true
    → strip_back (strip_front (dash_runs false s)) ≡ s
unfolding dash_runs strip_front strip_back
again String.[] h = refl
again (String.◌∷◌ c cs) h = steps_self (String.◌∷◌ c cs) h

-- The key of a title, if lower case leaves that key as it is, is empty, or words of small letters and
-- digits with one dash between two; and its own key is that key again.
pub slugify-is_slug :
    (to_lower_case : String → String) (title : String)
    → to_lower_case (slugify to_lower_case title) ≡ slugify to_lower_case title
    → (is_slug (slugify to_lower_case title) ≡ true)
      × (slugify to_lower_case (slugify to_lower_case title) ≡ slugify to_lower_case title)
unfolding is_slug slugify
slugify-is_slug to_lower_case title same =
    let key = strip_back (strip_front (dash_runs false (to_lower_case title))) in
    let shape : is_slug key ≡ true =
      slug_after-strip_back true (strip_front (dash_runs false (to_lower_case title)))
        (runs-strip_front _ (runs-dash_runs false (to_lower_case title))) in
    (shape, ap (λ t. strip_back (strip_front (dash_runs false t))) same ∙ again key shape)
