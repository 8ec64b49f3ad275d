-- ===== src/Create/Slug.antt =====
-- apps/cms/utils/slugify.ts: the key of an entry from its title. `toLowerCase` is a parameter.
use Prim.Native.Char.{Char, code}
use boject_cms.Common.{ℕ, String, eqb, leb, Bool, true, false, ◌&&◌, ◌||◌, if◌then◌else◌}

-- `[a-z0-9]`.
abbrev pub is_slug_char : ℕ → Bool
is_slug_char c = leb b'a' c && leb c b'z' || leb b'0' c && leb c b'9'

abbrev pub is_dash : ℕ → Bool
is_dash c = eqb c b'-'

-- `replace(/[^a-z0-9]+/g, '-')`; the flag says that a run of other characters stands before.
unfoldable pub dash_runs : Bool → String → String
dash_runs _ String.[] = ""
dash_runs after (String.◌∷◌ c cs) =
    let word = String.◌∷◌ c (dash_runs false cs) in
    let run = dash_runs true cs in
    if is_slug_char (code c) then word else if after then run else String.◌∷◌ "-" run

-- `replace(/^-|-$/g, '')`.
unfoldable pub strip_front : String → String
strip_front String.[] = ""
strip_front (String.◌∷◌ c cs) = if is_dash (code c) then cs else String.◌∷◌ c cs

-- A character in front of what is left, unless that is nothing and the character is a dash.
abbrev pub before_stripped : Char → String → String
before_stripped c String.[] = if is_dash (code c) then "" else String.◌∷◌ c ""
before_stripped c (String.◌∷◌ d ds) = String.◌∷◌ c (String.◌∷◌ d ds)

-- Removes the last character, if it is a dash.
unfoldable pub strip_back : String → String
strip_back String.[] = ""
strip_back (String.◌∷◌ c String.[]) = before_stripped c ""
strip_back (String.◌∷◌ c (String.◌∷◌ d ds)) = String.◌∷◌ c (strip_back (String.◌∷◌ d ds))

unfoldable pub slugify : (String → String) → String → String
unfolding dash_runs strip_front strip_back
slugify to_lower_case text = strip_back (strip_front (dash_runs false (to_lower_case text)))
