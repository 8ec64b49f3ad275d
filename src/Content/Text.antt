-- ===== src/Content/Text.antt =====
-- Text as the validation of contents uses it: `trim`, `split(/\s+/)` and `join` of JavaScript, `isUuid`
-- of apps/cms/server/utils/validation.ts. Characters stand for UTF-16 units.
use Prim.Native.Char.{Char, code}
use Prim.Native.String.{◌++◌ as ◌<>◌}
use boject_cms.Common.{
  ℕ, zero, suc, String, eqb, leb, Bool, true, false, ◌&&◌, ◌||◌, List, [], ◌∷◌, Option, some,
  if◌then◌else◌,
}
use boject_cms.Content.Json.{Json, str}

-- White space and line terminators of ECMAScript.
abbrev pub is_space : ℕ → Bool
is_space c =
    leb 9 c && leb c 13
    || eqb c 32
    || eqb c 160
    || eqb c 5760
    || leb 8192 c && leb c 8202
    || eqb c 8232
    || eqb c 8233
    || eqb c 8239
    || eqb c 8287
    || eqb c 12288
    || eqb c 65279

unfoldable pub trim_start : String → String
trim_start String.[] = ""
trim_start (String.◌∷◌ c cs) =
    let rest = trim_start cs in if is_space (code c) then rest else String.◌∷◌ c cs

-- A character in front of what is left, unless that is nothing and the character is a space.
abbrev before_trimmed : Char → String → String
before_trimmed c String.[] = if is_space (code c) then "" else String.◌∷◌ c ""
before_trimmed c (String.◌∷◌ d ds) = String.◌∷◌ c (String.◌∷◌ d ds)

unfoldable pub trim_end : String → String
trim_end String.[] = ""
trim_end (String.◌∷◌ c cs) = before_trimmed c (trim_end cs)

unfoldable pub trim : String → String
unfolding trim_start trim_end
trim s = trim_end (trim_start s)

-- `words.join(between)`.
unfoldable pub join : String → List String → String
join between [] = ""
join between (w ∷ []) = w
join between (w ∷ v ∷ ws) = w <> (between <> join between (v ∷ ws))

-- A character in front of the first word.
abbrev in_first : Char → List String → List String
in_first c [] = String.◌∷◌ c "" ∷ []
in_first c (w ∷ ws) = String.◌∷◌ c w ∷ ws

-- `text.split(/\s+/)`; the flag says that the character before was a space.
unfoldable pub split_spaces : Bool → String → List String
split_spaces _ String.[] = "" ∷ []
split_spaces after (String.◌∷◌ c cs) =
    let inside = split_spaces true cs in
    let word = in_first c (split_spaces false cs) in
    if is_space (code c) then if after then inside else "" ∷ inside else word

abbrev in_range : ℕ → ℕ → ℕ → Bool
in_range lo hi c = leb lo c && leb c hi

abbrev is_hex : ℕ → Bool
is_hex c = in_range b'0' b'9' c || in_range b'a' b'f' c || in_range b'A' b'F' c

abbrev is_variant : ℕ → Bool
is_variant c = eqb c b'8' || eqb c b'9' || eqb c b'a' || eqb c b'b' || eqb c b'A' || eqb c b'B'

-- A text that has one character of each class of the pattern.
unfoldable pub matches : List (ℕ → Bool) → String → Bool
matches [] String.[] = true
matches [] (String.◌∷◌ c cs) = false
matches (p ∷ ps) String.[] = false
matches (p ∷ ps) (String.◌∷◌ c cs) = p (code c) && matches ps cs

abbrev times : ℕ → (ℕ → Bool) → List (ℕ → Bool) → List (ℕ → Bool)
times zero p ps = ps
times (suc n) p ps = p ∷ times n p ps

abbrev uuid_re : List (ℕ → Bool)
uuid_re =
    let dash = eqb b'-' in
    times 8 is_hex (
      dash
      ∷ times 4 is_hex (
          dash
          ∷ in_range b'1' b'5'
          ∷ times 3 is_hex (dash ∷ is_variant ∷ times 3 is_hex (dash ∷ times 12 is_hex []))))

unfoldable pub is_uuid_text : String → Bool
unfolding matches
is_uuid_text s = matches uuid_re s

-- `isUuid(value)`.
abbrev pub is_uuid : {N : Type 0} → Option (Json N) → Bool
is_uuid (some (str s)) = is_uuid_text s
is_uuid _ = false
