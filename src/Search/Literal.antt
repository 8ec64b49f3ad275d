-- ===== src/Search/Literal.antt =====
-- apps/cms/server/utils/compileSearchFilter.ts: the literals of a clause.
use Prim.Native.Char.{code}
use Prim.Native.String.{◌++◌ as ◌<>◌}
use boject_cms.Common.{ℕ, String, eqb, Bool, if◌then◌else◌}

abbrev pub is_backslash : ℕ → Bool
is_backslash c = eqb c b'\\'

abbrev pub is_quote : ℕ → Bool
is_quote c = eqb c b'"'

-- `value.replace(/\\/g, '\\\\')`.
unfoldable pub double_backslashes : String → String
double_backslashes String.[] = ""
double_backslashes (String.◌∷◌ c cs) =
    let rest = double_backslashes cs in
    if is_backslash (code c) then String.◌∷◌ c (String.◌∷◌ c rest) else String.◌∷◌ c rest

-- `value.replace(/"/g, '\\"')`.
unfoldable pub escape_quotes : String → String
escape_quotes String.[] = ""
escape_quotes (String.◌∷◌ c cs) =
    let rest = escape_quotes cs in
    if is_quote (code c) then String.◌∷◌ "\\" (String.◌∷◌ c rest) else String.◌∷◌ c rest

unfoldable pub meili_literal : String → String
meili_literal value = "\"" <> (escape_quotes (double_backslashes value) <> "\"")
