-- ===== src/Webhook/Backoff.antt =====
-- apps/cms/server/utils/webhookBackoff.ts: the retry schedule.
use boject_cms.Common.{ℕ, ◌-◌, ◌||◌, List, [], ◌∷◌, Option, none, get_elem?, ltb, if◌then◌else◌}

abbrev pub max_attempts : ℕ
max_attempts = 6

abbrev pub schedule_ms : List ℕ
schedule_ms = 1000 ∷ 10000 ∷ 60000 ∷ 600000 ∷ 3600000 ∷ 21600000 ∷ []

unfoldable pub backoff_ms : ℕ → Option ℕ
backoff_ms attempts =
    if ltb attempts 1 || ltb max_attempts attempts
    then none
    else get_elem? schedule_ms (attempts - 1)
