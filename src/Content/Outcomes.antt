-- ===== src/Content/Outcomes.antt =====
-- What is known of the parts of a chain of checks that comes to a value.
use boject_cms.Common.{Bool, true, false, String, ◌≡◌, refl, arith}
use boject_cms.Content.Json.{Outcome, ok, create_error, thrown, refuse_if, ◌>>=◌}

pub >>=-eq-ok :
    {A B : Type 0} (m : Outcome A) (f : A → Outcome B) (b : B)
    → (m >>= f) ≡ ok b
    → (a : A) × (m ≡ ok a) × (f a ≡ ok b)
>>=-eq-ok (ok a) f b h = (a, refl, h)
>>=-eq-ok (create_error s m) f b h = absurd (ground arith)
>>=-eq-ok thrown f b h = absurd (ground arith)

pub ok-inj : {A : Type 0} (a b : A) → ok a ≡ ok b → a ≡ b
ok-inj a b h = cc

pub refuse_if-eq-ok :
    {A : Type 0} (b : Bool) (m : String) (k : Outcome A) (a : A)
    → refuse_if b m k ≡ ok a
    → (b ≡ false) × (k ≡ ok a)
refuse_if-eq-ok true m k a h = absurd (ground arith)
refuse_if-eq-ok false m k a h = (refl, h)
