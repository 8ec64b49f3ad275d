-- ===== src/Content/Json.antt =====
-- JSON values as request bodies and JSONB columns carry them, with the JavaScript operations that the
-- code uses on them, and the outcome of a handler. Numbers are any type.
use boject_cms.Common.{ℕ, String, ◌==◌, Bool, Option, none, some, if◌then◌else◌}

mutual
  pub data Json (N : Type 0) : Type 0 where
    null : Json N
    bool : Bool → Json N
    num : N → Json N
    str : String → Json N
    arr : Items N → Json N
    obj : Fields N → Json N

  pub data Items (N : Type 0) : Type 0 where
    nil : Items N
    cons : Json N → Items N → Items N

  -- The own properties of an object, in order.
  pub data Fields (N : Type 0) : Type 0 where
    no_fields : Fields N
    field : String → Json N → Fields N → Fields N

module _ {N : Type 0} where
  -- `data[key]` on an object.
  abbrev pub get : String → Fields N → Option (Json N)
  get k no_fields = none
  get k (field j v fs) = let later = get k fs in if j == k then some v else later

  -- `data[key] = value`.
  abbrev pub put : String → Json N → Fields N → Fields N
  put k v no_fields = field k v no_fields
  put k v (field j w fs) =
      let later = put k v fs in if j == k then field j v fs else field j w later

  -- `(value as Record<string, unknown>)[key]`, which is `undefined` for what is no plain object.
  abbrev pub property : String → Json N → Option (Json N)
  property k (obj fs) = get k fs
  property k _ = none

  abbrev pub property? : String → Option (Json N) → Option (Json N)
  property? k none = none
  property? k (some v) = property k v

-- What a handler comes to: a value, an error for the client, or any other exception.
pub data Outcome (A : Type 0) : Type 0 where
  ok : A → Outcome A
  create_error : ℕ → String → Outcome A
  thrown : Outcome A

infixl 5 ◌>>=◌
abbrev pub ◌>>=◌ : {A B : Type 0} → Outcome A → (A → Outcome B) → Outcome B
ok a >>= f = f a
create_error status message >>= f = create_error status message
thrown >>= f = thrown

-- `if (test) throw createError({ statusCode: 400, statusMessage: message })`, with what follows.
abbrev pub refuse_if : {A : Type 0} → Bool → String → Outcome A → Outcome A
refuse_if test message next = if test then create_error 400 message else next

-- A parser of a library, which throws where it refuses.
abbrev pub or_throw : {A : Type 0} → Option A → Outcome A
or_throw none = thrown
or_throw (some a) = ok a
