-- ===== src/Cache/Contract.antt =====
-- The contract of the tagged cache, as a map from keys to values with their tags, and what it is for
-- a cache to keep it.
use boject_cms.Common.{
  ℕ, ◌≤◌, ◌≡◌, String, ◌==◌, true, List, [], ◌∷◌, Option, none, some, if◌then◌else◌, string_eq, has,
}
use boject_cms.Cache.Stores.{Stores, alive, deadline}
use boject_cms.Cache.Tagged.{persistent_key, set, invalidate_by_tag}
use boject_cms.Cache.Index.{Positive, is_covered, IsLasting}

pub record Held (V : Type 0) : Type 0 where
  pub value : V
  pub ends : Option ℕ
  pub tags : List String

-- The last value written for each key, unless one of its tags was invalidated since.
abbrev pub Contract : Type 0 → Type 0
Contract V = String → Option (Held V)

pub data Operation (V : Type 0) : Type 0 where
  write : String → V → List String → Option ℕ → Operation V
  invalidate : String → Operation V

abbrev pub without_tag : {V : Type 0} → String → Option (Held V) → Option (Held V)
without_tag tag none = none
without_tag tag (some h) = if has tag h.tags then none else some h

abbrev pub apply_spec : {V : Type 0} → ℕ → Operation V → Contract V → Contract V
apply_spec now (write key v tags ttl) c =
    λ j. if key == j then some (record { value = v; ends = deadline now ttl; tags = tags }) else c j
apply_spec now (invalidate tag) c = λ j. without_tag tag (c j)

abbrev pub value_in : {V : Type 0} → ℕ → Option (Held V) → Option V
value_in now none = none
value_in now (some h) = if alive now h.ends then some h.value else none

-- Operations with their times.
abbrev pub run_spec : {V : Type 0} → List (ℕ × Operation V) → Contract V → Contract V
run_spec [] c = c
run_spec ((now, o) ∷ ops) c = run_spec ops (apply_spec now o c)

-- The times do not go back and end at the last one; a time to live is at least a second.
abbrev pub IsTimed : {V : Type 0} → ℕ → List (ℕ × Operation V) → ℕ → Type 0
IsTimed start [] end = start ≤ end
IsTimed start ((now, write _ _ _ ttl) ∷ ops) end =
    (start ≤ now) × Positive ttl × IsTimed now ops end
IsTimed start ((now, invalidate _) ∷ ops) end = (start ≤ now) × IsTimed now ops end

module _ {V : Type 0} (db : Stores V) where
  abbrev pub apply_cache : ℕ → Operation V → db.State → db.State
  apply_cache now (write key v tags ttl) s = set db now key v tags ttl s
  apply_cache now (invalidate tag) s = invalidate_by_tag db now tag s

  abbrev pub run_cache : List (ℕ × Operation V) → db.State → db.State
  run_cache [] s = s
  run_cache ((now, o) ∷ ops) s = run_cache ops (apply_cache now o s)

  pub record IsEmpty (s : db.State) : Type 0 where
    pub no_item : (k : String) → db.item k s ≡ none
    pub no_index : (tag : String) → db.until (persistent_key tag) s ≡ none

  -- A value that lives is the contract's, and is covered under the contract's tags.
  pub record Refines (now : ℕ) (c : Contract V) (s : db.State) : Type 0 where
    pub hit :
        (k : String) (v : V) (d : Option ℕ)
        → db.item k s ≡ some (v, d)
        → alive now d ≡ true
        → (tags : List String) × (c k ≡ some (record { value = v; ends = d; tags = tags }))
          × ((tag : String) → has tag tags ≡ true → is_covered db d tag k s ≡ true)
    pub lasting : IsLasting db s
