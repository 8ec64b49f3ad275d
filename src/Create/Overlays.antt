-- ===== src/Create/Overlays.antt =====
-- apps/cms/server/utils/applyFieldDefaults.ts and mergeEntryPatch.ts: what defaults and patches leave
-- alone.
use boject_cms.Common.{
  String, ◌==◌, Bool, true, false, ◌||◌, not, ◌≡◌, refl, sym, ap, ◌∙◌, List, Option, none, some,
  arith, if◌then◌else◌, ◌<|>◌, string_eq, has, Bool-cases, Option-cases, inl, inr, eq_iff,
}
use boject_cms.Content.Json.{Json, Fields, no_fields, field, get, put, ok}
use boject_cms.Content.Options.{
  ContentField, Schemas, is_there, seed, apply_field_defaults, defaults_for_fields,
}
use boject_cms.Content.Outcomes.{>>=-eq-ok, ok-inj, refuse_if-eq-ok}
use boject_cms.Content.Maps.{keys, get-put_self, get-put_other}
use boject_cms.Content.Validated.{identifiers}
use boject_cms.Create.Entry.{overlay, check_known, merge_entry_patch}

of_not : (b : Bool) → not b ≡ false → b ≡ true
of_not b h = ground arith

or_true : (a b : Bool) → b ≡ true → (a || b) ≡ true
or_true a b h = ground arith

or_none : {A : Type 0} (o : Option A) → o ≡ (o <|> none)
or_none none = refl
or_none (some a) = refl

module _ {N : Type 0} where
  -- One key at most is written.
  seed_step :
      (j k : String) (v : Json N) (payload : Fields N) (rest : Option (Json N))
      → (get k (if is_there (get j payload) then payload else put j v payload) <|> rest)
        ≡ (get k payload <|> (if j == k then some v else rest))
  seed_step j k v payload rest = elim (Option-cases (get j payload)) [
    | inl absent ↦
        ap (λ o. get k (if is_there o then payload else put j v payload) <|> rest) absent
        ∙ elim (Bool-cases (j == k)) [
          | inl same ↦
              let here : get k (put j v payload) ≡ some v =
                ap (λ i. get i (put j v payload)) (sym ((eq_iff j k).0 same))
                ∙ get-put_self j v payload in
              let gone : get k payload ≡ none =
                ap (λ i. get i payload) (sym ((eq_iff j k).0 same)) ∙ absent in
              ap (λ o. o <|> rest) here
              ∙ (ap (λ b. none <|> (if b then some v else rest)) (sym same)
                  ∙ ap (λ o. o <|> (if j == k then some v else rest)) (sym gone))
          | inr other ↦
              ap (λ o. o <|> rest) (get-put_other k j v payload other)
              ∙ ap (λ b. get k payload <|> (if b then some v else rest)) (sym other)
        ]
    | inr (w, there) ↦
        ap (λ o. get k (if is_there o then payload else put j v payload) <|> rest) there
        ∙ elim (Bool-cases (j == k)) [
          | inl same ↦
              let here : get k payload ≡ some w =
                ap (λ i. get i payload) (sym ((eq_iff j k).0 same)) ∙ there in
              ap (λ o. o <|> rest) here
              ∙ ap (λ o. o <|> (if j == k then some v else rest)) (sym here)
          | inr other ↦ ap (λ b. get k payload <|> (if b then some v else rest)) (sym other)
        ]
  ]

  get-seed :
      (schemas : Schemas N) (k : String) (defaults payload : Fields N)
      → get k (seed schemas defaults payload) ≡ (get k payload <|> get k defaults)
  unfolding seed
  get-seed schemas k no_fields payload = or_none (get k payload)
  get-seed schemas k (field j v ds) payload =
      get-seed schemas k ds (if is_there (get j payload) then payload else put j v payload)
      ∙ seed_step j k v payload (get k ds)

  -- Seeding the defaults, where the options of the fields parse, gives under each key the value of
  -- the payload, where that has the key, and else the default.
  pub apply_field_defaults_lem :
      (schemas : Schemas N) (payload out : Fields N) (fields : List (ContentField N)) (k : String)
      → apply_field_defaults schemas payload fields ≡ ok out
      → (defaults : Fields N) × (defaults_for_fields schemas fields ≡ ok defaults)
        × (get k out ≡ (get k payload <|> get k defaults))
  unfolding apply_field_defaults
  apply_field_defaults_lem schemas payload out fields k h =
      let (ds, d, e) = >>=-eq-ok (defaults_for_fields schemas fields) _ out h in
      (
        ds,
        d,
        ap (get k) (sym (ok-inj (seed schemas ds payload) out e)) ∙ get-seed schemas k ds payload,
      )

-- The keys of an object occur once.
abbrev pub AreDistinctKeys : {N : Type 0} → Fields N → Type 0
AreDistinctKeys no_fields = Unit
AreDistinctKeys (field k v fs) = (get k fs ≡ none) × AreDistinctKeys fs

module _ {N : Type 0} where
  get-overlay :
      (k : String) (working patch : Fields N)
      → AreDistinctKeys patch
      → get k (overlay working patch) ≡ (get k patch <|> get k working)
  unfolding overlay
  get-overlay k working no_fields d = refl
  get-overlay k working (field j v patch) (fresh, d) =
      get-overlay k (put j v working) patch d ∙ elim (Bool-cases (j == k)) [
        | inl same ↦
            let e = (eq_iff j k).0 same in
            let gone : get k patch ≡ none = ap (λ i. get i patch) (sym e) ∙ fresh in
            let here : get k (put j v working) ≡ some v =
              ap (λ i. get i (put j v working)) (sym e) ∙ get-put_self j v working in
            ap (λ o. o <|> get k (put j v working)) gone
            ∙ (here ∙ ap (λ b. (if b then some v else get k patch) <|> get k working) (sym same))
        | inr other ↦
            ap (λ o. get k patch <|> o) (get-put_other k j v working other)
            ∙ ap (λ b. (if b then some v else get k patch) <|> get k working) (sym other)
      ]

  check_known-has :
      (known : List String) (patch : Fields N) (b : Bool) (k : String)
      → check_known known patch ≡ ok b
      → (not (has k (keys patch)) || has k known) ≡ true
  unfolding check_known has
  check_known-has known no_fields b k h = refl
  check_known-has known (field j v patch) b k h =
      let (listed, rest) = refuse_if-eq-ok (not (has j known)) _ _ b h in
      elim (Bool-cases (j == k)) [
        | inl same ↦
            let there : has k known ≡ true =
              ap (λ i. has i known) (sym ((eq_iff j k).0 same)) ∙ of_not (has j known) listed in
            or_true (not (j == k || has k (keys patch))) (has k known) there
        | inr other ↦
            ap (λ b. not (b || has k (keys patch)) || has k known) other
            ∙ check_known-has known patch b k rest
      ]

  -- A patch that is accepted has fields of the type only; under each key the merged data hold the value of
  -- the patch, where it has the key, and else the value that was there.
  merge_entry_patch_lem :
      (working patch out : Fields N) (fields : List (ContentField N)) (k : String)
      → merge_entry_patch working patch fields ≡ ok out
      → AreDistinctKeys patch
      → ((not (has k (keys patch)) || has k (identifiers fields)) ≡ true)
        × (get k out ≡ (get k patch <|> get k working))
  unfolding merge_entry_patch
  merge_entry_patch_lem working patch out fields k h d =
      let (b, c, e) = >>=-eq-ok (check_known (identifiers fields) patch) _ out h in
      (
        check_known-has (identifiers fields) patch b k c,
        ap (get k) (sym (ok-inj (overlay working patch) out e)) ∙ get-overlay k working patch d,
      )
