-- ===== src/Content/Maps.antt =====
-- Reading an object after a write, and its keys.
use boject_cms.Common.{
  String, ◌==◌, false, ◌≡◌, refl, List, [], ◌∷◌, ◌++◌, some, arith, string_eq, has, eq_iff, eq_refl,
}
use boject_cms.Content.Json.{Json, Fields, no_fields, field, get, put}

abbrev pub keys : {N : Type 0} → Fields N → List String
keys no_fields = []
keys (field k v fs) = k ∷ keys fs

module _ {N : Type 0} where
  pub get-put_self : (k : String) (v : Json N) (fs : Fields N) → get k (put k v fs) ≡ some v
  get-put_self k v no_fields = ground (arith, eq_refl k)
  get-put_self k v (field j w fs) = ground (arith, get-put_self k v fs)

  pub get-put_other :
      (j k : String) (v : Json N) (fs : Fields N) → (k == j) ≡ false → get j (put k v fs) ≡ get j fs
  get-put_other j k v no_fields h = ground (arith, h)
  get-put_other j k v (field i w fs) h =
      ground (arith, get-put_other j k v fs h, eq_iff i k, eq_iff i j, eq_iff k j)

  pub keys-put :
      (k : String) (v : Json N) (fs : Fields N)
      → has k (keys fs) ≡ false
      → keys (put k v fs) ≡ keys fs ++ k ∷ []
  unfolding has
  keys-put k v no_fields h = refl
  keys-put k v (field j w fs) h = ground (arith, keys-put k v fs)
