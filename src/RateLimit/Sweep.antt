-- ===== src/RateLimit/Sweep.antt =====
-- apps/cms/server/utils/rateLimit.ts: what the store holds after a write and after a sweep. No key
-- stands in it twice.
use boject_cms.Common.{
  ℕ, ◌≤◌, ◌≡◌, refl, ap, sym, ◌∙◌, inl, inr, String, ◌==◌, eq_iff, eq_refl, true, false, List, [],
  ◌∷◌, arith, Bool-cases,
}
use boject_cms.RateLimit.Store.{Store, default_window_ms, lookup, put, recent, clean_up, is_empty}

abbrev pub IsAbsent : String → Store → Type 0
IsAbsent key [] = Unit
IsAbsent key ((k, _) ∷ rest) = ((k == key) ≡ false) × IsAbsent key rest

abbrev pub AreKeyed : Store → Type 0
AreKeyed [] = Unit
AreKeyed ((k, _) ∷ rest) = IsAbsent k rest × AreKeyed rest

other_way : (a b : String) → (a == b) ≡ false → (b == a) ≡ false
other_way a b h = ground (arith, eq_iff a b, eq_iff b a)

IsAbsent-put :
    (key k : String) (ts : List ℕ) (store : Store)
    → (k == key) ≡ false
    → IsAbsent key store
    → IsAbsent key (put k ts store)
unfolding put
IsAbsent-put key k ts [] h a = (h, tt)
IsAbsent-put key k ts ((j, us) ∷ rest) h (a, b) = elim (Bool-cases (j == k)) [
  | inl e ↦ rw e (a, b)
  | inr e ↦ rw e (a, IsAbsent-put key k ts rest h b)
]

pub AreKeyed-put :
    (k : String) (ts : List ℕ) (store : Store) → AreKeyed store → AreKeyed (put k ts store)
unfolding put
AreKeyed-put k ts [] a = (tt, tt)
AreKeyed-put k ts ((j, us) ∷ rest) (a, b) = elim (Bool-cases (j == k)) [
  | inl e ↦ rw e (a, b)
  | inr e ↦ rw e (IsAbsent-put j k ts rest (other_way j k e) a, AreKeyed-put k ts rest b)
]

IsAbsent-clean_up :
    (key : String) (now : ℕ) (store : Store)
    → IsAbsent key store
    → IsAbsent key (clean_up now store)
unfolding clean_up
IsAbsent-clean_up key now [] a = tt
IsAbsent-clean_up key now ((j, us) ∷ rest) (a, b) =
    elim (Bool-cases (is_empty (recent now default_window_ms us))) [
      | inl e ↦ rw e (IsAbsent-clean_up key now rest b)
      | inr e ↦ rw e (a, IsAbsent-clean_up key now rest b)
    ]

pub AreKeyed-clean_up : (now : ℕ) (store : Store) → AreKeyed store → AreKeyed (clean_up now store)
unfolding clean_up
AreKeyed-clean_up now [] a = tt
AreKeyed-clean_up now ((j, us) ∷ rest) (a, b) =
    elim (Bool-cases (is_empty (recent now default_window_ms us))) [
      | inl e ↦ rw e (AreKeyed-clean_up now rest b)
      | inr e ↦ rw e (IsAbsent-clean_up j now rest a, AreKeyed-clean_up now rest b)
    ]

lookup_absent : (key : String) (store : Store) → IsAbsent key store → lookup key store ≡ []
unfolding lookup
lookup_absent key [] a = refl
lookup_absent key ((k, ts) ∷ rest) (a, b) = rw a (lookup_absent key rest b)

is_empty_lem : (ts : List ℕ) → is_empty ts ≡ true → ts ≡ []
is_empty_lem [] h = refl
is_empty_lem (t ∷ ts) h = cc

pub lookup-clean_up :
    (key : String) (now : ℕ) (store : Store)
    → AreKeyed store
    → lookup key (clean_up now store) ≡ recent now default_window_ms (lookup key store)
unfolding lookup clean_up
lookup-clean_up key now [] a = refl
lookup-clean_up key now ((k, ts) ∷ rest) (a, b) = elim (Bool-cases (k == key)) [
  | inl own ↦ elim (Bool-cases (is_empty (recent now default_window_ms ts))) [
    | inl e ↦
        rw (e, own)
          (ap (λ j. lookup j (clean_up now rest)) (sym ((eq_iff k key).0 own))
            ∙ lookup_absent k (clean_up now rest) (IsAbsent-clean_up k now rest a)
            ∙ sym (is_empty_lem (recent now default_window_ms ts) e))
    | inr e ↦ rw (e, own) refl
  ]
  | inr other ↦ elim (Bool-cases (is_empty (recent now default_window_ms ts))) [
    | inl e ↦ rw (e, other) (lookup-clean_up key now rest b)
    | inr e ↦ rw (e, other) (lookup-clean_up key now rest b)
  ]
]

pub lookup-put : (key : String) (ts : List ℕ) (store : Store) → lookup key (put key ts store) ≡ ts
unfolding lookup put
lookup-put key ts [] = rw (eq_refl key) refl
lookup-put key ts ((k, us) ∷ rest) = ground (arith, lookup-put key ts rest)

pub lookup-put_other :
    (key other : String) (ts : List ℕ) (store : Store)
    → (other == key) ≡ false
    → lookup key (put other ts store) ≡ lookup key store
unfolding lookup put
lookup-put_other key other ts [] h = rw h refl
lookup-put_other key other ts ((k, us) ∷ rest) h =
    ground
      (arith, lookup-put_other key other ts rest, eq_iff k other, eq_iff k key, eq_iff other key)

-- What a later window that is not longer holds, an earlier one held.
pub recent-recent :
    (n m v w : ℕ) (ts : List ℕ) → n ≤ m → w ≤ v → recent m w (recent n v ts) ≡ recent m w ts
recent-recent n m v w [] h k = refl
recent-recent n m v w (t ∷ ts) h k = ground (arith, recent-recent n m v w ts)
