-- ===== src/Cache/Keys.antt =====
-- The keys of the two tag indexes: apart from each other, and one for each tag.
use Prim.Native.Char.{code}
use Prim.Native.String.{◌++◌ as ◌<>◌}
use text.Mathlib.TextLemmas.{cons-append, append_assoc, append_cancel_left}
use boject_cms.Common.{
  ℕ, ◌≡◌, ◌≢◌, sym, ap, ◌∙◌, String, ◌==◌, eq_iff, true, false, arith, Bool-cases, inl, inr,
}
use boject_cms.Cache.Tagged.{ttl_key, persistent_key, tag_index_prefix, tag_index_persistent_prefix}

first_code : String → ℕ
first_code String.[] = 0
first_code (String.◌∷◌ c _) = code c

colon-first : (a : String) → first_code (":" <> a) ≡ b':'
unfolding first_code
colon-first a = ap first_code (cons-append ":" "" a)

underscore-first : (b : String) → first_code ("_p:" <> b) ≡ b'_'
unfolding first_code
underscore-first b = ap first_code (cons-append "_" "p:" b)

keys_apart : (a b : String) → ttl_key a ≢ persistent_key b
unfolding ttl_key persistent_key
keys_apart a b h =
    let split : "__tagindex" <> (":" <> a) ≡ "__tagindex" <> ("_p:" <> b) =
      sym (append_assoc "__tagindex" ":" a) ∙ h ∙ append_assoc "__tagindex" "_p:" b in
    let tails : ":" <> a ≡ "_p:" <> b =
      append_cancel_left "__tagindex" (":" <> a) ("_p:" <> b) split in
    let codes = ap first_code tails in ground (arith, codes, colon-first a, underscore-first b)

pub ttl_key-persistent_key : (a b : String) → ttl_key a == persistent_key b ≡ false
ttl_key-persistent_key a b = elim (Bool-cases (ttl_key a == persistent_key b)) [
  | inl h ↦ absurd (keys_apart a b ((eq_iff (ttl_key a) (persistent_key b)).0 h))
  | inr f ↦ f
]

pub persistent_key-ttl_key : (a b : String) → persistent_key b == ttl_key a ≡ false
persistent_key-ttl_key a b = ground (
  arith,
  eq_iff (persistent_key b) (ttl_key a),
  eq_iff (ttl_key a) (persistent_key b),
  ttl_key-persistent_key a b,
)

pub ttl_key_injective : (a b : String) → ttl_key a == ttl_key b ≡ true → a ≡ b
unfolding ttl_key
ttl_key_injective a b h =
    append_cancel_left tag_index_prefix a b ((eq_iff (ttl_key a) (ttl_key b)).0 h)

pub persistent_key_injective : (a b : String) → persistent_key a == persistent_key b ≡ true → a ≡ b
unfolding persistent_key
persistent_key_injective a b h =
    append_cancel_left tag_index_persistent_prefix a b
      ((eq_iff (persistent_key a) (persistent_key b)).0 h)
