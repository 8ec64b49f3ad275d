-- ===== src/Content/Spread.antt =====
-- apps/cms/server/utils/enrichRichtextEmbeds.ts: the keys of a list that `{ ...list }` makes an object.
use Prim.Native.Char.{Char, code}
use boject_cms.Common.{
  ℕ, zero, suc, ◌/◌, ◌%◌, String, eqb, leb, Bool, true, false, ◌&&◌, ◌≡◌, refl, sym, ap, ◌∙◌, none,
  arith, if◌then◌else◌, string_eq, eq_iff,
}
use boject_cms.Content.Json.{Items, nil, cons, get}
use boject_cms.Content.Enrich.{index_items, decimals, digit}

-- The keys of a list that is spread are numbers.
unfoldable pub is_digit : ℕ → Bool
is_digit c = leb b'0' c && leb c b'9'

unfoldable pub starts_with_digit : String → Bool
unfolding is_digit
starts_with_digit String.[] = false
starts_with_digit (String.◌∷◌ c cs) = is_digit (code c)

is_digit-if :
    (b : Bool) (c d : Char)
    → is_digit (code c) ≡ true
    → is_digit (code d) ≡ true
    → is_digit (code (if b then c else d)) ≡ true
is_digit-if true c d g h = g
is_digit-if false c d g h = h

is_digit-digit : (n : ℕ) → is_digit (code (digit n)) ≡ true
unfolding is_digit
is_digit-digit n = is_digit-if (eqb n 0) "0" _ refl (
    is_digit-if (eqb n 1) "1" _ refl (
      is_digit-if (eqb n 2) "2" _ refl (
        is_digit-if (eqb n 3) "3" _ refl (
          is_digit-if (eqb n 4) "4" _ refl (
            is_digit-if (eqb n 5) "5" _ refl (
              is_digit-if (eqb n 6) "6" _ refl
                (is_digit-if (eqb n 7) "7" _ refl (is_digit-if (eqb n 8) "8" "9" refl refl))))))))

starts_with_digit-decimals :
    (fuel n : ℕ) (rest : String)
    → starts_with_digit rest ≡ true
    → starts_with_digit (decimals fuel n rest) ≡ true
unfolding decimals starts_with_digit
starts_with_digit-decimals zero n rest h = h
starts_with_digit-decimals (suc fuel) n rest h = ground (
  arith,
  is_digit-digit n,
  starts_with_digit-decimals fuel (n / 10) (String.◌∷◌ (digit (n % 10)) rest)
      (is_digit-digit (n % 10)),
)

starts_with_digit-key : (i : ℕ) → starts_with_digit (decimals (suc i) i "") ≡ true
unfolding decimals starts_with_digit
starts_with_digit-key i = ground (
  arith,
  is_digit-digit i,
  starts_with_digit-decimals i (i / 10) (String.◌∷◌ (digit (i % 10)) "") (is_digit-digit (i % 10)),
)

pub get-index_items :
    {N : Type 0} (k : String) (i : ℕ) (xs : Items N)
    → starts_with_digit k ≡ false
    → get k (index_items i xs) ≡ none
unfolding index_items
get-index_items k i nil h = refl
get-index_items k i (cons x xs) h =
    let e = starts_with_digit-key i in
    ground (
      arith,
      get-index_items k (suc i) xs h,
      e,
      eq_iff (decimals (suc i) i "") k,
      λ (q : decimals (suc i) i "" ≡ k). sym e ∙ ap starts_with_digit q,
    )
