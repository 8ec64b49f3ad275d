-- ===== src/Search/Switch.antt =====
-- What the switch on the type of the field does with an operator that the type allows.
use boject_cms.Common.{
  String, ◌==◌, eq_iff, eqb, ltb, Bool, true, false, ◌||◌, ◌≡◌, refl, List, [], ◌∷◌, length, any,
  all, Option, none, some, arith, Bool-cases, not, ◌&&◌, inl, inr,
}
use mathlib.Core.Path.{subst}
use boject_cms.FieldType.{
  FieldTypeName, entry_title, slug, text, textarea, number, boolean, datetime, select, richtext,
  relation, multirelation, image,
}
use boject_cms.Query.Operators.{
  Operator, Arity, zero, one, two, many, is_operator_allowed, operator_arity, registered_or,
}
use boject_cms.Search.Compile.{
  Parsing, is_blank, type_error, not_filterable, Result, clause, refused, type_clause, is_presence,
}

abbrev pub is_clause : Result → Bool
is_clause (clause _) = true
is_clause (refused _) = false

-- The refusals that stand for a fault of the code, not of the filter.
abbrev pub is_fault : Result → Bool
is_fault (refused type_error) = true
is_fault (refused (not_filterable _)) = true
is_fault _ = false

abbrev pub count_fits : Arity → List String → Bool
count_fits zero vs = eqb (length vs) 0
count_fits one vs = eqb (length vs) 1
count_fits two vs = eqb (length vs) 2
count_fits many vs = ltb 0 (length vs)

abbrev is_some : Option String → Bool
is_some none = false
is_some (some _) = true

abbrev pub value_fits : Parsing → FieldTypeName → String → Bool
value_fits p number v = not (is_blank v) && is_some (p.number_text v)
value_fits p datetime v = not (v == "") && is_some (p.time_text v)
value_fits p boolean v = v == "true" || v == "false"
value_fits p _ v = true

-- A property that holds at the id of each operator holds at an id that is among them.
infixr 4 ◌&◌
data AtEach (P : String → Type 0) : List Operator → Type 0 where
  at_end : AtEach P []
  ◌&◌ : {o : Operator} {ops : List Operator} → P o.id → AtEach P ops → AtEach P (o ∷ ops)

each_rule :
    {P : String → Type 0} {ops : List Operator} (op : String)
    → AtEach P ops
    → any (λ o. o.id == op) ops ≡ true
    → P op
each_rule op at_end a = absurd (ground arith)
each_rule {P} op (◌&◌ {o} h hs) a = elim (Bool-cases (o.id == op)) [
  | inl hit ↦ subst P ((eq_iff o.id op).0 hit) h
  | inr miss ↦ each_rule op hs (ground (arith, miss))
]

-- What the switch does with values of the right number.
abbrev pub Fits : Parsing → FieldTypeName → String → String → String → List String → Type 0
Fits p type path field op values =
    (is_clause (type_clause p type path op values field) ≡ all (value_fits p type) values)
    × (is_fault (type_clause p type path op values field) ≡ false)

abbrev pub Sound : Parsing → FieldTypeName → String → String → String → Type 0
Sound p type path field op =
    (values : List String)
    → is_presence op ≡ false
    → count_fits (operator_arity op) values ≡ true
    → Fits p type path field op values

module _ (Q : List String → Type 0) where
  at_one :
      ((v : String) → Q (v ∷ [])) → (values : List String) → count_fits one values ≡ true → Q values
  at_one f [] h = absurd (ground arith)
  at_one f (v ∷ []) h = f v
  at_one f (v ∷ w ∷ vs) h = absurd (ground arith)

  at_two :
      ((v w : String) → Q (v ∷ w ∷ []))
      → (values : List String) → count_fits two values ≡ true
      → Q values
  at_two f [] h = absurd (ground arith)
  at_two f (v ∷ []) h = absurd (ground arith)
  at_two f (v ∷ w ∷ []) h = f v w
  at_two f (v ∷ w ∷ u ∷ vs) h = absurd (ground arith)

-- An operator of one value, and one of two.
single :
    (p : Parsing) (type : FieldTypeName) (path field op : String)
    → operator_arity op ≡ one
    → ((v : String) → Fits p type path field op (v ∷ []))
    → Sound p type path field op
single p type path field op a f values n h =
    at_one (Fits p type path field op) f values (subst (λ k. count_fits k values ≡ true) a h)

double :
    (p : Parsing) (type : FieldTypeName) (path field op : String)
    → operator_arity op ≡ two
    → ((v w : String) → Fits p type path field op (v ∷ w ∷ []))
    → Sound p type path field op
double p type path field op a f values n h =
    at_two (Fits p type path field op) f values (subst (λ k. count_fits k values ≡ true) a h)

-- A nullary operator is no case of the switch.
Sound-nullary :
    (p : Parsing) (type : FieldTypeName) (path field op : String)
    → is_presence op ≡ true
    → Sound p type path field op
Sound-nullary p type path field op h values n f = absurd (ground arith)

all-true : (vs : List String) → all (λ v. true) vs ≡ true
all-true [] = refl
all-true (v ∷ vs) = all-true vs

pub type_clause-Sound :
    (p : Parsing) (type : FieldTypeName) (path field op : String)
    → is_operator_allowed type op ≡ true
    → Sound p type path field op
unfolding type_clause is_operator_allowed operator_arity
type_clause-Sound p text path field op a =
    each_rule {P = Sound p text path field} {ops = registered_or text []} op
      (single p text path field "eq" refl (λ v. (refl, refl))
        & single p text path field "neq" refl (λ v. (refl, refl))
        & single p text path field "contains" refl (λ v. (refl, refl))
        & single p text path field "startsWith" refl (λ v. (refl, refl))
        & Sound-nullary p text path field "isNotSet" refl
        & Sound-nullary p text path field "isSet" refl
        & at_end)
      a
type_clause-Sound p textarea path field op a =
    each_rule {P = Sound p textarea path field} {ops = registered_or textarea []} op
      (single p textarea path field "eq" refl (λ v. (refl, refl))
        & single p textarea path field "contains" refl (λ v. (refl, refl))
        & Sound-nullary p textarea path field "isNotSet" refl
        & Sound-nullary p textarea path field "isSet" refl
        & at_end)
      a
type_clause-Sound p slug path field op a =
    each_rule {P = Sound p slug path field} {ops = registered_or slug []} op
      (single p slug path field "eq" refl (λ v. (refl, refl))
        & single p slug path field "startsWith" refl (λ v. (refl, refl))
        & Sound-nullary p slug path field "isNotSet" refl
        & Sound-nullary p slug path field "isSet" refl
        & at_end)
      a
type_clause-Sound p entry_title path field op a =
    each_rule {P = Sound p entry_title path field} {ops = registered_or entry_title []} op
      (single p entry_title path field "eq" refl (λ v. (refl, refl))
        & single p entry_title path field "neq" refl (λ v. (refl, refl))
        & single p entry_title path field "contains" refl (λ v. (refl, refl))
        & single p entry_title path field "startsWith" refl (λ v. (refl, refl))
        & at_end)
      a
type_clause-Sound p number path field op a =
    each_rule {P = Sound p number path field} {ops = registered_or number []} op
      (single p number path field "eq" refl (λ v. ground arith)
        & single p number path field "neq" refl (λ v. ground arith)
        & single p number path field "gt" refl (λ v. ground arith)
        & single p number path field "gte" refl (λ v. ground arith)
        & single p number path field "lt" refl (λ v. ground arith)
        & single p number path field "lte" refl (λ v. ground arith)
        & Sound-nullary p number path field "isNotSet" refl
        & Sound-nullary p number path field "isSet" refl
        & at_end)
      a
type_clause-Sound p boolean path field op a =
    each_rule {P = Sound p boolean path field} {ops = registered_or boolean []} op
      (single p boolean path field "eq" refl (λ v. ground arith)
        & Sound-nullary p boolean path field "isNotSet" refl
        & Sound-nullary p boolean path field "isSet" refl
        & at_end)
      a
type_clause-Sound p datetime path field op a =
    each_rule {P = Sound p datetime path field} {ops = registered_or datetime []} op
      (single p datetime path field "before" refl (λ v. ground arith)
        & single p datetime path field "after" refl (λ v. ground arith)
        & double p datetime path field "between" refl (λ v w. ground arith)
        & Sound-nullary p datetime path field "isNotSet" refl
        & Sound-nullary p datetime path field "isSet" refl
        & at_end)
      a
type_clause-Sound p select path field op a =
    each_rule {P = Sound p select path field} {ops = registered_or select []} op
      (single p select path field "eq" refl (λ v. (refl, refl))
        & single p select path field "neq" refl (λ v. (refl, refl))
        & (λ vs _ f. ground (arith, all-true vs))
        & Sound-nullary p select path field "isNotSet" refl
        & Sound-nullary p select path field "isSet" refl
        & at_end)
      a
type_clause-Sound p relation path field op a =
    each_rule {P = Sound p relation path field} {ops = registered_or relation []} op
      (single p relation path field "eq" refl (λ v. (refl, refl))
        & single p relation path field "neq" refl (λ v. (refl, refl))
        & Sound-nullary p relation path field "isNotSet" refl
        & Sound-nullary p relation path field "isSet" refl
        & at_end)
      a
type_clause-Sound p multirelation path field op a =
    each_rule {P = Sound p multirelation path field} {ops = registered_or multirelation []} op
      (single p multirelation path field "eq" refl (λ v. (refl, refl))
        & (λ vs _ f. ground (arith, all-true vs))
        & (λ vs _ f. ground (arith, all-true vs))
        & Sound-nullary p multirelation path field "isNotSet" refl
        & Sound-nullary p multirelation path field "isSet" refl
        & at_end)
      a
type_clause-Sound p richtext path op field a = absurd (ground arith)
type_clause-Sound p image path op field a = absurd (ground arith)
