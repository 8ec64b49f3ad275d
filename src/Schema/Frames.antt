-- ===== src/Schema/Frames.antt =====
-- The parts of the planner that remove nothing.
use boject_cms.Common.{
  ℕ, ◌≡◌, refl, ◌∙◌, String, Bool, true, false, List, [], ◌∷◌, Option, if◌then◌else◌, arith,
  string_eq,
}
use boject_cms.FieldType.{same_type}
use boject_cms.Schema.Types.{
  BundleField, BundleContentType, SnapshotField, SnapshotType, FieldUsage, FieldChanges, SchemaPlan,
}
use boject_cms.Schema.Fields.{
  Comparison, going, returned, and_then, plan_of, name_and_order, diff_required, diff_unique,
  diff_choices, diff_targets, diff_options, push_update, diff_field_update,
}
use boject_cms.Schema.Plan.{
  renamed_field, block_renamed_field, block_renamed_type, block_renamed_fields, renamed_type,
  block_renamed_types, check_targets, check_all_targets,
}

-- A plan with the removals of another.
pub data Frame (a b : SchemaPlan) : Type 0 where
  frame : a.type_removals ≡ b.type_removals → a.field_removals ≡ b.field_removals → Frame a b

data FrameOf (c : Comparison) (b : SchemaPlan) : Type 0 where
  framed : Frame (plan_of c) b → FrameOf c b

framed_plan : {c : Comparison} {b : SchemaPlan} → FrameOf c b → Frame (plan_of c) b
framed_plan (framed f) = f

pub Frame-refl : (a : SchemaPlan) → Frame a a
Frame-refl a = frame refl refl

pub Frame-trans : {a b c : SchemaPlan} → Frame a b → Frame b c → Frame a c
Frame-trans (frame t f) (frame u g) = frame (t ∙ u) (f ∙ g)

and_then-FrameOf :
    (c : Comparison) (f : FieldChanges → SchemaPlan → Comparison) (b : SchemaPlan)
    → FrameOf c b
    → ((ch : FieldChanges) (p : SchemaPlan) → FrameOf (f ch p) p)
    → FrameOf (and_then c f) b
and_then-FrameOf (going ch p) f b (framed h) k = framed (Frame-trans (framed_plan (k ch p)) h)
and_then-FrameOf (returned p) f b h k = h

pub if-Frame :
    (b : Bool) (x y p : SchemaPlan) → Frame x p → Frame y p → Frame (if b then x else y) p
if-Frame true x y p f g = f
if-Frame false x y p f g = g

module _ (t : String) (bf : BundleField) (db : SnapshotField) (u : Option FieldUsage) where
  diff_required-FrameOf :
      (n : ℕ) (c : FieldChanges) (p : SchemaPlan) → FrameOf (diff_required t bf db u n c p) p
  diff_required-FrameOf n c p = framed (frame (ground arith) (ground arith))

  diff_unique-FrameOf : (c : FieldChanges) (p : SchemaPlan) → FrameOf (diff_unique t bf db u c p) p
  diff_unique-FrameOf c p = framed (frame (ground arith) (ground arith))

  diff_choices-FrameOf :
      (c : FieldChanges) (p : SchemaPlan) → FrameOf (diff_choices t bf db u c p) p
  diff_choices-FrameOf c p = framed (frame (ground arith) (ground arith))

  diff_targets-FrameOf :
      (c : FieldChanges) (p : SchemaPlan) → FrameOf (diff_targets t bf db u c p) p
  diff_targets-FrameOf c p = framed (frame (ground arith) (ground arith))

  diff_options-FrameOf :
      (c : FieldChanges) (p : SchemaPlan) → FrameOf (diff_options t bf db u c p) p
  diff_options-FrameOf c p = framed (frame (ground arith) (ground arith))

  push_update-FrameOf : (c : FieldChanges) (p : SchemaPlan) → FrameOf (push_update t bf db u c p) p
  push_update-FrameOf c p = framed (frame (ground arith) (ground arith))

  pub diff_field_update-Frame : (n : ℕ) (p : SchemaPlan) → Frame (diff_field_update t bf db n u p) p
  unfolding diff_field_update
  diff_field_update-Frame n p =
      if-Frame (same_type bf.type db.type) _ _ p
        (framed_plan (
          and_then-FrameOf _ (push_update t bf db u) p
            (and_then-FrameOf _ (diff_options t bf db u) p
              (and_then-FrameOf _ (diff_targets t bf db u) p
                (and_then-FrameOf _ (diff_choices t bf db u) p
                  (and_then-FrameOf _ (diff_unique t bf db u) p
                    (diff_required-FrameOf n (name_and_order t bf db u) p) diff_unique-FrameOf)
                  diff_choices-FrameOf)
                diff_targets-FrameOf)
              diff_options-FrameOf)
            push_update-FrameOf))
        (frame refl refl)

pub block_renamed_fields-Frame :
    (t : String) (fs : List SnapshotField) (bfs : List BundleField) (p : SchemaPlan)
    → Frame (block_renamed_fields t fs bfs p) p
block_renamed_fields-Frame t fs [] p = Frame-refl p
block_renamed_fields-Frame t fs (bf ∷ bfs) p =
    Frame-trans
      (block_renamed_fields-Frame t fs bfs (block_renamed_field t bf (renamed_field fs bf) p))
      (frame (ground arith) (ground arith))

pub block_renamed_types-Frame :
    (ts : List SnapshotType) (us : List BundleContentType) (p : SchemaPlan)
    → Frame (block_renamed_types ts us p) p
block_renamed_types-Frame ts [] p = Frame-refl p
block_renamed_types-Frame ts (bt ∷ us) p =
    Frame-trans (block_renamed_types-Frame ts us (block_renamed_type bt (renamed_type ts bt) p))
      (frame (ground arith) (ground arith))

check_targets-Frame :
    (known : List String) (t : String) (bfs : List BundleField) (p : SchemaPlan)
    → Frame (check_targets known t bfs p) p
check_targets-Frame known t [] p = Frame-refl p
check_targets-Frame known t (bf ∷ bfs) p =
    Frame-trans (check_targets-Frame known t bfs _) (frame (ground arith) (ground arith))

pub check_all_targets-Frame :
    (known : List String) (us : List BundleContentType) (p : SchemaPlan)
    → Frame (check_all_targets known us p) p
check_all_targets-Frame known [] p = Frame-refl p
check_all_targets-Frame known (bt ∷ us) p =
    Frame-trans (check_all_targets-Frame known us _)
      (check_targets-Frame known bt.identifier bt.fields p)
