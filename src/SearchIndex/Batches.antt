-- ===== src/SearchIndex/Batches.antt =====
-- apps/cms/server/utils/syncToSearchIndex.ts: documents added in batches.
use boject_cms.Common.{
  ℕ, zero, suc, ◌-◌, ◌≤◌, String, ◌==◌, ◌≡◌, refl, sym, ap, ◌∙◌, List, [], ◌∷◌, ◌++◌, Option, some,
  arith, if◌then◌else◌, length,
}
use boject_cms.SearchIndex.Document.{SearchDocument, Formats}
use boject_cms.SearchIndex.Reconcile.{
  latest, SearchEngine, EngineLaws, add_batches, take, drop, schema_reindex_batch,
}

take-drop : {A : Type 0} (n : ℕ) (xs : List A) → take n xs ++ drop n xs ≡ xs
take-drop zero xs = refl
take-drop (suc n) [] = refl
take-drop (suc n) (x ∷ xs) = ap (λ ys. x ∷ ys) (take-drop n xs)

length-drop : {A : Type 0} (n : ℕ) (xs : List A) → length (drop n xs) ≤ length xs - n
length-drop zero xs = omega arith
length-drop (suc n) [] = omega arith
length-drop (suc n) (x ∷ xs) = omega (arith, length-drop n xs)

latest-append :
    {N : Type 0} (i : String) (ds es : List (SearchDocument N)) (old : Option (SearchDocument N))
    → latest i (ds ++ es) old ≡ latest i es (latest i ds old)
latest-append i [] es old = refl
latest-append i (d ∷ ds) es old = latest-append i ds es (if d.id == i then some d else old)

module _ {N : Type 0} (engine : SearchEngine N) (laws : EngineLaws engine)
    (formats : Formats N) where
  -- With an engine that replaces documents by their ids and one unit of fuel for each document, adding
  -- documents in batches leaves under each id what adding them all at once does.
  pub document-add_batches :
      (fuel : ℕ) (i : String) (ds : List (SearchDocument N)) (s : engine.State)
      → length ds ≤ fuel
      → engine.document i (add_batches engine formats fuel ds s) ≡ latest i ds (engine.document i s)
  unfolding add_batches
  document-add_batches zero i [] s h = refl
  document-add_batches zero i (d ∷ ds) s h = absurd (omega arith)
  document-add_batches (suc fuel) i [] s h = refl
  document-add_batches (suc fuel) i (d ∷ ds) s h =
      document-add_batches fuel i (drop schema_reindex_batch (d ∷ ds)) _
        (omega (arith, length-drop 999 ds))
      ∙ (ap (latest i (drop schema_reindex_batch (d ∷ ds)))
            (laws.add_lem i (take schema_reindex_batch (d ∷ ds)) s)
          ∙ (sym (
                latest-append i (take schema_reindex_batch (d ∷ ds))
                  (drop schema_reindex_batch (d ∷ ds)) (engine.document i s))
              ∙ ap (λ l. latest i l (engine.document i s))
                  (take-drop schema_reindex_batch (d ∷ ds))))
