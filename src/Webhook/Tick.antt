-- ===== src/Webhook/Tick.antt =====
-- A tick of the webhook worker on the table of deliveries.
use boject_cms.Common.{
  ◌≡◌, refl, ◌∙◌, String, inl, inr, Bool, true, false, not, List, [], ◌∷◌, Option, all, find?,
  arith, Option-cases, ◌==◌, eq_iff,
}
use boject_cms.Webhook.Worker.{
  Delivery, Environment, dispatch, write_row, dispatch_rows, run_worker_tick,
}
use boject_cms.Webhook.WorkerLaws.{is_pending, is_sound, dispatch_lem}

abbrev pub find_row : {P : Type 0} → String → List (Delivery P) → Option (Delivery P)
find_row i = find? (λ d. d.id == i)

-- What the query for due rows answers: rows of the table, all of them pending.
pub record Selects {P : Type 0} (select : List (Delivery P) → List (Delivery P)) : Type 0 where
  pub from_table :
      (p : Delivery P → Bool) (table : List (Delivery P))
      → all p table ≡ true
      → all p (select table) ≡ true
  pub only_pending : (table : List (Delivery P)) → all is_pending (select table) ≡ true

module _ {P : Type 0} (env : Environment P) where
  write_row_sound :
      (r : Delivery P) (table : List (Delivery P))
      → is_sound r ≡ true
      → all is_sound table ≡ true
      → all is_sound (write_row env r table) ≡ true
  unfolding write_row
  write_row_sound r [] s h = refl
  write_row_sound r (d ∷ ds) s h = ground (arith, write_row_sound r ds s)

  write_row-find :
      (r : Delivery P) (table : List (Delivery P)) (i : String)
      → (r.id == i) ≡ false
      → find_row i (write_row env r table) ≡ find_row i table
  unfolding write_row
  write_row-find r [] i h = refl
  write_row-find r (d ∷ ds) i h =
      ground (arith, write_row-find r ds i h, eq_iff d.id r.id, eq_iff r.id i, eq_iff d.id i)

  dispatch_rows_sound :
      (rows table : List (Delivery P))
      → all is_pending rows ≡ true
      → all is_sound rows ≡ true
      → all is_sound table ≡ true
      → all is_sound (dispatch_rows env rows table) ≡ true
  unfolding dispatch_rows
  dispatch_rows_sound [] table p s t = t
  dispatch_rows_sound (row ∷ rows) table p s t = elim (Option-cases (dispatch env row)) [
    | inl thrown ↦ rw (thrown, dispatch_rows) t
    | inr (r, made) ↦
        let out = dispatch_lem env row r (ground arith) (ground arith) made in
        rw (made, dispatch_rows)
          (dispatch_rows_sound rows (write_row env r table) (ground arith) (ground arith)
            (write_row_sound r table out.sound t))
  ]

  dispatch_rows-find :
      (rows table : List (Delivery P)) (i : String)
      → all is_pending rows ≡ true
      → all is_sound rows ≡ true
      → all (λ r. not (r.id == i)) rows ≡ true
      → find_row i (dispatch_rows env rows table) ≡ find_row i table
  unfolding dispatch_rows
  dispatch_rows-find [] table i p s a = refl
  dispatch_rows-find (row ∷ rows) table i p s a = elim (Option-cases (dispatch env row)) [
    | inl thrown ↦ rw (thrown, dispatch_rows) refl
    | inr (r, made) ↦
        let out = dispatch_lem env row r (ground arith) (ground arith) made in
        let apart : (r.id == i) ≡ false = rw out.same_id (ground arith) in
        rw (made, dispatch_rows)
          (dispatch_rows-find rows (write_row env r table) i (ground arith) (ground arith)
              (ground arith)
            ∙ write_row-find r table i apart)
  ]

  -- A tick on a table of sound rows leaves a table of sound rows, and the row of every id that the
  -- query did not select is as it was.
  pub run_worker_tick_lem :
      (select : List (Delivery P) → List (Delivery P)) (table : List (Delivery P))
      → Selects select
      → all is_sound table ≡ true
      → (all is_sound (run_worker_tick env select table) ≡ true)
        × ((i : String)
            → all (λ r. not (r.id == i)) (select table) ≡ true
            → find_row i (run_worker_tick env select table) ≡ find_row i table)
  unfolding run_worker_tick
  run_worker_tick_lem select table q s =
      let sound = q.from_table is_sound table s in
      let waiting = q.only_pending table in
      (
        dispatch_rows_sound (select table) table waiting sound s,
        λ i a. dispatch_rows-find (select table) table i waiting sound a,
      )
