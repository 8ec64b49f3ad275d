-- ===== src/Webhook/WorkerRuns.antt =====
-- Dispatches one after another: the end of a delivery, and a tick on the table.
use boject_cms.Common.{
  ℕ, ◌+◌, ◌≤◌, ◌≡◌, refl, String, inl, inr, Bool, true, false, ◌||◌, not, List, [], ◌∷◌, Option,
  none, some, length, arith, Bool-cases, Option-cases, if◌then◌else◌, truthy,
}
use boject_cms.Webhook.Worker.{
  Delivery, Environment, Resolution, resolved, refused, threw, guarded, checked, dispatch_external,
  dispatch,
}
use boject_cms.Webhook.WorkerLaws.{is_pending, is_sound, dispatch_lem}

abbrev pub is_threw : Resolution → Bool
is_threw threw = true
is_threw _ = false

-- An environment whose name resolution gives an answer or a `WebhookDnsError`, never another error.
abbrev pub Steady : {P : Type 0} → Environment P → Type 0
Steady env = (url : String) → is_threw (env.resolve url) ≡ false

abbrev Given : {A : Type 0} → Option A → Type 0
Given {A} o = (a : A) × (o ≡ some a)

module _ {P : Type 0} (env : Environment P) (steady : Steady env) where
  guarded-Given :
      (d : Delivery P) (n : ℕ) (url secret : String) (r : Resolution)
      → is_threw r ≡ false
      → Given (guarded env d n url secret r)
  unfolding guarded
  guarded-Given d n url secret (resolved pinned) h = (_, refl)
  guarded-Given d n url secret (refused reason) h = (_, refl)
  guarded-Given d n url secret threw h = cc

  checked-Given :
      (private : Bool) (d : Delivery P) (n : ℕ) (url secret : String)
      → Given (checked env private d n url secret)
  unfolding checked
  checked-Given true d n url secret = (_, refl)
  checked-Given false d n url secret = guarded-Given d n url secret (env.resolve url) (steady url)

  external-Given :
      (d : Delivery P) (n : ℕ) (url secret : Option String)
      → Given (dispatch_external env d n url secret)
  unfolding dispatch_external
  external-Given d n none secret = (_, refl)
  external-Given d n (some url) none = (_, refl)
  external-Given d n (some url) (some secret) =
      elim (Bool-cases (not (truthy (some url)) || not (truthy (some secret)))) [
        | inl blank ↦ rw blank (_, refl)
        | inr given ↦ rw given (checked-Given env.allow_private d n url secret)
      ]

  dispatch-Given : (d : Delivery P) → Given (dispatch env d)
  unfolding dispatch
  dispatch-Given d = elim (Option-cases (env.find_webhook d.webhook_id)) [
    | inl gone ↦ rw (gone, dispatch) (_, refl)
    | inr (webhook, there) ↦ elim (Bool-cases webhook.is_internal) [
      | inl internal ↦ rw (there, dispatch, internal) (_, refl)
      | inr external ↦
          rw (there, dispatch, external)
            (external-Given d (d.attempts + 1) webhook.url webhook.secret)
    ]
  ]

-- A row after a dispatch, or the row itself after a throw.
abbrev pub kept {ℓ} : {A : Type ℓ} → A → Option A → A
kept d none = d
kept d (some r) = r

module _ {P : Type 0} where
  -- A history: the row is dispatched in one environment after another for as long as it is pending.
  unfoldable pub run_attempts : List (Environment P) → Delivery P → Delivery P
  run_attempts [] d = d
  run_attempts (e ∷ es) d = if is_pending d then run_attempts es (kept d (dispatch e d)) else d

  abbrev pub AllSteady : List (Environment P) → Type 0
  AllSteady [] = Unit
  AllSteady (e ∷ es) = Steady e × AllSteady es

  run_attempts_done :
      (es : List (Environment P)) (d : Delivery P) → is_pending d ≡ false → run_attempts es d ≡ d
  unfolding run_attempts
  run_attempts_done [] d h = refl
  run_attempts_done (e ∷ es) d h = rw h

  -- A sound delivery that is dispatched in steady environments, as many as it has attempts left of
  -- its six, is no longer pending at the end, and sound.
  pub run_attempts_lem :
      (es : List (Environment P)) (d : Delivery P)
      → AllSteady es
      → is_sound d ≡ true
      → 6 ≤ d.attempts + length es
      → (is_pending (run_attempts es d) ≡ false) × (is_sound (run_attempts es d) ≡ true)
  unfolding run_attempts
  run_attempts_lem [] d steady s enough = (ground arith, s)
  run_attempts_lem (e ∷ es) d (steady, more) s enough = elim (Bool-cases (is_pending d)) [
    | inr ended ↦ rw ended (ended, s)
    | inl p ↦
        let (d', made) = dispatch-Given e steady d in
        let out = dispatch_lem e d d' p s made in
        rw (p, made)
          (elim (Bool-cases (is_pending d')) [
            | inr ended ↦ rw (run_attempts_done es d' ended) (ended, out.sound)
            | inl again ↦
                let (delay, n, _, _) = out.retried again in
                run_attempts_lem es d' more out.sound (omega arith)
          ])
  ]
