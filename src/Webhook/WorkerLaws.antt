-- ===== src/Webhook/WorkerLaws.antt =====
-- What a dispatch leaves, that a delivery is tried at most six times, and that a tick keeps the
-- rows sound.
use boject_cms.Common.{
  ℕ, zero, suc, ◌/◌, ◌+◌, ◌≤◌, ◌<◌, ◌≡◌, refl, sym, ◌↔◌, ◌⊎◌, String, inl, inr, Bool, true, false,
  ◌&&◌, ◌||◌, not, List, Option, none, some, ltb, leb, arith, Bool-cases, Option-cases,
  if◌then◌else◌, truthy,
}
use mathlib.Core.Path.{subst}
use boject_cms.Webhook.Backoff.{backoff_ms}
use boject_cms.Webhook.Worker.{
  pending, Delivery, Environment, Resolution, resolved, refused, threw, settle_internal,
  dispatch_internal, settle_external, post, guarded, checked, unconfigured, dispatch_external,
  dispatch, retry_at, request_headers, Exchange, succeeded, response_code,
}

-- The delays, one by one.
abbrev IsDelay : ℕ → ℕ → Type 0
IsDelay a x =
    ((a ≡ 1) × (x ≡ 1000))
    ⊎ ((a ≡ 2) × (x ≡ 10000))
    ⊎ ((a ≡ 3) × (x ≡ 60000))
    ⊎ ((a ≡ 4) × (x ≡ 600000))
    ⊎ ((a ≡ 5) × (x ≡ 3600000))
    ⊎ ((a ≡ 6) × (x ≡ 21600000))

backoff_ms-IsDelay : (a x : ℕ) → backoff_ms a ≡ some x → IsDelay a x
unfolding backoff_ms
backoff_ms-IsDelay zero x h = cc
backoff_ms-IsDelay (suc zero) x h = ground arith
backoff_ms-IsDelay (suc (suc zero)) x h = ground arith
backoff_ms-IsDelay (suc (suc (suc zero))) x h = ground arith
backoff_ms-IsDelay (suc (suc (suc (suc zero)))) x h = ground arith
backoff_ms-IsDelay (suc (suc (suc (suc (suc zero))))) x h = ground arith
backoff_ms-IsDelay (suc (suc (suc (suc (suc (suc zero)))))) x h = ground arith
backoff_ms-IsDelay (suc (suc (suc (suc (suc (suc (suc n))))))) x h = ground arith

delay_at : (a : ℕ) → 1 ≤ a → a ≤ 6 → (x : ℕ) × (backoff_ms a ≡ some x)
unfolding backoff_ms
delay_at zero l u = absurd (omega arith)
delay_at (suc zero) l u = (1000, refl)
delay_at (suc (suc zero)) l u = (10000, refl)
delay_at (suc (suc (suc zero))) l u = (60000, refl)
delay_at (suc (suc (suc (suc zero)))) l u = (600000, refl)
delay_at (suc (suc (suc (suc (suc zero))))) l u = (3600000, refl)
delay_at (suc (suc (suc (suc (suc (suc zero)))))) l u = (21600000, refl)
delay_at (suc (suc (suc (suc (suc (suc (suc n))))))) l u = absurd (omega arith)

-- The schedule has a delay exactly for the attempts from 1 to 6, and the delays grow.
pub backoff_ms_lem :
    (a b : ℕ)
    → (((x : ℕ) × (backoff_ms a ≡ some x)) ↔ ((1 ≤ a) × (a ≤ 6)))
      × ((x y : ℕ) → backoff_ms a ≡ some x → backoff_ms b ≡ some y → a < b → x < y)
backoff_ms_lem a b = (
  (
    λ (x, h). (ground (arith, backoff_ms-IsDelay a x h), ground (arith, backoff_ms-IsDelay a x h)),
    λ (l, u). delay_at a l u,
  ),
  λ x y h k lt. ground (arith, backoff_ms-IsDelay a x h, backoff_ms-IsDelay b y k),
)

abbrev pub is_pending : {P : Type 0} → Delivery P → Bool
is_pending d = elim d.status [ pending ↦ true | _ ↦ false ]

abbrev pub has_time : Option ℕ → Bool
has_time none = false
has_time (some _) = true

-- A row that is still pending has attempts left and no time of completion; any other row has one,
-- and at most six attempts.
abbrev pub is_sound : {P : Type 0} → Delivery P → Bool
is_sound d =
    if is_pending d
    then ltb d.attempts 6 && not (has_time d.completed_at)
    else leb d.attempts 6 && has_time d.completed_at

module _ {P : Type 0} (env : Environment P) where
  -- What a dispatch makes of a row.
  pub record IsOutcome (d d' : Delivery P) : Type 0 where
    pub sound : is_sound d' ≡ true
    pub same_id : d'.id ≡ d.id
    pub retried :
        is_pending d' ≡ true
        → (delay : ℕ) × (d'.attempts ≡ d.attempts + 1)
          × (backoff_ms d'.attempts ≡ some delay)
          × (d'.next_attempt_at ≡ some (env.now + delay))
    pub ended : is_pending d' ≡ false → d'.completed_at ≡ some env.now

  ended-IsOutcome :
      (d d' : Delivery P)
      → is_pending d' ≡ false
      → d'.attempts ≤ 6
      → d'.completed_at ≡ some env.now
      → d'.id ≡ d.id
      → IsOutcome d d'
  ended-IsOutcome d d' e n c i = record {
    sound = ground arith;
    same_id = i;
    retried = λ p. ground arith;
    ended = λ p. c;
  }

  retried-IsOutcome :
      (d d' : Delivery P)
      → is_pending d ≡ true
      → is_sound d ≡ true
      → is_pending d' ≡ true
      → d'.attempts ≡ d.attempts + 1
      → d.attempts + 1 < 6
      → d'.completed_at ≡ d.completed_at
      → d'.next_attempt_at ≡ some (retry_at env.now (d.attempts + 1))
      → d'.id ≡ d.id
      → IsOutcome d d'
  retried-IsOutcome d d' p s r n l c t i =
      let (delay, scheduled) = delay_at (d.attempts + 1) (omega arith) (omega arith) in
      record {
        sound = ground arith;
        same_id = i;
        retried =
            λ q. (delay, n, subst (λ m. backoff_ms m ≡ some delay) (sym n) scheduled, ground arith);
        ended = λ q. ground arith;
      }

  module _ (d : Delivery P) (p : is_pending d ≡ true) (s : is_sound d ≡ true) where
    left : d.attempts < 6
    left = ground arith

    settle_external_lem :
        (headers : List (String × String)) (ex : Exchange)
        → IsOutcome d (settle_external env d (d.attempts + 1) headers ex)
    unfolding settle_external
    settle_external_lem headers ex = elim (Bool-cases (succeeded (response_code ex))) [
      | inl hit ↦ rw hit (ended-IsOutcome d _ refl (omega (arith, left)) refl refl)
      | inr miss ↦ elim (Bool-cases (ltb (d.attempts + 1) 6)) [
        | inl more ↦
            rw (miss, more) (retried-IsOutcome d _ p s refl refl (ground arith) refl refl refl)
        | inr last ↦ rw (miss, last) (ended-IsOutcome d _ refl (omega (arith, left)) refl refl)
      ]
    ]

    settle_internal_lem :
        (error : Option String) → IsOutcome d (settle_internal env d (d.attempts + 1) error)
    unfolding settle_internal
    settle_internal_lem none = ended-IsOutcome d _ refl (omega (arith, left)) refl refl
    settle_internal_lem (some error) = elim (Bool-cases (ltb (d.attempts + 1) 6)) [
      | inl more ↦ rw more (retried-IsOutcome d _ p s refl refl (ground arith) refl refl refl)
      | inr last ↦ rw last (ended-IsOutcome d _ refl (omega (arith, left)) refl refl)
    ]

    -- What a dispatch makes of the row, where it does not throw.
    abbrev Leaves : Option (Delivery P) → Type 0
    Leaves none = Unit
    Leaves (some d') = IsOutcome d d'

    post_lem :
        (url secret : String) (pinned : Option String)
        → IsOutcome d (post env d (d.attempts + 1) url secret pinned)
    unfolding post
    post_lem url secret pinned =
        let body = env.stringify d.payload in
        let headers = request_headers env d (env.sign_payload secret (env.now / 1000) body) in
        settle_external_lem headers
          (env.fetch url (record { headers = headers; body = body; pinned = pinned }))

    guarded_lem :
        (url secret : String) (r : Resolution)
        → Leaves (guarded env d (d.attempts + 1) url secret r)
    unfolding guarded
    guarded_lem url secret (resolved pinned) = post_lem url secret pinned
    guarded_lem url secret (refused reason) =
        ended-IsOutcome d _ refl (omega (arith, left)) refl refl
    guarded_lem url secret threw = tt

    checked_lem :
        (private : Bool) (url secret : String)
        → Leaves (checked env private d (d.attempts + 1) url secret)
    unfolding checked
    checked_lem true url secret = post_lem url secret none
    checked_lem false url secret = guarded_lem url secret (env.resolve url)

    unconfigured_lem : IsOutcome d (unconfigured env d (d.attempts + 1))
    unfolding unconfigured
    unconfigured_lem = ended-IsOutcome d _ refl (omega (arith, left)) refl refl

    dispatch_external_lem :
        (url secret : Option String) → Leaves (dispatch_external env d (d.attempts + 1) url secret)
    unfolding dispatch_external
    dispatch_external_lem none secret = unconfigured_lem
    dispatch_external_lem (some url) none = unconfigured_lem
    dispatch_external_lem (some url) (some secret) =
        elim (Bool-cases (not (truthy (some url)) || not (truthy (some secret)))) [
          | inl blank ↦ rw blank unconfigured_lem
          | inr given ↦ rw given (checked_lem env.allow_private url secret)
        ]

    dispatch_internal_lem :
        (name : String) → IsOutcome d (dispatch_internal env d name (d.attempts + 1))
    unfolding dispatch_internal
    dispatch_internal_lem name = elim (Option-cases (env.internal_handlers name)) [
      | inl absent ↦
          rw (absent, dispatch_internal) (ended-IsOutcome d _ refl (omega (arith, left)) refl refl)
      | inr (handler, there) ↦
          rw (there, dispatch_internal) (settle_internal_lem (handler d.payload))
    ]

    dispatch-Leaves : Leaves (dispatch env d)
    unfolding dispatch
    dispatch-Leaves = elim (Option-cases (env.find_webhook d.webhook_id)) [
      | inl gone ↦ rw (gone, dispatch) (ended-IsOutcome d _ refl (omega (arith, left)) refl refl)
      | inr (webhook, there) ↦ elim (Bool-cases webhook.is_internal) [
        | inl internal ↦ rw (there, dispatch, internal) (dispatch_internal_lem webhook.name)
        | inr external ↦
            rw (there, dispatch, external) (dispatch_external_lem webhook.url webhook.secret)
      ]
    ]

  -- A dispatch of a pending row with attempts left that does not throw leaves a sound row of the
  -- same id. Where the row is pending again, it has one attempt more, and its next attempt is due
  -- after the delay that the schedule has for it; where it is not, it is completed now.
  pub dispatch_lem :
      (d d' : Delivery P)
      → is_pending d ≡ true
      → is_sound d ≡ true
      → dispatch env d ≡ some d'
      → IsOutcome d d'
  dispatch_lem d d' p s h = subst (Leaves d p s) h (dispatch-Leaves d p s)
