-- ===== src/Platform/Sessions/Atomic.antt =====
-- apps/backend/app/platform/sessions.py: what the committed store keeps while a unit of work runs.
use supersonic.Prelude.{
  refl, arith, true, false, none, some, ok, raise, ◌>>=◌, pure, throw_if, Result, Bool, ap, Option,
  String, ◌≡◌, continue, ◌∙◌,
}
use supersonic.Platform.Sessions.{
  SessionAction, at_database, commit_work, now_utc, next_uuid, check_readiness,
  resolve_current_user, append_session_audit, SessionWorld, SessionError,
}
use supersonic.Platform.Store.{Store}
use supersonic.Platform.Models.{PlatformSession, User}
use supersonic.Contract.{Time}

-- Nothing is committed.
abbrev pub Quiet : {A : Type 0} → SessionAction A → Type 0
Quiet m = (w : SessionWorld) → (m w).1.store ≡ w.store

-- Nothing is committed if the action raises.
abbrev pub Atomic : {A : Type 0} → SessionAction A → Type 0
Atomic m = (w : SessionWorld) (e : SessionError) → (m w).0 ≡ raise e → (m w).1.store ≡ w.store

module _ {A B : Type 0} where
  Quiet-continue :
      (s : Store) (r : Result SessionError A × SessionWorld) (f : A → SessionAction B)
      → r.1.store ≡ s
      → ((a : A) → Quiet (f a))
      → (continue r.0 f r.1).1.store ≡ s
  Quiet-continue s (ok a, w) f h k = k a w ∙ h
  Quiet-continue s (raise e, w) f h k = h

  pub Quiet-bind :
      (m : SessionAction A) (f : A → SessionAction B)
      → Quiet m
      → ((a : A) → Quiet (f a))
      → Quiet (m >>= f)
  Quiet-bind m f h k w = Quiet-continue w.store (m w) f (h w) k

  Atomic-continue :
      (s : Store) (r : Result SessionError A × SessionWorld) (f : A → SessionAction B)
      (e : SessionError)
      → r.1.store ≡ s
      → ((a : A) → Atomic (f a))
      → (continue r.0 f r.1).0 ≡ raise e
      → (continue r.0 f r.1).1.store ≡ s
  Atomic-continue s (ok a, w) f e h k raised = k a w e raised ∙ h
  Atomic-continue s (raise x, w) f e h k raised = h

  pub Atomic-bind :
      (m : SessionAction A) (f : A → SessionAction B)
      → Quiet m
      → ((a : A) → Atomic (f a))
      → Atomic (m >>= f)
  Atomic-bind m f h k w e raised = Atomic-continue w.store (m w) f e (h w) k raised

  last-continue :
      (r : Result SessionError A × SessionWorld) (g : A → B) (e : SessionError)
      → (continue r.0 (λ a. pure (g a)) r.1).0 ≡ raise e
      → (r.0 ≡ raise e) × ((continue r.0 (λ a. pure (g a)) r.1).1 ≡ r.1)
  last-continue (ok a, w) g e raised = cc
  last-continue (raise x, w) g e raised = (ground (arith, raised), refl)

  -- What an action that cannot raise is told after a commit.
  pub Atomic-last : (m : SessionAction A) (g : A → B) → Atomic m → Atomic (m >>= λ a. pure (g a))
  Atomic-last m g h w e raised =
      let (x, same) = last-continue (m w) g e raised in ap (λ v. v.store) same ∙ h w e x

module _ {A : Type 0} where
  pub at_database-Quiet : (f : Store → A × Store) → Quiet (at_database f)
  unfolding at_database
  at_database-Quiet f w = ground arith

pub throw_if-Quiet : (b : Bool) (e : SessionError) → Quiet (throw_if b e)
throw_if-Quiet true e w = refl
throw_if-Quiet false e w = refl

pub commit_work-Atomic : Atomic commit_work
unfolding commit_work at_database
commit_work-Atomic w e raised = ground (arith, raised)

pub now_utc-Quiet : Quiet now_utc
unfolding now_utc
now_utc-Quiet w = ground arith

pub next_uuid-Quiet : Quiet next_uuid
unfolding next_uuid
next_uuid-Quiet w = refl

pub check_readiness-Quiet : Quiet check_readiness
unfolding check_readiness
check_readiness-Quiet = at_database-Quiet (λ s. (tt, s))

pub resolve_current_user-Quiet :
    (found : Option PlatformSession) (now : Time) → Quiet (resolve_current_user found now)
unfolding resolve_current_user at_database
resolve_current_user-Quiet none now w = refl
resolve_current_user-Quiet (some p) now w = ground arith

pub append_session_audit-Quiet :
    (action : String) (now : Time) (user : User) (id : String)
    → Quiet (append_session_audit action now user id)
unfolding append_session_audit next_uuid at_database
append_session_audit-Quiet action now user id w = ground arith
