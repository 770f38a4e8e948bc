-- ===== src/Installer/Action/Keeping.antt =====
-- Actions that keep what `Keeps` says, from whatever state they start, failing or not.
use pulse_sdk.Prelude.{Bool, true, false, Result, ok, err, ◌≡◌, refl, Option, none, some}
use pulse_sdk.Installer.Paths.{Key}
use pulse_sdk.Installer.Fs.{Fs, Bytes}
use pulse_sdk.Installer.Fs.Frame.{Keeps, Keeps-refl, Keeps-trans}
use pulse_sdk.Installer.Action.{
  InstallError, Action, pure, raise, ◌>>=◌, then_do, attempt, outcome, attempt_read, read_outcome,
}

module _ (touched leaf : Key → Bool) where
  pub record IsKeeping {A : Type 0} (m : Action A) : Type 0 where
    pub from : (fs : Fs) → Keeps touched leaf fs (m fs).1

  pub pure-IsKeeping : {A : Type 0} (a : A) → IsKeeping (pure a)
  pure-IsKeeping a = record { from = Keeps-refl touched leaf }

  pub raise-IsKeeping : {A : Type 0} (e : InstallError) → IsKeeping (raise {A = A} e)
  raise-IsKeeping e = record { from = Keeps-refl touched leaf }

  pub bind-IsKeeping :
      {A B : Type 0} (m : Action A) (f : A → Action B)
      → IsKeeping m
      → ((a : A) → IsKeeping (f a))
      → IsKeeping (m >>= f)
  bind-IsKeeping {A} {B} m f h k = record { from = λ fs. go fs (m fs).0 (m fs).1 (h.from fs) }
    where
      go :
          (fs : Fs) (r : Result InstallError A) (fs' : Fs)
          → Keeps touched leaf fs fs'
          → Keeps touched leaf fs (then_do r f fs').1
      go fs (ok a) fs' kept = Keeps-trans touched leaf fs fs' (f a fs').1 kept ((k a).from fs')
      go fs (err e) fs' kept = kept

  pub attempt-IsKeeping :
      (e : InstallError) (op : Fs → Bool × Fs)
      → ((fs : Fs) → Keeps touched leaf fs (op fs).1)
      → IsKeeping (attempt e op)
  attempt-IsKeeping e op h = record { from = λ fs. go fs (op fs).0 (op fs).1 (h fs) }
    where
      go :
          (fs : Fs) (b : Bool) (fs' : Fs)
          → Keeps touched leaf fs fs'
          → Keeps touched leaf fs (outcome e (b, fs')).1
      go fs true fs' kept = kept
      go fs false fs' kept = kept

  pub attempt_read-IsKeeping :
      (e : InstallError) (op : Fs → Option Bytes × Fs)
      → ((fs : Fs) → Keeps touched leaf fs (op fs).1)
      → IsKeeping (attempt_read e op)
  attempt_read-IsKeeping e op h = record { from = λ fs. go fs (op fs).0 (op fs).1 (h fs) }
    where
      go :
          (fs : Fs) (b : Option Bytes) (fs' : Fs)
          → Keeps touched leaf fs fs'
          → Keeps touched leaf fs (read_outcome e (b, fs')).1
      go fs none fs' kept = kept
      go fs (some b) fs' kept = kept

-- What an action returns when it succeeds.
pub record Returns {A : Type 0} (P : A → Type 0) (m : Action A) : Type 0 where
  pub at : (fs : Fs) (a : A) → (m fs).0 ≡ ok a → P a

module _ {A B : Type 0} (P : A → Type 0) (m : Action A) (f : A → Action B) where
  -- What follows a step may rely on what the step returns.
  pub bind-Returns-IsKeeping :
      (touched leaf : Key → Bool)
      → IsKeeping touched leaf m
      → Returns P m
      → ((a : A) → P a → IsKeeping touched leaf (f a))
      → IsKeeping touched leaf (m >>= f)
  bind-Returns-IsKeeping touched leaf h r k = record {
    from = λ fs. go fs (m fs).0 (m fs).1 (r.at fs) (h.from fs);
  }
    where
      go :
          (fs : Fs) (o : Result InstallError A) (fs' : Fs)
          → ((a : A) → o ≡ ok a → P a)
          → Keeps touched leaf fs fs'
          → Keeps touched leaf fs (then_do o f fs').1
      go fs (ok a) fs' p kept =
          Keeps-trans touched leaf fs fs' (f a fs').1 kept ((k a (p a refl)).from fs')
      go fs (err e) fs' p kept = kept

-- A successful chain has a successful first step.
pub >>=-eq-ok :
    {A B : Type 0} (m : Action A) (f : A → Action B) (fs fs' : Fs) (b : B)
    → (m >>= f) fs ≡ (ok b, fs')
    → (a : A) × (mid : Fs) × (m fs ≡ (ok a, mid)) × (f a mid ≡ (ok b, fs'))
>>=-eq-ok {A} {B} m f fs fs' b h = go (m fs).0 (m fs).1 refl h
  where
    go :
        (r : Result InstallError A) (mid : Fs)
        → m fs ≡ (r, mid)
        → then_do r f mid ≡ (ok b, fs')
        → (a : A) × (mid : Fs) × (m fs ≡ (ok a, mid)) × (f a mid ≡ (ok b, fs'))
    go (ok a) mid e h' = (a, mid, e, h')
    go (err x) mid e h' = cc
