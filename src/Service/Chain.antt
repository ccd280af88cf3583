-- ===== src/Service/Chain.antt =====
-- The sequences of calls of service.go: what a success of the whole says of each call.
use frimo_messenger.Base.{◌≡◌, refl, String}
use frimo_messenger.Errors.{Error, Result, ok, err}
use frimo_messenger.Service.Ports.{
  Ports, Call, Observation, pure, lift, continue, report, with_text,
}

-- A chain that succeeds: its first call did, and the rest did after it.
pub continue-ok :
    {W A B : Type 0}
    → (r : Result A × W) (f : A → Call W B) {b : B} {w' : W} → continue r f ≡ (ok b, w')
    → (a : A) × (w1 : W) × (r ≡ (ok a, w1)) × (f a w1 ≡ (ok b, w'))
continue-ok (ok a, w1) f h = (a, w1, refl, h)
continue-ok (err e, w1) f h = cc

-- The same of a check.
pub check-ok :
    {W B : Type 0}
    → (r : Result (Unit {0})) (w : W) (f : Unit {0} → Call W B) {b : B} {w' : W}
    → continue (lift r w) f ≡ (ok b, w')
    → (r ≡ ok tt) × (f tt w ≡ (ok b, w'))
check-ok (ok tt) w f h = (refl, h)
check-ok (err e) w f h = cc

-- Around an error a text is put, around a result nothing.
pub wrapping-ok :
    {W A : Type 0}
    → (m : String) (r : Result A × W) {a : A} {w' : W} → with_text m r ≡ (ok a, w')
    → r ≡ (ok a, w')
wrapping-ok m (ok a, w) h = h
wrapping-ok m (err e, w) h = cc

module _ {W : Type 0} (p : Ports W) where
  -- A call that is only observed does not end the flow.
  pub reported-goes_on :
      {B : Type 0}
      → (o : Error → Observation) (r : Result (Unit {0}) × W) (n : Call W B)
      → continue (report p o r) (λ _. n) ≡ n (report p o r).1
  reported-goes_on o (ok x, w) n = refl
  reported-goes_on o (err e, w) n = refl

  pub reported-pure :
      {A : Type 0}
      → (o : Error → Observation) (r : Result (Unit {0}) × W) (a : A)
      → (continue (report p o r) (λ _. pure a)).0 ≡ ok a
  reported-pure o (ok x, w) a = refl
  reported-pure o (err e, w) a = refl

-- A result without a call.
pub pure-ok :
    {W A : Type 0}
    → (a : A) (w : W) {b : A} {w' : W} → pure {W = W} a w ≡ (ok b, w')
    → (b ≡ a) × (w' ≡ w)
pure-ok a w h = (cc, cc)

-- What every call keeps, the chain keeps.
module _ {ℓ} {W : Type 0} (P : W → Type ℓ) where
  pub continue_keeps :
      {A B : Type 0}
      → (r : Result A × W) (f : A → Call W B) → P r.1
      → ((a : A) (w : W) → P w → P (f a w).1)
      → P (continue r f).1
  continue_keeps (ok a, w) f h next = next a w h
  continue_keeps (err e, w) f h next = h

  pub with_text_keeps : {A : Type 0} → (m : String) (r : Result A × W) → P r.1 → P (with_text m r).1
  with_text_keeps m (ok a, w) h = h
  with_text_keeps m (err e, w) h = h

  pub report_keeps :
      (p : Ports W) (o : Error → Observation) (r : Result (Unit {0}) × W)
      → ((e : Error) (w : W) → P w → P (p.observe (o e) w))
      → P r.1
      → P (report p o r).1
  report_keeps p o (ok x, w) kept h = h
  report_keeps p o (err e, w) kept h = kept e w h
