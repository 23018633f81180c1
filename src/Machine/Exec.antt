-- ===== src/Machine/Exec.antt =====
-- Actions on the machine that may raise. What was done before a raise stays done.
use postfix_m365_relay.Base.{◌∷◌}
use postfix_m365_relay.Machine.Types.{Machine, Event, Failure, Outcome, ok, raised}

abbrev pub Exec : Type 0 → Type 0
Exec A = Machine → Outcome A × Machine

module _ {A : Type 0} where
  unfoldable pub pure : A → Exec A
  pure a s = (ok a, s)

  unfoldable pub raise : Failure → Exec A
  raise e s = (raised e, s)

  unfoldable pub lift : Outcome A → Exec A
  lift r s = (r, s)

  unfoldable pub gets : (Machine → A) → Exec A
  gets f s = (ok (f s), s)

  -- `try: … except Exception`
  unfoldable pub attempt : Exec A → Exec (Outcome A)
  attempt m s = let (r, s') = m s in (ok r, s')

module _ {A B : Type 0} where
  abbrev pub resume : Outcome A → (A → Exec B) → Exec B
  resume (ok a) f s = f a s
  resume (raised e) f s = (raised e, s)

  infixl 10 ◌>>=◌ ◌>>◌
  unfoldable pub ◌>>=◌ : Exec A → (A → Exec B) → Exec B
  unfolding pure raise lift gets attempt
  ◌>>=◌ m f s = let (r, s') = m s in resume r f s'

  abbrev pub ◌>>◌ : Exec A → Exec B → Exec B
  m >> n = m >>= λ _. n

abbrev pub emitted : Event → Machine → Machine
emitted e s = record s { history = e ∷ s.history }

unfoldable pub emit : Event → Exec (Unit {0})
emit e s = (ok tt, emitted e s)
