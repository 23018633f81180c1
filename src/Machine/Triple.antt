-- ===== src/Machine/Triple.antt =====
-- What holds before and after an action, whether it returns or raises.
use postfix_m365_relay.Base.{◌≡◌, refl, Bool, true, false, if◌then◌else◌}
use postfix_m365_relay.Machine.Types.{Machine, Failure, Outcome, ok, raised}
use postfix_m365_relay.Machine.Exec.{Exec, pure, raise, lift, gets, attempt, ◌>>=◌, resume}

module _ {A : Type 0} (Q : A → Machine → Type 0) (E : Machine → Type 0) where
  abbrev pub After : Outcome A → Machine → Type 0
  After (ok a) s = Q a s
  After (raised e) s = E s

-- From a machine with `P`, `m` returns with `Q` of its result or raises with `E`.
pub record Triple {A : Type 0} (P : Machine → Type 0) (m : Exec A) (Q : A → Machine → Type 0)
    (E : Machine → Type 0) : Type 0 where
  pub run : (s : Machine) → P s → After Q E (m s).0 (m s).1

-- An action that keeps `P` on both ways out.
abbrev pub Keeps : {A : Type 0} → (Machine → Type 0) → Exec A → Type 0
Keeps P m = Triple P m (λ _. P) P

module _ {A : Type 0} {P : Machine → Type 0} {Q : A → Machine → Type 0} {E : Machine → Type 0} where
  pub Triple-pure : (a : A) → ((s : Machine) → P s → Q a s) → Triple P (pure a) Q E
  unfolding pure
  Triple-pure a h = record { run = h }

  pub Triple-raise : (e : Failure) → ((s : Machine) → P s → E s) → Triple P (raise e) Q E
  unfolding raise
  Triple-raise e h = record { run = h }

  pub Triple-if :
      (b : Bool) {m n : Exec A}
      → (b ≡ true → Triple P m Q E)
      → (b ≡ false → Triple P n Q E)
      → Triple P (if b then m else n) Q E
  Triple-if true hm hn = hm refl
  Triple-if false hm hn = hn refl

  -- A fact that no longer depends on the machine.
  pub Triple-fact : {F : Type 0} {m : Exec A} → (F → Triple P m Q E) → Triple (λ s. P s × F) m Q E
  Triple-fact h = record { run = λ s p. (h p.1).run s p.0 }

  -- From a stronger precondition.
  pub Triple-before :
      {P' : Machine → Type 0} {m : Exec A}
      → ((s : Machine) → P' s → P s)
      → Triple P m Q E
      → Triple P' m Q E
  Triple-before h t = record { run = λ s p. t.run s (h s p) }

  -- To a weaker postcondition.
  pub Triple-after :
      {Q' : A → Machine → Type 0} {E' : Machine → Type 0} {m : Exec A}
      → ((a : A) (s : Machine) → Q a s → Q' a s)
      → ((s : Machine) → E s → E' s)
      → Triple P m Q E
      → Triple P m Q' E'
  Triple-after {Q'} {E'} {m} hq he t = record { run = λ s p. weaken (m s).0 (m s).1 (t.run s p) }
    where
      weaken : (r : Outcome A) (s : Machine) → After Q E r s → After Q' E' r s
      weaken (ok a) s h = hq a s h
      weaken (raised e) s h = he s h

-- Two triples of one action.
pub Triple-and :
    {A : Type 0} {P R E F : Machine → Type 0} {Q S : A → Machine → Type 0} {m : Exec A}
    → Triple P m Q E
    → Triple R m S F
    → Triple (λ s. P s × R s) m (λ a s. Q a s × S a s) (λ s. E s × F s)
Triple-and {A} {E} {F} {Q} {S} {m} t u = record {
  run = λ s h. both (m s).0 (m s).1 (t.run s h.0) (u.run s h.1);
}
  where
    both :
        (r : Outcome A) (s : Machine)
        → After Q E r s
        → After S F r s
        → After (λ a s. Q a s × S a s) (λ s. E s × F s) r s
    both (ok a) s h k = (h, k)
    both (raised e) s h k = (h, k)

-- What was raised is looked at instead of raised again.
pub Triple-attempt :
    {A : Type 0} {P E F : Machine → Type 0} {Q : A → Machine → Type 0} {m : Exec A}
    → Triple P m Q E
    → Triple P (attempt m) (After Q E) F
unfolding attempt
Triple-attempt t = record { run = t.run }

module _ {A B : Type 0} {P : Machine → Type 0} {R : A → Machine → Type 0} {Q : B → Machine → Type 0}
    {E : Machine → Type 0} where
  pub Triple-bind :
      {m : Exec A} {f : A → Exec B}
      → Triple P m R E
      → ((a : A) → Triple (R a) (f a) Q E)
      → Triple P (m >>= f) Q E
  unfolding ◌>>=◌
  Triple-bind {m} {f} tm tf = record { run = λ s p. next (m s).0 (m s).1 (tm.run s p) }
    where
      next :
          (r : Outcome A) (s : Machine)
          → After R E r s
          → After Q E (resume r f s).0 (resume r f s).1
      next (ok a) s h = (tf a).run s h
      next (raised e) s h = h

module _ {A : Type 0} {P E : Machine → Type 0} where
  -- A result that is at hand is returned with its equation.
  pub Triple-lift :
      (r : Outcome A) → ((s : Machine) → P s → E s) → Triple P (lift r) (λ a s. P s × (r ≡ ok a)) E
  unfolding lift
  Triple-lift (ok a) h = record { run = λ s p. (p, refl) }
  Triple-lift (raised e) h = record { run = λ s p. h s p }

module _ {A : Type 0} {P : Machine → Type 0} where
  pub Keeps-pure : (a : A) → Keeps P (pure a)
  Keeps-pure a = Triple-pure a (λ s h. h)

  pub Keeps-raise : (e : Failure) → Keeps P (raise {A = A} e)
  Keeps-raise e = Triple-raise e (λ s h. h)

  pub Keeps-lift : (r : Outcome A) → Keeps P (lift r)
  unfolding lift
  Keeps-lift (ok a) = record { run = λ s h. h }
  Keeps-lift (raised e) = record { run = λ s h. h }

  pub Keeps-gets : (f : Machine → A) → Keeps P (gets f)
  unfolding gets
  Keeps-gets f = record { run = λ s h. h }

  pub Keeps-if : (b : Bool) {m n : Exec A} → Keeps P m → Keeps P n → Keeps P (if b then m else n)
  Keeps-if true hm hn = hm
  Keeps-if false hm hn = hn

  pub Keeps-attempt : {m : Exec A} → Keeps P m → Keeps P (attempt m)
  unfolding attempt
  Keeps-attempt {m} t = record { run = λ s h. both (m s).0 (m s).1 (t.run s h) }
    where
      both : (r : Outcome A) (s : Machine) → After (λ _. P) P r s → P s
      both (ok a) s h = h
      both (raised e) s h = h

-- What both ways out have in common.
pub Triple-final :
    {A : Type 0} {P R : Machine → Type 0} {m : Exec A}
    → Triple P m (λ _. R) R
    → (s : Machine) → P s
    → R (m s).1
Triple-final {A} {R} {m} t s h = either (m s).0 (m s).1 (t.run s h)
  where
    either : (r : Outcome A) (s : Machine) → After (λ _. R) R r s → R s
    either (ok a) s h = h
    either (raised e) s h = h

pub Keeps-bind :
    {A B : Type 0} {P : Machine → Type 0} {m : Exec A} {f : A → Exec B}
    → Keeps P m
    → ((a : A) → Keeps P (f a))
    → Keeps P (m >>= f)
Keeps-bind tm tf = Triple-bind tm tf

pub ruleset keeps_rules =
    (Keeps-pure, Keeps-raise, Keeps-lift, Keeps-gets, Keeps-if, Keeps-attempt, Keeps-bind)
