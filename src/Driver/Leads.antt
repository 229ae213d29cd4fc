-- ===== src/Driver/Leads.antt =====
-- What holds between before and after when a computation returns a value: a relation that may
-- speak of the value, put together along the steps that led to it.
use staking_api_service.Base.{Bool, true, false, ◌≡◌, ◌≢◌, refl, subst, arith, if◌then◌else◌}
use staking_api_service.Base.Exec.{Result, ok, err, Exec, pure, fail, try, ◌>>=◌, resume}
use staking_api_service.Types.Errors.{GoError}
use staking_api_service.Driver.{
  Mongo, Visible, World, Fate, delivered, lost, unacknowledged, call, answer, next_fate,
  later_fates,
}
use staking_api_service.Driver.Keeps.{Preorder, KeepsOk}

module _ {m : Mongo} {E A : Type 0} where
  pub record Leads (R : A → Visible m → Visible m → Type 0) (c : Exec (World m) E A) : Type 0 where
    pub at : (w : World m) (a : A) → (c w).0 ≡ ok a → R a w.visible (c w).1.visible

module _ {E A : Type 0} where
  pub err-ok : {e : E} {a : A} → err e ≢ ok a
  err-ok h = ground (arith, h)

  -- what a predicate of the value says of a result
  abbrev pub OfValue : (A → Type 0) → Result E A → Type 0
  OfValue p (ok a) = p a
  OfValue p (err e) = Unit {0}

module _ {m : Mongo} {E A : Type 0} {R : A → Visible m → Visible m → Type 0} where
  pub Leads-fail : (e : E) → Leads R (fail e)
  unfolding fail
  Leads-fail e = record { at = λ w a h. absurd (err-ok h) }

  pub Leads-pure : (a : A) → ((v : Visible m) → R a v v) → Leads {E = E} R (pure a)
  unfolding pure
  Leads-pure a r = record {
    at = λ w b h. subst (OfValue (λ b. R b w.visible w.visible)) h (r w.visible);
  }

  pub Leads-weaken :
      {S : A → Visible m → Visible m → Type 0} {c : Exec (World m) E A}
      → Leads R c
      → ((a : A) (u v : Visible m) → R a u v → S a u v)
      → Leads S c
  Leads-weaken l f = record { at = λ w a h. f a _ _ (l.at w a h) }

  pub Leads-if :
      (b : Bool) {c d : Exec (World m) E A}
      → (b ≡ true → Leads R c)
      → (b ≡ false → Leads R d)
      → Leads R (if b then c else d)
  Leads-if true f g = f refl
  Leads-if false f g = g refl

module _ {m : Mongo} {E A B : Type 0} {R : A → Visible m → Visible m → Type 0}
    {S : A → B → Visible m → Visible m → Type 0} {T : B → Visible m → Visible m → Type 0}
    (join : (a : A) (b : B) (u v w : Visible m) → R a u v → S a b v w → T b u w) where
  resume-Leads :
      (r : Result E A) (f : A → Exec (World m) E B) (u : Visible m) (w : World m) (b : B)
      → ((a : A) → r ≡ ok a → R a u w.visible)
      → ((a : A) → Leads (S a) (f a))
      → (resume r f fail w).0 ≡ ok b
      → T b u (resume r f fail w).1.visible
  unfolding fail
  resume-Leads (ok a) f u w b before after h = join a b _ _ _ (before a refl) ((after a).at w b h)
  resume-Leads (err e) f u w b before after h = absurd (err-ok h)

  pub Leads-bind :
      {c : Exec (World m) E A} {f : A → Exec (World m) E B}
      → Leads R c
      → ((a : A) → Leads (S a) (f a))
      → Leads T (c >>= f)
  unfolding ◌>>=◌ try
  Leads-bind {c = c} {f = f} before after = record {
    at = λ w b h. resume-Leads (c w).0 f w.visible (c w).1 b (before.at w) after h;
  }

module _ {m : Mongo} {A : Type 0} (R : A → Visible m → Visible m → Type 0) where
  answer-Leads :
      (f : Fate) (done : Result GoError A × World m) (u : Visible m) (w : World m) (a : A)
      → (done.0 ≡ ok a → R a u done.1.visible)
      → (answer f done w).0 ≡ ok a
      → R a u (answer f done w).1.visible
  answer-Leads delivered done u w a k h = k h
  answer-Leads (lost e) done u w a k h = absurd (err-ok h)
  answer-Leads (unacknowledged e) done u w a k h = absurd (err-ok h)

module _ {m : Mongo} {A : Type 0} {R : A → Visible m → Visible m → Type 0} where
  -- A call that returns a value was executed.
  pub Leads-call : {op : Exec (World m) GoError A} → Leads R op → Leads R (call op)
  unfolding call
  Leads-call {op = op} l = record {
    at = λ w a.
        let w' : World m = record w { fates = later_fates w.fates } in
        answer-Leads R (next_fate w.fates) (op w') w.visible w' a (l.at w' a);
  }

module _ {m : Mongo} {E A : Type 0} {P : Preorder (Visible m)} where
  pub KeepsOk-of_Leads : {c : Exec (World m) E A} → Leads (λ a. P.Rel) c → KeepsOk P c
  KeepsOk-of_Leads l = record { at = l.at }
