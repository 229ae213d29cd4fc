-- ===== src/Driver/Raises.antt =====
-- What holds between before and after when a computation returns an error, and what follows when the
-- error is looked at.
use staking_api_service.Base.{Bool, true, false, ◌≡◌, refl, sym, subst, String, if◌then◌else◌}
use staking_api_service.Base.Exec.{Result, ok, err, Exec, pure, fail, lift, try, ◌>>=◌, resume}
use staking_api_service.Types.Errors.{GoError, external}
use staking_api_service.Driver.{
  Mongo, Visible, World, Fate, delivered, lost, unacknowledged, call, answer, next_fate,
  later_fates,
}
use staking_api_service.Driver.Leads.{Leads, Leads-pure, Leads-fail, err-ok}

module _ {E A : Type 0} where
  -- what a predicate of the error says of a result
  abbrev OfError : (E → Type 0) → Result E A → Type 0
  OfError p (ok a) = Unit {0}
  OfError p (err e) = p e

module _ {m : Mongo} {E A : Type 0} where
  pub record Raises (Q : E → Visible m → Visible m → Type 0) (c : Exec (World m) E A) : Type 0 where
    pub at : (w : World m) (e : E) → (c w).0 ≡ err e → Q e w.visible (c w).1.visible

module _ {m : Mongo} {E A : Type 0} {Q : E → Visible m → Visible m → Type 0} where
  pub Raises-fail : (e : E) → ((v : Visible m) → Q e v v) → Raises {A = A} Q (fail e)
  unfolding fail
  Raises-fail e q = record {
    at = λ w x h. subst (OfError (λ y. Q y w.visible w.visible)) h (q w.visible);
  }

  pub Raises-pure : (a : A) → Raises Q (pure a)
  unfolding pure
  Raises-pure a = record { at = λ w e h. absurd (err-ok (sym h)) }

  pub Raises-if :
      (b : Bool) {c d : Exec (World m) E A}
      → (b ≡ true → Raises Q c)
      → (b ≡ false → Raises Q d)
      → Raises Q (if b then c else d)
  Raises-if true f g = f refl
  Raises-if false f g = g refl

module _ {m : Mongo} {E F A B : Type 0} {R : A → Visible m → Visible m → Type 0}
    {Q : E → Visible m → Visible m → Type 0} {S : A → B → Visible m → Visible m → Type 0}
    {S' : E → B → Visible m → Visible m → Type 0} {T : B → Visible m → Visible m → Type 0}
    (join : (a : A) (b : B) (u v w : Visible m) → R a u v → S a b v w → T b u w)
    (rejoin : (e : E) (b : B) (u v w : Visible m) → Q e u v → S' e b v w → T b u w) where
  resume_try-Leads :
      (r : Result E A) (g : E → Exec (World m) F B) (f : A → Exec (World m) F B) (u : Visible m)
      (w : World m) (b : B)
      → ((a : A) → r ≡ ok a → R a u w.visible)
      → ((e : E) → r ≡ err e → Q e u w.visible)
      → ((e : E) → Leads (S' e) (g e))
      → ((a : A) → Leads (S a) (f a))
      → (resume r f g w).0 ≡ ok b
      → T b u (resume r f g w).1.visible
  resume_try-Leads (ok a) g f u w b before raised handled after h =
      join a b _ _ _ (before a refl) ((after a).at w b h)
  resume_try-Leads (err e) g f u w b before raised handled after h =
      rejoin e b _ _ _ (raised e refl) ((handled e).at w b h)

  pub Leads-try :
      {c : Exec (World m) E A} {g : E → Exec (World m) F B} {f : A → Exec (World m) F B}
      → Leads R c
      → Raises Q c
      → ((e : E) → Leads (S' e) (g e))
      → ((a : A) → Leads (S a) (f a))
      → Leads T (try c g f)
  unfolding try
  Leads-try {c = c} {g = g} {f = f} before raised handled after = record {
    at = λ w b h.
        resume_try-Leads (c w).0 g f w.visible (c w).1 b (before.at w) (raised.at w) handled after
          h;
  }

module _ {m : Mongo} {E F A B : Type 0} {R : A → Visible m → Visible m → Type 0}
    {Q : E → Visible m → Visible m → Type 0} {S : A → F → Visible m → Visible m → Type 0}
    {S' : E → F → Visible m → Visible m → Type 0} {T : F → Visible m → Visible m → Type 0}
    (join : (a : A) (b : F) (u v w : Visible m) → R a u v → S a b v w → T b u w)
    (rejoin : (e : E) (b : F) (u v w : Visible m) → Q e u v → S' e b v w → T b u w) where
  resume-Raises :
      (r : Result E A) (g : E → Exec (World m) F B) (f : A → Exec (World m) F B) (u : Visible m)
      (w : World m) (b : F)
      → ((a : A) → r ≡ ok a → R a u w.visible)
      → ((e : E) → r ≡ err e → Q e u w.visible)
      → ((e : E) → Raises (S' e) (g e))
      → ((a : A) → Raises (S a) (f a))
      → (resume r f g w).0 ≡ err b
      → T b u (resume r f g w).1.visible
  resume-Raises (ok a) g f u w b before raised handled after h =
      join a b _ _ _ (before a refl) ((after a).at w b h)
  resume-Raises (err e) g f u w b before raised handled after h =
      rejoin e b _ _ _ (raised e refl) ((handled e).at w b h)

  pub Raises-try :
      {c : Exec (World m) E A} {g : E → Exec (World m) F B} {f : A → Exec (World m) F B}
      → Leads R c
      → Raises Q c
      → ((e : E) → Raises (S' e) (g e))
      → ((a : A) → Raises (S a) (f a))
      → Raises T (try c g f)
  unfolding try
  Raises-try {c = c} {g = g} {f = f} before raised handled after = record {
    at = λ w b h.
        resume-Raises (c w).0 g f w.visible (c w).1 b (before.at w) (raised.at w) handled after h;
  }

module _ {m : Mongo} {E A B : Type 0} {R : A → Visible m → Visible m → Type 0}
    {S : A → E → Visible m → Visible m → Type 0} {T : E → Visible m → Visible m → Type 0} where
  pub Raises-bind :
      ((a : A) (b : E) (u v w : Visible m) → R a u v → S a b v w → T b u w)
      → {c : Exec (World m) E A} {f : A → Exec (World m) E B} → Leads R c
      → Raises T c
      → ((a : A) → Raises (S a) (f a))
      → Raises T (c >>= f)
  unfolding ◌>>=◌
  Raises-bind join before raised after =
      Raises-try {S' = λ e b v w. (b ≡ e) × (v ≡ w)} join
        (λ e b u v w q same. subst (λ x. T x u w) (sym same.0) (subst (T e u) same.1 q)) before
        raised (λ e. Raises-fail e (λ v. (refl, refl))) after

module _ {m : Mongo} {A : Type 0} (Q : GoError → Visible m → Visible m → Type 0)
    (network : (s : String) (u v : Visible m) → Q (external s) u v) where
  answer-Raises :
      (f : Fate) (done : Result GoError A × World m) (u : Visible m) (w : World m) (e : GoError)
      → (done.0 ≡ err e → Q e u done.1.visible)
      → (answer f done w).0 ≡ err e
      → Q e u (answer f done w).1.visible
  answer-Raises delivered done u w e k h = k h
  answer-Raises (lost s) done u w e k h = subst (OfError (λ x. Q x u w.visible)) h (network s _ _)
  answer-Raises (unacknowledged s) done u w e k h =
      subst (OfError (λ x. Q x u done.1.visible)) h (network s _ _)

  pub Raises-call : {op : Exec (World m) GoError A} → Raises Q op → Raises Q (call op)
  unfolding call
  Raises-call {op = op} l = record {
    at = λ w e.
        let w' : World m = record w { fates = later_fates w.fates } in
        answer-Raises (next_fate w.fates) (op w') w.visible w' e (l.at w' e);
  }

module _ {m : Mongo} {A E F : Type 0} where
  -- an error is passed on as another error
  pub Leads-rethrow :
      {R : A → Visible m → Visible m → Type 0} {c : Exec (World m) E A} (f : E → F)
      → Leads R c
      → Leads R (try c (λ e. fail (f e)) pure)
  Leads-rethrow {R = R} f l =
      Leads-try {Q = λ e u v. Unit {0}} {S = λ a b u v. (a ≡ b) × (u ≡ v)} {S' = λ e b u v. ⊥}
        (λ a b u v w r same. subst (λ x. R x u w) same.0 (subst (R a u) same.1 r))
        (λ e b u v w q r. absurd r) l (record { at = λ w e h. tt }) (λ e. Leads-fail _)
        (λ a. Leads-pure a (λ v. (refl, refl)))

module _ {m : Mongo} {A B E F : Type 0} where
  -- a pure result, whose error is passed on as another error
  pub Leads-lift :
      {R : B → Visible m → Visible m → Type 0} (r : Result E A) (f : E → F)
      {g : A → Exec (World m) F B}
      → ((a : A) → r ≡ ok a → Leads R (g a))
      → Leads R (try (lift r) (λ e. fail (f e)) g)
  unfolding try lift
  Leads-lift (ok a) f after = after a refl
  Leads-lift (err e) f after = Leads-fail (f e)
