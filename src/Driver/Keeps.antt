-- ===== src/Driver/Keeps.antt =====
-- Relations between what stood before and after, kept by every way to put calls together, whatever
-- the network does. `Keeps` speaks of every run, `KeepsOk` of the runs that return no error.
use staking_api_service.Base.{refl, ◌≡◌, sym, subst, Bool, true, false, if◌then◌else◌}
use staking_api_service.Base.Exec.{
  Result, ok, err, Exec, pure, fail, lift, gets, try, ◌>>=◌, resume,
}
use staking_api_service.Types.Errors.{GoError}
use staking_api_service.Driver.{
  Mongo, Visible, World, Fate, delivered, lost, unacknowledged, call, answer, next_fate,
  later_fates, Work, Transacted, aborted, committed, Driver,
}

pub record Preorder (V : Type 0) : Type 1 where
  pub Rel : V → V → Type 0
  pub reflexive : (v : V) → Rel v v
  pub transitive : (u v w : V) → Rel u v → Rel v w → Rel u w

module _ {m : Mongo} {E A : Type 0} where
  pub record Keeps (P : Preorder (Visible m)) (c : Exec (World m) E A) : Type 0 where
    pub at : (w : World m) → P.Rel w.visible (c w).1.visible

  pub record KeepsOk (P : Preorder (Visible m)) (c : Exec (World m) E A) : Type 0 where
    pub at : (w : World m) (a : A) → (c w).0 ≡ ok a → P.Rel w.visible (c w).1.visible

module _ {m : Mongo} {E A : Type 0} {P : Preorder (Visible m)} where
  pub Keeps-pure : (a : A) → Keeps {E = E} P (pure a)
  unfolding pure
  Keeps-pure a = record { at = λ w. P.reflexive w.visible }

  pub Keeps-fail : (e : E) → Keeps {A = A} P (fail e)
  unfolding fail
  Keeps-fail e = record { at = λ w. P.reflexive w.visible }

  pub Keeps-lift : (r : Result E A) → Keeps P (lift r)
  unfolding lift
  Keeps-lift r = record { at = λ w. P.reflexive w.visible }

  pub Keeps-gets : (f : World m → A) → Keeps {E = E} P (gets f)
  unfolding gets
  Keeps-gets f = record { at = λ w. P.reflexive w.visible }

  pub Keeps-if :
      (b : Bool) (c d : Exec (World m) E A) → Keeps P c → Keeps P d → Keeps P (if b then c else d)
  Keeps-if true c d kc kd = kc
  Keeps-if false c d kc kd = kd

module _ {m : Mongo} {E F A B : Type 0} {P : Preorder (Visible m)} where
  Keeps-resume :
      (r : Result E A) (f : A → Exec (World m) F B) (g : E → Exec (World m) F B)
      → ((a : A) → Keeps P (f a))
      → ((e : E) → Keeps P (g e))
      → Keeps P (resume r f g)
  Keeps-resume (ok a) f g kf kg = kf a
  Keeps-resume (err e) f g kf kg = kg e

  pub Keeps-try :
      (c : Exec (World m) E A) (g : E → Exec (World m) F B) (f : A → Exec (World m) F B)
      → Keeps P c
      → ((e : E) → Keeps P (g e))
      → ((a : A) → Keeps P (f a))
      → Keeps P (try c g f)
  unfolding try
  Keeps-try c g f kc kg kf = record {
    at = λ w. let (r, w') = c w in P.transitive _ _ _ (kc.at w) ((Keeps-resume r f g kf kg).at w');
  }

module _ {m : Mongo} {E A B : Type 0} {P : Preorder (Visible m)} where
  pub Keeps-bind :
      (c : Exec (World m) E A) (f : A → Exec (World m) E B)
      → Keeps P c
      → ((a : A) → Keeps P (f a))
      → Keeps P (c >>= f)
  unfolding ◌>>=◌
  Keeps-bind c f kc kf = Keeps-try c fail f kc Keeps-fail kf

module _ {m : Mongo} {A : Type 0} where
  answer-Keeps :
      (P : Preorder (Visible m)) (f : Fate) (done : Result GoError A × World m) (v : Visible m)
      (w : World m)
      → P.Rel v w.visible
      → P.Rel v done.1.visible
      → P.Rel v (answer f done w).1.visible
  answer-Keeps P delivered done v w h k = k
  answer-Keeps P (lost e) done v w h k = h
  answer-Keeps P (unacknowledged e) done v w h k = k

module _ {m : Mongo} {A : Type 0} {P : Preorder (Visible m)} where
  pub Keeps-call : (op : Exec (World m) GoError A) → Keeps P op → Keeps P (call op)
  unfolding call
  Keeps-call op k = record {
    at = λ w.
        let w' : World m = record w { fates = later_fates w.fates } in
        answer-Keeps P (next_fate w.fates) (op w') w.visible w' (P.reflexive w.visible) (k.at w');
  }

module _ (d : Driver) {P : Preorder (Visible d.mongo)} where
  Transacted-Keeps :
      (work : Work d.mongo) (w : World d.mongo) {r : Result GoError (Unit {0}) × World d.mongo}
      → KeepsOk P work
      → Transacted work w r
      → P.Rel w.visible r.1.visible
  Transacted-Keeps work w k (aborted e w' same) =
      subst (λ v. P.Rel w.visible v) (sym same) (P.reflexive w.visible)
  Transacted-Keeps work w k (committed v r same done) =
      subst (λ u. P.Rel u (work v).1.visible) same (k.at v tt done)

  -- An aborted transaction leaves nothing behind, so only the runs that succeed matter.
  pub Keeps-with_transaction :
      (work : Work d.mongo) → KeepsOk P work → Keeps P (d.with_transaction work)
  Keeps-with_transaction work k = record {
    at = λ w. Transacted-Keeps work w k (d.transacted work w);
  }

module _ {m : Mongo} {E A : Type 0} {P : Preorder (Visible m)} where
  pub KeepsOk-of_Keeps : {c : Exec (World m) E A} → Keeps P c → KeepsOk P c
  KeepsOk-of_Keeps k = record { at = λ w a e. k.at w }

-- a call that changes nothing, and may fail
pub data Idle {m : Mongo} (w : World m) : Result GoError (Unit {0}) × World m → Type 0 where
  idle_ok : (v : World m) → v.visible ≡ w.visible → Idle w (ok tt, v)
  idle_err : (e : GoError) (v : World m) → v.visible ≡ w.visible → Idle w (err e, v)

module _ {m : Mongo} where
  answer-Idle : (f : Fate) (w v : World m) → v.visible ≡ w.visible → Idle w (answer f (ok tt, v) v)
  answer-Idle delivered w v h = idle_ok v h
  answer-Idle (lost e) w v h = idle_err _ v h
  answer-Idle (unacknowledged e) w v h = idle_err _ v h

  pub call-Idle : (w : World m) → Idle w (call (pure tt) w)
  unfolding call pure
  call-Idle w = answer-Idle (next_fate w.fates) w (record w { fates = later_fates w.fates }) refl

pub ruleset keeps_rules = (
  Keeps-pure, Keeps-fail, Keeps-lift, Keeps-gets, Keeps-if, Keeps-try, Keeps-bind, Keeps-call,
  Keeps-with_transaction, KeepsOk-of_Keeps,
)
