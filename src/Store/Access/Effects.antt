-- ===== src/Store/Access/Effects.antt =====
-- What a read, a write and a decoding lead to.
use staking_api_service.Base.{◌≡◌, refl, sym, subst, Option, none, some}
use staking_api_service.Types.Errors.{GoError, no_documents}
use staking_api_service.Driver.{Mongo, Db, Visible}
use staking_api_service.Driver.Leads.{Leads, OfValue, err-ok, Leads-pure, Leads-fail}
use staking_api_service.Driver.Raises.{Raises, Raises-fail, Raises-pure}
use staking_api_service.Store.Access.{decode, query, command}

module _ {m : Mongo} {A : Type 0} where
  pub Leads-command :
      {R : A → Visible m → Visible m → Type 0} (f : Db m → A × Db m)
      → ((v : Visible m) → R (f v.db).0 v (record v { db = (f v.db).1 }))
      → Leads R (command f)
  Leads-command {R = R} f r = record {
    at = λ w a h. subst (OfValue (λ b. R b w.visible (command f w).1.visible)) h (r w.visible);
  }

  pub Raises-command :
      {Q : GoError → Visible m → Visible m → Type 0} (f : Db m → A × Db m) → Raises Q (command f)
  Raises-command f = record { at = λ w e h. absurd (err-ok (sym h)) }

  pub Leads-query : (f : Db m → A) → Leads (λ a u v. (v ≡ u) × (f u.db ≡ a)) (query f)
  Leads-query f = record { at = λ w a h. (refl, subst (OfValue (λ b. f w.db ≡ b)) h refl) }

  pub Raises-query :
      {Q : GoError → Visible m → Visible m → Type 0} (f : Db m → A) → Raises Q (query f)
  Raises-query f = record { at = λ w e h. absurd (err-ok (sym h)) }

  pub Leads-decode : (o : Option A) → Leads {m = m} (λ a u v. (v ≡ u) × (o ≡ some a)) (decode o)
  Leads-decode none = Leads-fail no_documents
  Leads-decode (some a) = Leads-pure a (λ v. (refl, refl))

  pub Raises-decode :
      (o : Option A)
      → Raises {m = m} (λ e u v. (v ≡ u) × (o ≡ none) × (e ≡ no_documents)) (decode o)
  Raises-decode none = Raises-fail no_documents (λ v. (refl, refl, refl))
  Raises-decode (some a) = Raises-pure a
