-- ===== src/Lifecycle/Order.antt =====
-- How a stored delegation may change: it is never removed, its data stay, and its state moves along
-- the arrows of Types/Lifecycle.antt.
use staking_api_service.Base.{
  String, Bool, true, ◌≡◌, refl, ◌∙◌, sym, subst, Option, none, some, ◌==◌, eq_iff, arith,
  if◌then◌else◌, Bool-cases, inl, inr, ◌≤◌,
}
use staking_api_service.Types.States.{DelegationState, active}
use staking_api_service.Types.Lifecycle.{◌⟶◌, rank, rank-⟶}
use staking_api_service.Model.{TimelockTransaction, DelegationDocument}
use staking_api_service.Driver.{Mongo, Visible, or_else, change_if}
use staking_api_service.Driver.Keeps.{Preorder}

infix 40 ◌⟶*◌
pub data ◌⟶*◌ : DelegationState → DelegationState → Type 0 where
  here : {s : DelegationState} → s ⟶* s
  step : {s t u : DelegationState} → s ⟶* t → t ⟶ u → s ⟶* u

pub ⟶*-trans : {s t u : DelegationState} → s ⟶* t → t ⟶* u → s ⟶* u
⟶*-trans p here = p
⟶*-trans p (step q r) = step (⟶*-trans p q) r

-- A delegation never goes back.
pub rank-⟶* : {s t : DelegationState} → s ⟶* t → rank s ≤ rank t
rank-⟶* here = omega arith
rank-⟶* (step p r) = omega (arith, rank-⟶* p, rank-⟶ r)

-- what no operation changes
pub record Same (d e : DelegationDocument) : Type 0 where
  pub hash : d.staking_tx_hash_hex ≡ e.staking_tx_hash_hex
  pub staker : d.staker_pk_hex ≡ e.staker_pk_hex
  pub provider : d.finality_provider_pk_hex ≡ e.finality_provider_pk_hex
  pub value : d.staking_value ≡ e.staking_value
  pub staking : d.staking_tx ≡ e.staking_tx
  pub overflow : d.is_overflow ≡ e.is_overflow

pub Same-refl : (d : DelegationDocument) → Same d d
Same-refl d = record {
  hash = refl;
  staker = refl;
  provider = refl;
  value = refl;
  staking = refl;
  overflow = refl;
}

-- the state and the unbonding transaction are all that an update writes
pub Same-moved :
    (d : DelegationDocument) (s : DelegationState) (u : Option TimelockTransaction)
    → Same d (record d { state = s; unbonding_tx = u })
Same-moved d s u = record {
  hash = refl;
  staker = refl;
  provider = refl;
  value = refl;
  staking = refl;
  overflow = refl;
}

pub Same-trans : {d e f : DelegationDocument} → Same d e → Same e f → Same d f
Same-trans p q = record {
  hash = p.hash ∙ q.hash;
  staker = p.staker ∙ q.staker;
  provider = p.provider ∙ q.provider;
  value = p.value ∙ q.value;
  staking = p.staking ∙ q.staking;
  overflow = p.overflow ∙ q.overflow;
}

abbrev pub Evolves : Option DelegationDocument → Option DelegationDocument → Type 0
Evolves none none = Unit
Evolves none (some d) = active ⟶* d.state
Evolves (some d) none = ⊥
Evolves (some d) (some e) = Same d e × (d.state ⟶* e.state)

pub Evolves-refl : (o : Option DelegationDocument) → Evolves o o
Evolves-refl none = tt
Evolves-refl (some d) = (Same-refl d, here)

pub Evolves-trans : (o p q : Option DelegationDocument) → Evolves o p → Evolves p q → Evolves o q
Evolves-trans none none q h k = k
Evolves-trans none (some d) none h k = absurd k
Evolves-trans none (some d) (some e) h k = ⟶*-trans h k.1
Evolves-trans (some c) none q h k = absurd h
Evolves-trans (some c) (some d) none h k = absurd k
Evolves-trans (some c) (some d) (some e) h k = (Same-trans h.0 k.0, ⟶*-trans h.1 k.1)

-- a document that the service inserts is active
pub Evolves-insert :
    (o : Option DelegationDocument) (d : DelegationDocument)
    → d.state ≡ active
    → Evolves o (some (or_else o d))
Evolves-insert none d h = subst (λ s. active ⟶* s) (sym h) here
Evolves-insert (some e) d h = Evolves-refl (some e)

-- an update of the documents that fit `p`
pub record IsMove (p : DelegationDocument → Bool) (f : DelegationDocument → DelegationDocument)
    : Type 0 where
  pub same : (d : DelegationDocument) → Same d (f d)
  pub arrow : (d : DelegationDocument) → p d ≡ true → d.state ⟶ (f d).state

pub Evolves-change_if :
    {p : DelegationDocument → Bool} {f : DelegationDocument → DelegationDocument}
    → IsMove p f
    → (o : Option DelegationDocument) → Evolves o (change_if p f o)
Evolves-change_if m none = tt
Evolves-change_if {p} {f} m (some d) = elim (Bool-cases (p d)) [
  | inl fits ↦ rw fits (m.same d, step here (m.arrow d fits))
  | inr other ↦ rw other (Evolves-refl (some d))
]

-- the relation on what the world shows
abbrev pub lifecycle : (m : Mongo) → Preorder (Visible m)
lifecycle m = record {
  Rel = λ u v.
      (k : String)
      → Evolves (m.delegations.view u.db.delegations k) (m.delegations.view v.db.delegations k);
  reflexive = λ u k. Evolves-refl _;
  transitive = λ u v w h g k. Evolves-trans _ _ _ (h k) (g k);
}

-- a change at one key, seen at every key
pub Evolves-at :
    (view : String → Option DelegationDocument)
    (g : Option DelegationDocument → Option DelegationDocument)
    → ((o : Option DelegationDocument) → Evolves o (g o))
    → (k j : String) → Evolves (view j) (if k == j then g (view k) else view j)
Evolves-at view g h k j = elim (Bool-cases (k == j)) [
  | inl same ↦
      rw same (subst (λ i. Evolves (view i) (g (view k))) ((eq_iff k j).0 same) (h (view k)))
  | inr other ↦ rw other (Evolves-refl (view j))
]
