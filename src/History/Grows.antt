-- ===== src/History/Grows.antt =====
-- Records that are kept: documents that no operation changes, and lists to which it only adds.
use staking_api_service.Base.{
  ◌≡◌, refl, sym, ◌∙◌, subst, String, Option, none, some, List, ◌∷◌, if◌then◌else◌, ◌==◌, eq_iff,
  Bool-cases, true, inl, inr, arith,
}
use staking_api_service.Driver.{Mongo, MappingCollection, Visible, StatsEvent, or_else}
use staking_api_service.Model.{PkAddressMapping}
use staking_api_service.Driver.Keeps.{Preorder}

-- `ys` is `xs` with newer elements before it
pub data Newer {A : Type 0} (xs : List A) : List A → Type 0 where
  nothing_newer : Newer xs xs
  newer : {ys : List A} (y : A) → Newer xs ys → Newer xs (y ∷ ys)

-- a document that is there stays the same
abbrev pub Stays : {A : Type 0} → Option A → Option A → Type 0
Stays none o = Unit {0}
Stays (some a) o = o ≡ some a

module _ {A : Type 0} where
  Newer-trans : {xs ys zs : List A} → Newer xs ys → Newer ys zs → Newer xs zs
  Newer-trans p nothing_newer = p
  Newer-trans p (newer z q) = newer z (Newer-trans p q)

  pub Newer-one : {xs ys : List A} (y : A) → ys ≡ y ∷ xs → Newer xs ys
  Newer-one {xs} y h = subst (λ l. Newer xs l) (sym h) (newer y nothing_newer)

  pub Stays-refl : (o : Option A) → Stays o o
  Stays-refl none = tt
  Stays-refl (some a) = refl

  Stays-trans : (o p q : Option A) → Stays o p → Stays p q → Stays o q
  Stays-trans none p q h k = tt
  Stays-trans (some a) none q h k = absurd (ground (arith, h))
  Stays-trans (some a) (some b) q h k = k ∙ h

  Stays-or_else : (o : Option A) (a : A) → Stays o (some (or_else o a))
  Stays-or_else none a = tt
  Stays-or_else (some b) a = refl

  -- an insertion at a key leaves what is there
  pub Stays-insert :
      (view : String → Option A) (k j : String) (a : A)
      → Stays (view j) (if k == j then some (or_else (view k) a) else view j)
  Stays-insert view k j a = elim (Bool-cases (k == j)) [
    | inl same ↦ rw same (
        subst (λ i. Stays (view i) (some (or_else (view k) a))) ((eq_iff k j).0 same)
          (Stays-or_else (view k) a))
    | inr other ↦ rw other (Stays-refl (view j))
  ]

-- an insertion of an address mapping, done or refused, leaves those that are there
pub insert-Stays :
    (c : MappingCollection) (d : PkAddressMapping) (s : c.State) (k : String)
    → Stays (c.view s k) (c.view (c.insert_one d s).1 k)
insert-Stays c d s k = elim (Bool-cases (c.insert_one d s).0) [
  | inr refused ↦
      subst (λ t. Stays (c.view s k) (c.view t k)) (sym (c.refused-same d s refused)) (Stays-refl _)
  | inl done ↦ elim (Bool-cases (d.pk_hex == k)) [
    | inr other ↦
        subst (Stays (c.view s k)) (sym (c.view-inserted d s done k ∙ rw other refl)) (Stays-refl _)
    | inl same ↦ absent (c.view s k) refl ((eq_iff d.pk_hex k).0 same) done
  ]
]
  where
    absent :
        (o : Option PkAddressMapping)
        → c.view s k ≡ o
        → d.pk_hex ≡ k
        → (c.insert_one d s).0 ≡ true
        → Stays o (c.view (c.insert_one d s).1 k)
    absent none h same done = tt
    absent (some m) h same done = absurd (c.inserted-free d s done (k, m, h, inl (sym same)))

pub record Grows {m : Mongo} (u v : Visible m) : Type 0 where
  pub unbonding :
      (k : String) → Stays (m.unbonding.view u.db.unbonding k) (m.unbonding.view v.db.unbonding k)
  pub mappings :
      (k : String)
      → Stays
          (m.pk_address_mappings.view u.db.pk_address_mappings k)
          (m.pk_address_mappings.view v.db.pk_address_mappings k)
  pub time_locks : Newer (m.timelock.all u.db.timelock) (m.timelock.all v.db.timelock)
  pub dumped :
      Newer
        (m.unprocessable_messages.all u.db.unprocessable_messages)
        (m.unprocessable_messages.all v.db.unprocessable_messages)
  pub sent : Newer u.sent v.sent

pub Grows-refl : {m : Mongo} (u : Visible m) → Grows u u
Grows-refl u = record {
  unbonding = λ k. Stays-refl _;
  mappings = λ k. Stays-refl _;
  time_locks = nothing_newer;
  dumped = nothing_newer;
  sent = nothing_newer;
}

pub Grows-trans : {m : Mongo} {u v w : Visible m} → Grows u v → Grows v w → Grows u w
Grows-trans p q = record {
  unbonding = λ k. Stays-trans _ _ _ (p.unbonding k) (q.unbonding k);
  mappings = λ k. Stays-trans _ _ _ (p.mappings k) (q.mappings k);
  time_locks = Newer-trans p.time_locks q.time_locks;
  dumped = Newer-trans p.dumped q.dumped;
  sent = Newer-trans p.sent q.sent;
}

abbrev pub growth : (m : Mongo) → Preorder (Visible m)
growth m = record { Rel = Grows; reflexive = Grows-refl; transitive = λ u v w. Grows-trans }

-- the records, of a state of the program
abbrev pub Records : Mongo → Type 0
Records m =
    m.unbonding.State
    × m.pk_address_mappings.State
    × m.timelock.State
    × m.unprocessable_messages.State
    × List StatsEvent

abbrev pub records : {m : Mongo} → Visible m → Records m
records u =
    (u.db.unbonding, u.db.pk_address_mappings, u.db.timelock, u.db.unprocessable_messages, u.sent)

-- what leaves them alone
pub Grows-same : {m : Mongo} {u v : Visible m} → records u ≡ records v → Grows u v
Grows-same {m = m} {u = u} h = record {
  unbonding = λ k.
      subst (λ r. Stays (m.unbonding.view u.db.unbonding k) (m.unbonding.view r.0 k)) h
        (Stays-refl _);
  mappings = λ k.
      subst
        (λ r.
          Stays (m.pk_address_mappings.view u.db.pk_address_mappings k)
            (m.pk_address_mappings.view r.1 k))
        h (Stays-refl _);
  time_locks =
      subst (λ r. Newer (m.timelock.all u.db.timelock) (m.timelock.all r.2)) h nothing_newer;
  dumped =
      subst
        (λ r.
          Newer (m.unprocessable_messages.all u.db.unprocessable_messages)
            (m.unprocessable_messages.all r.3))
        h nothing_newer;
  sent = subst (λ r. Newer u.sent r.4) h nothing_newer;
}
