-- ===== src/Tests/Memory.antt =====
-- A driver that keeps its collections in memory, and stand-ins for the other packages.
use mathlib.Core.List.{Memᴰ}
use staking_api_service.Base.{
  Bool, true, sym, subst, inl, inr, ◌⊎◌, Bool-cases, ℕ, zero, suc, String, false, ◌≡◌, refl, ap,
  ◌∙◌, Option, none, some, List, [], ◌∷◌, ◌==◌, if◌then◌else◌,
}
use staking_api_service.Base.Exec.{Result, ok, err}
use staking_api_service.Types.Errors.{GoError}
use staking_api_service.Driver.{
  Collection, Pile, Mongo, World, Work, Transacted, aborted, committed, Driver, keep_if, change_if,
  or_else, is_none, is_some,
}
use staking_api_service.Utils.Bitcoin.{Btc}
use staking_api_service.Service.Params.{Config}
use staking_api_service.Queue.Events.{EventFormat}
use staking_api_service.Tests.Mappings.{mappings}

abbrev pub collection : (D : Type 0) → Collection D
collection D = record {
  State = String → Option D;
  view = λ s k. s k;
  find_one = λ k p s. keep_if p (s k);
  insert_one = λ k d s. (is_none (s k), λ j. if k == j then some (or_else (s k) d) else s j);
  update_one =
      λ k p f s. (is_some (keep_if p (s k)), λ j. if k == j then change_if p f (s k) else s j);
  upsert_one = λ k f s j. if k == j then some (f (s k)) else s j;
  find_one_lem = λ k p s. refl;
  insert_one_done = λ k d s. refl;
  view-insert_one = λ k d s j. refl;
  update_one_matched = λ k p f s. refl;
  view-update_one = λ k p f s j. refl;
  view-upsert_one = λ k f s j. refl;
}

abbrev pub delete_first : {D : Type 0} → (D → Bool) → List D → List D
delete_first p [] = []
delete_first p (x ∷ l) = let rest = delete_first p l in if p x then l else x ∷ rest

pub mem-delete_first :
    {D : Type 0} (p : D → Bool) (l : List D) (d : D) → Memᴰ d (delete_first p l) → Memᴰ d l
mem-delete_first p [] d m = m
mem-delete_first p (x ∷ l) d m = split (p x) m (mem-delete_first p l d)
  where
    split :
        (b : Bool)
        → Memᴰ d (if b then l else x ∷ delete_first p l)
        → (Memᴰ d (delete_first p l) → Memᴰ d l)
        → Memᴰ d (x ∷ l)
    split true n before = Memᴰ.tail n
    split false (Memᴰ.head e) before = Memᴰ.head e
    split false (Memᴰ.tail n) before = Memᴰ.tail (before n)

pub delete_first-mem :
    {D : Type 0} (p : D → Bool) (l : List D) (d : D)
    → Memᴰ d l
    → Memᴰ d (delete_first p l) ⊎ (p d ≡ true)
delete_first-mem p [] d m = inl m
delete_first-mem p (x ∷ l) d (Memᴰ.head e) = elim (Bool-cases (p x)) [
  | inl h ↦ inr (subst (λ y. p y ≡ true) (sym e) h)
  | inr h ↦ inl (rw (h) (Memᴰ.head e))
]
delete_first-mem p (x ∷ l) d (Memᴰ.tail n) = elim (Bool-cases (p x)) [
  | inl h ↦ inl (rw (h) n)
  | inr h ↦ elim (delete_first-mem p l d n) [ inl k ↦ inl (rw (h) (Memᴰ.tail k)) | inr k ↦ inr k ]
]

abbrev pub pile : (D : Type 0) → Pile D
pile D = record {
  State = List D;
  all = λ s. s;
  insert_one = λ d s. d ∷ s;
  all-insert_one = λ d s. refl;
  find_all = λ s. s;
  delete_one = λ p s. delete_first p s;
  find_all-mem = λ s d m. m;
  mem-delete_one = λ p s d m. mem-delete_first p s d m;
  delete_one-mem = λ p s d m. delete_first-mem p s d m;
}

abbrev pub memory_mongo : Mongo
memory_mongo = record {
  delegations = collection _;
  unbonding = collection _;
  timelock = pile _;
  btc_info = collection _;
  stats_lock = collection _;
  overall_stats = collection _;
  staker_stats = collection _;
  finality_provider_stats = collection _;
  pk_address_mappings = mappings;
  unprocessable_messages = pile _;
  v2_stats_lock = collection _;
  v2_overall_stats = collection _;
  v2_staker_stats = collection _;
  v2_finality_provider_stats = collection _;
}

abbrev pub settle :
    Result GoError (Unit {0})
    → World memory_mongo
    → World memory_mongo
    → Result GoError (Unit {0}) × World memory_mongo
settle (ok t) done w = (ok t, done)
settle (err e) done w = (err e, w)

abbrev pub run_once : Work memory_mongo → Work memory_mongo
run_once work w = settle (work w).0 (work w).1 w

pub run_once-Transacted :
    (work : Work memory_mongo) (w : World memory_mongo) (r : Result GoError (Unit {0}))
    → (work w).0 ≡ r
    → Transacted work w (settle r (work w).1 w)
run_once-Transacted work w (ok t) e = committed w (ok tt) refl e
run_once-Transacted work w (err x) e = aborted x w refl

pub settle-ok :
    (r : Result GoError (Unit {0})) (done w : World memory_mongo)
    → r ≡ ok tt
    → settle r done w ≡ (r, done)
settle-ok (ok t) done w h = refl
settle-ok (err e) done w h = absurd (cc)

pub settle_err :
    (r : Result GoError (Unit {0})) (done w : World memory_mongo) {e : GoError}
    → r ≡ err e
    → settle r done w ≡ (err e, w)
settle_err (ok t) done w h = absurd (cc)
settle_err (err x) done w h = λ i. (h i, w)

abbrev pub memory : Driver
memory = record {
  mongo = memory_mongo;
  with_transaction = run_once;
  transacted = λ work w. run_once-Transacted work w (work w).0 refl;
  with_transaction_ok = λ work w quiet h. settle-ok (work w).0 (work w).1 w h;
  with_transaction_err = λ work w quiet h.
      let e = settle_err (work w).0 (work w).1 w h in
      (ap (λ x. x.0) e, ap (λ x. x.1.visible) e, ap (λ x. x.1.fates) e ∙ quiet);
}

abbrev pub empty_world : World memory_mongo
empty_world = record {
  visible = record {
    db = record {
      delegations = λ k. none;
      unbonding = λ k. none;
      timelock = [];
      btc_info = λ k. none;
      stats_lock = λ k. none;
      overall_stats = λ k. none;
      staker_stats = λ k. none;
      finality_provider_stats = λ k. none;
      pk_address_mappings = [];
      unprocessable_messages = [];
      v2_stats_lock = λ k. none;
      v2_overall_stats = λ k. none;
      v2_staker_stats = λ k. none;
      v2_finality_provider_stats = λ k. none;
    };
    sent = [];
    replayed = [];
  };
  fates = [];
  random = 3 ∷ 1 ∷ 4 ∷ [];
  captured = false;
  captured_providers = false;
}

abbrev pub times : ℕ → List ℕ
times zero = []
times (suc n) = 0 ∷ times n

-- Everything parses, every hexadecimal text as 32 bytes; keys, transactions, hashes, addresses and scripts are texts.
abbrev pub toy_btc : Btc
toy_btc = record {
  PublicKey = List ℕ;
  MsgTx = String;
  Hash = String;
  Address = List ℕ;
  StakingInfo = ℕ;
  decode_string = λ s. ok (times 32);
  parse_schnorr_pub_key = λ b. ok b;
  parse_pub_key = λ b. ok b;
  pub_key_to_p2tr = λ k. ok k;
  pub_key_to_p2wpkh = λ k. ok k;
  encode_address = λ a. "address";
  new_btc_tx_from_hex = λ s. ok s;
  check_pre_signed_unbonding_tx_sanity = λ t. ok tt;
  new_hash_from_str = λ s. ok s;
  tx_hash = λ t. t;
  is_equal = λ a b. a == b;
  previous_hash = λ t. "staking";
  previous_index = λ t. 0;
  first_out = λ t. record { value = 90; pk_script = [] };
  build_unbonding_info = λ s f c q t v. ok (record { value = v; pk_script = [] });
  build_staking_info = λ s f c q t v. ok v;
  staking_output = λ v. record { value = v; pk_script = [] };
  unbonding_path_spend_info = λ v. ok [];
  verify_transaction_sig_with_output = λ t o s k b. ok tt;
}

-- A body is the hash of a staking transaction.
abbrev pub toy_format : EventFormat
toy_format = record {
  active_staking = λ s. ok (record {
    staking_tx_hash_hex = s;
    staker_pk_hex = "staker";
    finality_provider_pk_hex = "provider";
    staking_value = 100;
    staking_start_height = 7;
    staking_start_timestamp = 1;
    staking_time_lock = 50;
    staking_output_index = 0;
    staking_tx_hex = "tx";
    is_overflow = false;
  });
  unbonding_staking = λ s. ok (record {
    staking_tx_hash_hex = s;
    unbonding_start_height = 9;
    unbonding_start_timestamp = 2;
    unbonding_time_lock = 5;
    unbonding_output_index = 0;
    unbonding_tx_hex = "unbonding";
  });
  expired_staking = λ s. ok (record { staking_tx_hash_hex = s; tx_type = "active" });
  withdraw_staking = λ s. ok (record { staking_tx_hash_hex = s });
  stats = λ s. ok (record {
    schema_version = 1;
    staking_tx_hash_hex = s;
    staker_pk_hex = "staker";
    finality_provider_pk_hex = "provider";
    staking_value = 100;
    state = "active";
    is_overflow = false;
  });
  btc_info = λ s. ok (record { height = 10; confirmed_tvl = 3; unconfirmed_tvl = 5 });
  stats_schema_version = 1;
}

abbrev pub toy_config : Config
toy_config = record { logical_shard_count = 2; versions = [] }
