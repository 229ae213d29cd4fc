-- ===== src/Utils/Unbonding/Checks.antt =====
-- What `VerifyUnbondingRequest` of internal/shared/utils/btc.go has checked when it returns no error.
use staking_api_service.Base.{
  ℕ, ◌-◌, ◌<◌, ◌≡◌, refl, ◌∙◌, sym, ap, subst, String, Bool, true, false, ◌&&◌, List, [], ◌∷◌, eqb,
  eqb_iff, ltb, ltb→lt, arith, ◌^◌,
}
use staking_api_service.Base.Exec.{Result, ok, err}
use staking_api_service.Types.Errors.{GoError}
use staking_api_service.Model.{sub64}
use staking_api_service.Utils.Bitcoin.{
  Btc, TxOut, ◌>>=◌, or_fail, guard, get_schnorr_pk_from_hex, get_covenant_pks_from_strings,
}
use staking_api_service.Utils.Unbonding.{
  UnbondingRequest, VersionedGlobalParams, uint32, uint16, is_positive, bytes_equal,
  outputs_are_equal, parse_unbonding_tx_hex, verify_output_and_signature, verify_unbonding_request,
}

module _ {A : Type 0} where
  or_fail-ok : (r : Result GoError A) (m : String) {a : A} → or_fail r m ≡ ok a → r ≡ ok a
  or_fail-ok (ok b) m h = h
  or_fail-ok (err e) m h = ground (arith, h)

module _ {A B : Type 0} where
  bind-ok :
      (r : Result GoError A) (f : A → Result GoError B) {b : B}
      → (r >>= f) ≡ ok b
      → (a : A) × (r ≡ ok a) × (f a ≡ ok b)
  bind-ok (ok a) f h = (a, refl, h)
  bind-ok (err e) f h = ground (arith, h)

  required :
      (r : Result GoError A) (m : String) (f : A → Result GoError B) {b : B}
      → (or_fail r m >>= f) ≡ ok b
      → (a : A) × (r ≡ ok a) × (f a ≡ ok b)
  required r m f h = let (a, p, q) = bind-ok (or_fail r m) f h in (a, or_fail-ok r m p, q)

module _ {B : Type 0} where
  guarded :
      (c : Bool) (m : String) (f : Unit {0} → Result GoError B) {b : B}
      → (guard c m >>= f) ≡ ok b
      → (c ≡ true) × (f tt ≡ ok b)
  guarded true m f h = (refl, h)
  guarded false m f h = ground (arith, h)

module _ ⦃btc : Btc⦄ where
  -- the transaction spends the staking output that the request names, and has the hash that it names
  pub record Spends (r : UnbondingRequest) (tx : btc.MsgTx) : Type 0 where
    pub decoded : btc.new_btc_tx_from_hex r.unbonding_tx_hex ≡ ok tx
    pub sane : btc.check_pre_signed_unbonding_tx_sanity tx ≡ ok tt
    pub unbonding_hash : btc.Hash
    pub unbonding_hash_read : btc.new_hash_from_str r.unbonding_tx_hash_hex ≡ ok unbonding_hash
    pub same_hash : btc.is_equal (btc.tx_hash tx) unbonding_hash ≡ true
    pub staking_hash : btc.Hash
    pub staking_hash_read : btc.new_hash_from_str r.staking_tx_hash_hex ≡ ok staking_hash
    pub previous_hash : btc.is_equal (btc.previous_hash tx) staking_hash ≡ true
    pub previous_index : btc.previous_index tx ≡ r.staking_output_index

  -- its output is the one that the parameters ask for, and the staker has signed it
  pub record PaysOut (r : UnbondingRequest) (p : VersionedGlobalParams) (tx : btc.MsgTx)
      : Type 0 where
    pub covenant_pks : List btc.PublicKey
    pub covenant_read : get_covenant_pks_from_strings p.covenant_pks ≡ ok covenant_pks
    pub staker_pk : btc.PublicKey
    pub staker_read : get_schnorr_pk_from_hex r.staker_pk_hex ≡ ok staker_pk
    pub fp_pk : btc.PublicKey
    pub fp_read : get_schnorr_pk_from_hex r.finality_provider_pk_hex ≡ ok fp_pk
    pub positive : is_positive (sub64 r.staking_value p.unbonding_fee) ≡ true
    pub output : TxOut
    pub output_built :
        btc.build_unbonding_info staker_pk
          (fp_pk ∷ [])
          covenant_pks
          (uint32 p.covenant_quorum)
          (uint16 p.unbonding_time)
          (sub64 r.staking_value p.unbonding_fee)
        ≡ ok output
    pub same_value : (btc.first_out tx).value ≡ output.value
    pub same_script : (btc.first_out tx).pk_script ≡ output.pk_script
    pub staking_info : btc.StakingInfo
    pub staking_built :
        btc.build_staking_info staker_pk
          (fp_pk ∷ [])
          covenant_pks
          (uint32 p.covenant_quorum)
          (uint16 r.staking_time_lock)
          r.staking_value
        ≡ ok staking_info
    pub signature : List ℕ
    pub signature_read : btc.decode_string r.unbonding_sig_hex ≡ ok signature
    pub script : List ℕ
    pub script_built : btc.unbonding_path_spend_info staking_info ≡ ok script
    pub signed :
        btc.verify_transaction_sig_with_output tx
          (btc.staking_output staking_info)
          script
          staker_pk
          signature
        ≡ ok tt

both : (a b : Bool) → a && b ≡ true → (a ≡ true) × (b ≡ true)
both true b h = (refl, h)
both false b h = ground (arith, h)

bytes_equal-eq : (a b : List ℕ) → bytes_equal a b ≡ true → b ≡ a
bytes_equal-eq [] [] h = refl
bytes_equal-eq (x ∷ xs) (y ∷ ys) h =
    let (same, rest) = both (eqb x y) (bytes_equal xs ys) h in
    ap (λ z. z ∷ ys) (sym ((eqb_iff x y).0 same)) ∙ ap (λ l. x ∷ l) (bytes_equal-eq xs ys rest)
bytes_equal-eq [] (y ∷ ys) h = ground (arith, h)
bytes_equal-eq (x ∷ xs) [] h = ground (arith, h)

outputs_are_equal-eq :
    (a b : TxOut) → outputs_are_equal a b ≡ true → (b.value ≡ a.value) × (b.pk_script ≡ a.pk_script)
unfolding outputs_are_equal
outputs_are_equal-eq a b h =
    let (value, script) = both (eqb a.value b.value) (bytes_equal a.pk_script b.pk_script) h in
    (sym ((eqb_iff a.value b.value).0 value), bytes_equal-eq a.pk_script b.pk_script script)

expected_value :
    (value fee : ℕ)
    → value < 2 ^ 63
    → fee < 2 ^ 63
    → is_positive (sub64 value fee) ≡ true
    → (fee < value) × (sub64 value fee ≡ value - fee)
expected_value value fee hv hf h =
    let (low, high) = both (ltb 0 (sub64 value fee)) _ h in
    let above : 0 < sub64 value fee = ltb→lt _ _ low in
    let below : sub64 value fee < 2 ^ 63 = ltb→lt _ _ high in (omega arith, omega arith)

module _ ⦃btc : Btc⦄ where
  pays_out :
      (r : UnbondingRequest) (p : VersionedGlobalParams) (tx : btc.MsgTx)
      → verify_output_and_signature r p tx ≡ ok tt
      → PaysOut r p tx
  unfolding verify_output_and_signature
  pays_out r p tx h =
      let (covenant_pks, covenant_read, h1) = required _ _ _ h in
      let (staker_pk, staker_read, h2) = required _ _ _ h1 in
      let (fp_pk, fp_read, h3) = required _ _ _ h2 in
      let (positive, h4) = guarded _ _ _ h3 in
      let (output, output_built, h5) = required _ _ _ h4 in
      let (same, h6) = guarded _ _ _ h5 in
      let (staking_info, staking_built, h7) = required _ _ _ h6 in
      let (signature, signature_read, h8) = required _ _ _ h7 in
      let (script, script_built, h9) = required _ _ _ h8 in
      let (same_value, same_script) = outputs_are_equal-eq output (btc.first_out tx) same in
      record {
        covenant_pks = covenant_pks;
        covenant_read = covenant_read;
        staker_pk = staker_pk;
        staker_read = staker_read;
        fp_pk = fp_pk;
        fp_read = fp_read;
        positive = positive;
        output = output;
        output_built = output_built;
        same_value = same_value;
        same_script = same_script;
        staking_info = staking_info;
        staking_built = staking_built;
        signature = signature;
        signature_read = signature_read;
        script = script;
        script_built = script_built;
        signed = or_fail-ok _ _ h9;
      }

  parsed :
      (hex : String) (tx : btc.MsgTx)
      → parse_unbonding_tx_hex hex ≡ ok tx
      → (btc.new_btc_tx_from_hex hex ≡ ok tx)
        × (btc.check_pre_signed_unbonding_tx_sanity tx ≡ ok tt)
  unfolding parse_unbonding_tx_hex
  parsed hex tx h =
      let (t, decoded, h1) = required (btc.new_btc_tx_from_hex hex) _ _ h in
      let (u, sane, same) =
        required (btc.check_pre_signed_unbonding_tx_sanity t) _ (λ _. ok t) h1 in
      let e : t ≡ tx = ground (arith, same) in
      subst
        (λ x.
          (btc.new_btc_tx_from_hex hex ≡ ok x)
          × (btc.check_pre_signed_unbonding_tx_sanity x ≡ ok tt))
        e (decoded, sane)

  -- If the request is accepted, then its transaction decodes and is a sane pre-signed unbonding
  -- transaction with the hash that the request names; its input is the staking output that the request
  -- names; its first output has the value and the script that the global parameters ask for, with a
  -- value above 0; and the signature is the staker's for the unbonding path of the staking output.
  pub verify_unbonding_request-ok :
      (r : UnbondingRequest) (p : VersionedGlobalParams)
      → verify_unbonding_request r p ≡ ok tt
      → (tx : btc.MsgTx) × Spends r tx × PaysOut r p tx
  unfolding verify_unbonding_request
  verify_unbonding_request-ok r p h =
      let (tx, tx_parsed, h1) = required _ _ _ h in
      let (unbonding_hash, unbonding_hash_read, h2) = required _ _ _ h1 in
      let (same_hash, h3) = guarded _ _ _ h2 in
      let (staking_hash, staking_hash_read, h4) = required _ _ _ h3 in
      let (previous_hash, h5) = guarded _ _ _ h4 in
      let (index, h6) = guarded _ _ _ h5 in
      let (decoded, sane) = parsed _ tx tx_parsed in
      (
        tx,
        record {
          decoded = decoded;
          sane = sane;
          unbonding_hash = unbonding_hash;
          unbonding_hash_read = unbonding_hash_read;
          same_hash = same_hash;
          staking_hash = staking_hash;
          staking_hash_read = staking_hash_read;
          previous_hash = previous_hash;
          previous_index = (eqb_iff _ _).0 index;
        },
        pays_out r p tx h6,
      )

  -- If the request is accepted and the staked value and the fee are below 2^63, as amounts in satoshis are,
  -- then the fee is less than the staked value, and the value that is expected of the output is their
  -- difference: the subtraction on machine words has not wrapped around.
  pub verify_unbonding_request-amount :
      (r : UnbondingRequest) (p : VersionedGlobalParams)
      → r.staking_value < 2 ^ 63
      → p.unbonding_fee < 2 ^ 63
      → verify_unbonding_request r p ≡ ok tt
      → (p.unbonding_fee < r.staking_value)
        × (sub64 r.staking_value p.unbonding_fee ≡ r.staking_value - p.unbonding_fee)
  verify_unbonding_request-amount r p hv hf h =
      let (tx, spends, pays) = verify_unbonding_request-ok r p h in
      expected_value r.staking_value p.unbonding_fee hv hf pays.positive
