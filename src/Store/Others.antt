-- ===== src/Store/Others.antt =====
-- internal/shared/db/client/pk_address_mapping.go (the insertion) and unprocessable_message.go
use staking_api_service.Base.{Bool, String, List, ◌==◌}
use staking_api_service.Base.Exec.{pure, ◌>>=◌}
use staking_api_service.Model.{PkAddressMapping, UnprocessableMessageDocument}
use staking_api_service.Driver.{Driver, call}
use staking_api_service.Store.Access.{Client, query, command}

module _ ⦃driver : Driver⦄ where
  open driver use {mongo}

  unfoldable pub insert_mapping : PkAddressMapping → Client driver Bool
  insert_mapping d = call (
      command (λ db.
        let (inserted, s) = mongo.pk_address_mappings.insert_one d db.pk_address_mappings in
        (inserted, record db { pk_address_mappings = s })))

  -- A mapping that a unique index forbids is no error: one under the key, or with one of the addresses.
  unfoldable pub insert_pk_address_mappings :
      (pk_hex taproot native_segwit_odd native_segwit_even : String) → Client driver (Unit {0})
  unfolding insert_mapping
  insert_pk_address_mappings pk_hex taproot native_segwit_odd native_segwit_even = do
    inserted ← insert_mapping (record {
      pk_hex = pk_hex;
      taproot = taproot;
      native_segwit_even = native_segwit_even;
      native_segwit_odd = native_segwit_odd;
    })
    pure tt

  unfoldable pub save_unprocessable_message :
      (message_body receipt : String) → Client driver (Unit {0})
  save_unprocessable_message message_body receipt = call (
      command (λ db.
        let document : UnprocessableMessageDocument = record {
          message_body = message_body;
          receipt = receipt;
        } in
        (
          tt,
          record db {
            unprocessable_messages =
                mongo.unprocessable_messages.insert_one document db.unprocessable_messages;
          },
        )))

  unfoldable pub find_unprocessable_messages : Client driver (List UnprocessableMessageDocument)
  find_unprocessable_messages =
      call (query (λ db. mongo.unprocessable_messages.find_all db.unprocessable_messages))

  unfoldable pub delete_unprocessable_message : (receipt : String) → Client driver (Unit {0})
  delete_unprocessable_message receipt = call (
      command (λ db. (
        tt,
        record db {
          unprocessable_messages =
              mongo.unprocessable_messages.delete_one (λ d. d.receipt == receipt)
                db.unprocessable_messages;
        },
      )))
