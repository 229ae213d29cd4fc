-- ===== src/Reads.antt =====
-- The reads of the database that return a list, page by page: internal/shared/db/pagination.go and
-- internal/shared/db/model/pagination.go.
pub mod Order
pub mod Pages
pub mod Served
pub mod Tokens
pub mod Delegations
pub mod Stats
use staking_api_service.Base.{
  ℕ, zero, suc, ◌+◌, String, Bool, true, false, ◌≡◌, ◌↔◌, Option, none, some, List, [], ◌∷◌, ◌==◌,
  ltb, if◌then◌else◌, ◌&&◌,
}
use staking_api_service.Base.Exec.{Result, ok, err, Exec, pure, fail, lift, try, ◌>>◌ as ◌then◌}
use staking_api_service.Types.Errors.{GoError, text, external, no_documents}
use staking_api_service.Utils.Bitcoin.{◌>>=◌}
use mathlib.Core.List.{Memᴰ}
use Order.{Ascending, StrictOrder, Comparable}

module _ {A : Type 0} where
  abbrev pub length : List A → ℕ
  length [] = 0
  length (x ∷ xs) = suc (length xs)

  abbrev pub take : ℕ → List A → List A
  take (suc n) (x ∷ xs) = x ∷ take n xs
  take _ _ = []

  abbrev pub last? : List A → Option A
  last? [] = none
  last? (x ∷ []) = some x
  last? (x ∷ y ∷ xs) = last? (y ∷ xs)

  -- an index out of range, which is a panic in Go
  abbrev pub or_panic : Option A → Result GoError A
  or_panic (some a) = ok a
  or_panic none = err (external "runtime error: index out of range")

-- A collection as a read finds it. `failure` is the error of the driver, if the read fails;
-- otherwise `rows` are the documents that match a filter, each once, in the order of a sort; with
-- a strict sort, that compares every two documents that match, this determines them. A limit cuts them off.
-- Without a sort, `unsorted` are the documents that match and `one` is one of them.
pub record Source (D : Type 0) : Type 1 where
  pub docs : List D
  pub failure : Option GoError
  pub rows : (D → Bool) → (D → D → Bool) → List D
  pub rows-mem :
      (p : D → Bool) (o : StrictOrder D)
      → Comparable docs p o
      → (d : D) → Memᴰ d (rows p o.before) ↔ (Memᴰ d docs × (p d ≡ true))
  pub rows-Ascending :
      (p : D → Bool) (o : StrictOrder D)
      → Comparable docs p o
      → Ascending o.before (rows p o.before)
  pub unsorted : (D → Bool) → List D
  pub unsorted-mem : (p : D → Bool) (d : D) → Memᴰ d (unsorted p) ↔ (Memᴰ d docs × (p d ≡ true))
  pub one : (D → Bool) → Option D
  pub one-some : (p : D → Bool) (d : D) → one p ≡ some d → Memᴰ d docs × (p d ≡ true)
  pub one-none : (p : D → Bool) → one p ≡ none → (d : D) → Memᴰ d docs → p d ≡ false

-- The bytes of a JSON text, as a text.
abbrev pub Bytes : Type 0
Bytes = String

-- `encoding/json` at a type of tokens, and the URL encoding of `encoding/base64`
pub record Json (T : Type 0) : Type 0 where
  pub marshal : T → Result GoError (Bytes)
  pub unmarshal : Bytes → Result GoError T
  pub marshals : (t : T) → (bytes : Bytes) × (marshal t ≡ ok bytes)
  pub unmarshal_empty : (e : GoError) × (unmarshal "" ≡ err e)
  pub unmarshal-marshal : (t : T) (bytes : Bytes) → marshal t ≡ ok bytes → unmarshal bytes ≡ ok t

pub record Base64 : Type 0 where
  pub encode_to_string : Bytes → String
  pub decode_string : String → Result GoError (Bytes)
  pub decode_empty : decode_string "" ≡ ok ""
  pub decode-encode : (bytes : Bytes) → decode_string (encode_to_string bytes) ≡ ok bytes

module _ {T : Type 0} ⦃base64 : Base64⦄ ⦃json : Json T⦄ where
  unfoldable pub get_pagination_token : T → Result GoError String
  get_pagination_token d = do token_bytes ← json.marshal d; ok (base64.encode_to_string token_bytes)

  unfoldable pub decode_pagination_token : String → Result GoError T
  decode_pagination_token token = do
    token_bytes ← base64.decode_string token
    json.unmarshal token_bytes

pub record DbResultMap (D : Type 0) : Type 0 where
  pub items : List D
  pub pagination_token : String

module _ {D : Type 0} where
  -- `Find` with a limit, and `All`
  abbrev pub found : Option GoError → List D → Result GoError (List D)
  found (some e) l = err e
  found none l = ok l

  abbrev pub decoded : Option GoError → Option D → Result GoError D
  decoded (some e) o = err e
  decoded none none = err no_documents
  decoded none (some d) = ok d

  unfoldable pub find : Source D → (D → Bool) → (D → D → Bool) → ℕ → Result GoError (List D)
  find source filter sort limit = found source.failure (take limit (source.rows filter sort))

  -- `Find` without a sort or a limit, and `All`
  unfoldable pub find_unsorted : Source D → (D → Bool) → Result GoError (List D)
  find_unsorted source filter = found source.failure (source.unsorted filter)

  -- `FindOne`, and `Decode`
  unfoldable pub find_one : Source D → (D → Bool) → Result GoError D
  find_one source filter = decoded source.failure (source.one filter)

  unfoldable pub to_result_map_with_pagination_token :
      ℕ → List D → (D → Result GoError String) → Result GoError (DbResultMap D)
  to_result_map_with_pagination_token pagination_limit result pagination_key_builder =
      if ltb pagination_limit (length result)
      then (do
        let page = take pagination_limit result
        last ← or_panic (last? page)
        pagination_token ← pagination_key_builder last
        ok (record { items = page; pagination_token = pagination_token }))
      else ok (record { items = result; pagination_token = "" })

  unfoldable pub find_with_pagination :
      Source D
      → (D → Bool)
      → (D → D → Bool)
      → ℕ
      → (D → Result GoError String)
      → Result GoError (DbResultMap D)
  unfolding find to_result_map_with_pagination_token
  find_with_pagination source filter sort limit pagination_key_builder = do
    result ← find source filter sort (limit + 1)
    to_result_map_with_pagination_token limit result pagination_key_builder

-- The loop over the pages of a list, `n` pages at most, and over the documents of each.
module _ {D W : Type 0} where
  unfoldable pub for_each : List D → (D → Exec W GoError (Unit {0})) → Exec W GoError (Unit {0})
  for_each [] visit = pure tt
  for_each (d ∷ l) visit = visit d then for_each l visit

  unfoldable pub for_pages :
      ℕ
      → (String → Result GoError (DbResultMap D))
      → (D → Exec W GoError (Unit {0}))
      → String
      → Exec W GoError (Unit {0})
  unfolding for_each
  for_pages zero scan visit page_token = fail (external "too many pages")
  for_pages (suc n) scan visit page_token =
      let rest = for_pages n scan visit in
      try (lift (scan page_token)) (λ e. fail (text "failed to scan delegations"))
        (λ result.
          for_each result.items visit
          then (if result.pagination_token == "" then pure tt else rest result.pagination_token))
