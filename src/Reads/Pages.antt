-- ===== src/Reads/Pages.antt =====
-- Reading a list page by page.
use mathlib.Core.List.{append_assoc}
use staking_api_service.Base.{
  ℕ, zero, suc, ◌+◌, ◌≤◌, ◌<◌, String, true, false, ◌≡◌, ◌≢◌, refl, sym, ◌∙◌, ap, some, List, [],
  ◌∷◌, ◌++◌, ◌==◌, arith, ltb, inl, inr, Bool-cases, ltb→lt, if◌then◌else◌,
}
use staking_api_service.Base.Exec.{
  Result, ok, err, Exec, pure, fail, lift, try, resume, ◌>>=◌, ◌>>◌ as ◌then◌,
}
use staking_api_service.Types.Errors.{GoError}
use staking_api_service.Reads.Tokens.{nonempty_test}
use staking_api_service.Reads.{
  length, take, last?, DbResultMap, to_result_map_with_pagination_token, for_each, for_pages,
}

module _ {W E : Type 0} where
  -- doing nothing more
  then_assoc : (a b c : Exec W E (Unit {0})) (w : W) → ((a then b) then c) w ≡ (a then (b then c)) w
  unfolding ◌>>=◌ try fail
  then_assoc a b c w = split (a w).0 (a w).1
    where
      split :
          (r : Result E (Unit {0})) (v : W)
          → resume (resume r (λ x. b) fail v).0 (λ x. c) fail (resume r (λ x. b) fail v).1
            ≡ resume r (λ x. b then c) fail v
      split (ok t) v = refl
      split (err e) v = refl

module _ {D W : Type 0} (visit : D → Exec W GoError (Unit {0})) where
  pub for_each-append :
      (xs ys : List D) (w : W)
      → for_each (xs ++ ys) visit w ≡ (for_each xs visit then for_each ys visit) w
  unfolding for_each ◌>>=◌ try pure
  for_each-append [] ys w = refl
  for_each-append (x ∷ xs) ys w =
      ap (λ k. resume (visit x w).0 (λ t. k) fail (visit x w).1) (λ i v. for_each-append xs ys v i)
      ∙ sym (then_assoc (visit x) (for_each xs visit) (for_each ys visit) w)

module _ {D : Type 0} where
  take-all : (n : ℕ) (l : List D) → length l ≤ n → take n l ≡ l
  take-all zero [] h = refl
  take-all zero (x ∷ l) h = absurd (omega (arith, h))
  take-all (suc n) [] h = refl
  take-all (suc n) (x ∷ l) h = ap (λ t. x ∷ t) (take-all n l (omega (arith, h)))

  -- the cut of a list at its first page
  pub record FirstPage (n : ℕ) (l : List D) : Type 0 where
    pub front : List D
    pub last : D
    pub rest : List D
    pub parts : l ≡ front ++ (last ∷ rest)
    pub page : take n (take (suc n) l) ≡ front ++ (last ∷ [])
    pub shorter : length rest < length l
    pub more : ltb n (length (take (suc n) l)) ≡ true

  pub first_page : (n : ℕ) (l : List D) → 0 < n → n < length l → FirstPage n l
  first_page zero l h k = absurd (omega (arith, h))
  first_page (suc n) [] h k = absurd (omega (arith, k))
  first_page (suc zero) (x ∷ []) h k = absurd (omega (arith, k))
  first_page (suc zero) (x ∷ y ∷ l) h k = record {
    front = [];
    last = x;
    rest = y ∷ l;
    parts = refl;
    page = refl;
    shorter = omega arith;
    more = ground arith;
  }
  first_page (suc (suc n)) (x ∷ l) h k =
      let r = first_page (suc n) l (omega arith) (omega (arith, k)) in
      record {
        front = x ∷ r.front;
        last = r.last;
        rest = r.rest;
        parts = ap (λ t. x ∷ t) r.parts;
        page = ap (λ t. x ∷ t) r.page;
        shorter = omega (arith, r.shorter);
        more = ground (arith, r.more);
      }

  pub last?-append : (l : List D) (d : D) → last? (l ++ (d ∷ [])) ≡ some d
  last?-append [] d = refl
  last?-append (x ∷ []) d = refl
  last?-append (x ∷ y ∷ l) d = last?-append (y ∷ l) d

  module _ (limit : ℕ) (key : D → Result GoError String) where
    -- the answer to a request for the documents `rest`
    abbrev pub answer_for : List D → Result GoError (DbResultMap D)
    answer_for rest = to_result_map_with_pagination_token limit (take (limit + 1) rest) key

    plus_one : limit + 1 ≡ suc limit
    plus_one = omega arith

    -- `scan` answers the first request from `all`, and one with a document's token from what follows it.
    pub record Serves (scan : String → Result GoError (DbResultMap D)) (all : List D) : Type 0 where
      pub first : scan "" ≡ answer_for all
      pub next :
          (front rest : List D) (d : D)
          → all ≡ front ++ (d ∷ rest)
          → (token : String) × (key d ≡ ok token) × (token ≢ "") × (scan token ≡ answer_for rest)

    -- a full page and its token
    pub full_page :
        (rest : List D) (p : FirstPage limit rest) (token : String)
        → key p.last ≡ ok token
        → answer_for rest
          ≡ ok (record { items = p.front ++ (p.last ∷ []); pagination_token = token })
    unfolding to_result_map_with_pagination_token
    full_page rest p token h = rw (plus_one, p.more, p.page, last?-append p.front p.last, h) refl

    pub last_page :
        (rest : List D)
        → length rest ≤ limit
        → answer_for rest ≡ ok (record { items = rest; pagination_token = "" })
    unfolding to_result_map_with_pagination_token
    last_page rest h = rw (plus_one, take-all (suc limit) rest (omega (arith, h)), no_more) refl
      where
        no_more : ltb limit (length rest) ≡ false
        no_more = ground (arith, h)

module _ {D W : Type 0} (limit : ℕ) (key : D → Result GoError String)
    (scan : String → Result GoError (DbResultMap D)) (all : List D)
    (visit : D → Exec W GoError (Unit {0})) where
  -- one turn of the loop
  last_turn :
      (n : ℕ) (token : String) (items : List D) (w : W)
      → scan token ≡ ok (record { items = items; pagination_token = "" })
      → for_pages (suc n) scan visit token w ≡ (for_each items visit then pure tt) w
  unfolding for_pages try lift
  last_turn n token items w h = rw (h) refl

  turn :
      (n : ℕ) (token following : String) (items : List D) (w : W)
      → scan token ≡ ok (record { items = items; pagination_token = following })
      → (following == "") ≡ false
      → for_pages (suc n) scan visit token w
        ≡ (for_each items visit then for_pages n scan visit following) w
  unfolding for_pages try lift
  turn n token following items w h k = rw (h, k) refl

  then_nothing : (c : Exec W GoError (Unit {0})) (w : W) → (c then pure tt) w ≡ c w
  unfolding ◌>>=◌ try pure fail
  then_nothing c w = split (c w).0 (c w).1
    where
      split : (r : Result GoError (Unit {0})) (v : W) → resume r (λ x. pure tt) fail v ≡ (r, v)
      split (ok t) v = refl
      split (err e) v = refl

  then-ap :
      (a b c : Exec W GoError (Unit {0})) (w : W)
      → ((v : W) → b v ≡ c v)
      → (a then b) w ≡ (a then c) w
  then-ap a b c w h = λ i. (a then (λ v. h v i)) w

  module _ (positive : 0 < limit) (serves : Serves limit key scan all) where
    from_page :
        (n : ℕ) (front rest : List D) (token : String)
        → all ≡ front ++ rest
        → scan token ≡ answer_for limit key rest
        → length rest < n
        → (w : W) → for_pages n scan visit token w ≡ for_each rest visit w
    from_page zero front rest token parts h enough w = absurd (omega (arith, enough))
    from_page (suc n) front rest token parts h enough w =
        elim (Bool-cases (ltb limit (length rest))) [
          | inr last ↦
              last_turn n token rest w (h ∙ last_page limit key rest (ground (arith, last)))
              ∙ then_nothing (for_each rest visit) w
          | inl full ↦
              let p = first_page limit rest positive (ltb→lt limit (length rest) full) in
              let page = p.front ++ (p.last ∷ []) in
              let split = append_assoc p.front (p.last ∷ []) p.rest in
              let before =
                parts
                ∙ ap (λ l. front ++ l) p.parts
                ∙ sym (append_assoc front p.front (p.last ∷ p.rest)) in
              let (following, k, nonempty, next) =
                serves.next (front ++ p.front) p.rest p.last before in
              let after = before ∙ sym (append_assoc (front ++ p.front) (p.last ∷ []) p.rest) in
              turn n token following page w (h ∙ full_page limit key rest p following k)
                (nonempty_test following nonempty)
              ∙ then-ap (for_each page visit) (for_pages n scan visit following)
                  (for_each p.rest visit) w
                  (from_page n ((front ++ p.front) ++ (p.last ∷ [])) p.rest following after next
                    (omega (arith, enough, p.shorter)))
              ∙ sym (for_each-append visit page p.rest w)
              ∙ ap (λ l. for_each l visit w) (split ∙ sym p.parts)
        ]

    -- The loop does what a loop over all documents would do, if it may read as many pages as there are
    -- documents, and one more.
    pub for_pages-visits :
        (n : ℕ) → length all < n → (w : W) → for_pages n scan visit "" w ≡ for_each all visit w
    for_pages-visits n enough w = from_page n [] all "" refl serves.first enough w
