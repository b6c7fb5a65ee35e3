-- ===== src/Indexer/Account/Timeliness.antt =====
-- Which errors of `indexer/account.go` are not the timeout.
use polkadot_worker.Base.{
  ◌≡◌, refl, Bool, true, false, Option, none, some, Bytes, codes, same, is_empty, if◌then◌else◌,
  Outcome, ok, err, panic, block, ◌>>=◌, or_panic, or_err, wrap,
}
use polkadot_worker.Api.Session.{ConnError, Response}
use polkadot_worker.Indexer.Latest.{no_error}
use polkadot_worker.Indexer.AccountData.{
  AccountError, wrong_response, Leaf, decimal, other_leaf, Datum, uint32, fields, other_datum,
  as_uint32, as_fields, as_decimal, account_info, checked_response,
}
use polkadot_worker.Indexer.Account.{is_timeout}

module _ {E : Type 0} where
  -- An outcome that is not the timeout.
  abbrev pub InTime : {A : Type 0} → Outcome (AccountError E) A → Type 0
  InTime (err e) = is_timeout e ≡ false
  InTime _ = Unit

  pub bind-InTime :
      {A B : Type 0} (m : Outcome (AccountError E) A) (f : A → Outcome (AccountError E) B)
      → InTime m
      → ((a : A) → InTime (f a))
      → InTime (m >>= f)
  bind-InTime (ok a) f h k = k a
  bind-InTime (err e) f h k = h
  bind-InTime panic f h k = tt
  bind-InTime block f h k = tt

  pub wrap-InTime :
      {F A : Type 0} (f : F → AccountError E) (m : Outcome F A)
      → ((e : F) → is_timeout (f e) ≡ false)
      → InTime (wrap f m)
  wrap-InTime f (ok a) h = tt
  wrap-InTime f (err e) h = h e
  wrap-InTime f panic h = tt
  wrap-InTime f block h = tt

  pub no_error-InTime :
      (f : ConnError → AccountError E) (o : Option ConnError)
      → ((e : ConnError) → is_timeout (f e) ≡ false)
      → InTime (no_error f o)
  no_error-InTime f none h = tt
  no_error-InTime f (some e) h = h e

  pub if-InTime :
      {A : Type 0} (b : Bool) (x y : Outcome (AccountError E) A)
      → InTime x
      → InTime y
      → InTime (if b then x else y)
  if-InTime true x y hx hy = hx
  if-InTime false x y hx hy = hy

  pub or_err-InTime :
      {A : Type 0} (e : AccountError E) (o : Option A) → is_timeout e ≡ false → InTime (or_err e o)
  or_err-InTime e none h = h
  or_err-InTime e (some a) h = tt

module _ (E : Type 0) where
  pub or_panic-InTime : {A : Type 0} (o : Option A) → InTime {E = E} (or_panic o)
  or_panic-InTime none = tt
  or_panic-InTime (some a) = tt

  as_uint32-InTime : (name : Bytes) (o : Option Datum) → InTime {E = E} (as_uint32 name o)
  as_uint32-InTime name (some (uint32 n)) = tt
  as_uint32-InTime name (some (fields f)) = refl
  as_uint32-InTime name (some other_datum) = refl
  as_uint32-InTime name none = refl

  as_fields-InTime : (o : Option Datum) → InTime {E = E} (as_fields o)
  as_fields-InTime (some (uint32 n)) = refl
  as_fields-InTime (some (fields f)) = tt
  as_fields-InTime (some other_datum) = refl
  as_fields-InTime none = refl

  as_decimal-InTime : (name : Bytes) (o : Option Leaf) → InTime {E = E} (as_decimal name o)
  as_decimal-InTime name (some (decimal s)) = tt
  as_decimal-InTime name (some other_leaf) = refl
  as_decimal-InTime name none = refl

  pub account_info-InTime : (inf : Bytes → Option Datum) → InTime {E = E} (account_info inf)
  unfolding account_info
  account_info-InTime inf = bind-InTime _ _ (as_uint32-InTime _ (inf (codes "nonce"))) λ a.
      bind-InTime _ _ (as_uint32-InTime _ (inf (codes "consumers"))) λ b.
        bind-InTime _ _ (as_uint32-InTime _ (inf (codes "providers"))) λ c.
          bind-InTime _ _ (as_fields-InTime (inf (codes "data"))) λ f.
            bind-InTime _ _ (as_decimal-InTime _ (f (codes "free"))) λ g.
              bind-InTime _ _ (as_decimal-InTime _ (f (codes "reserved"))) λ h.
                bind-InTime _ _ (as_decimal-InTime _ (f (codes "miscFrozen")))
                  λ i. bind-InTime _ _ (as_decimal-InTime _ (f (codes "feeFrozen"))) λ j. tt

  pub checked_response-InTime :
      (type : Bytes) (r : Response) → InTime {E = E} (checked_response type r)
  unfolding checked_response
  checked_response-InTime type r =
      bind-InTime _ _ (no_error-InTime wrong_response r.error (λ e. refl))
        λ _. if-InTime (same r.type type) _ _ (if-InTime (is_empty r.result) _ _ refl tt) refl
