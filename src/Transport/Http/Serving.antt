-- ===== src/Transport/Http/Serving.antt =====
-- How the handler of `transport/http/http.go` answers a request.
use polkadot_worker.Base.{
  ℕ, ◌^◌, ◌<◌, ◌≡◌, ◌≢◌, refl, ap, ◌∙◌, Bool, [], ◌∷◌, ◌++◌, some, Bytes, codes, format_uint,
  Outcome,
}
use polkadot_worker.Stdlib.Numbers.{parse_uint}
use polkadot_worker.Stdlib.Numbers.RoundTrip.{
  StartsWithDigit, parse_uint-format_uint, format_uint-StartsWithDigit,
}
use polkadot_worker.Stdlib.Strings.{strip_prefix, remove_first}
use polkadot_worker.Stdlib.Strings.Cutting.{Lacks, split_one, split_first}
use polkadot_worker.Indexer.AccountData.{AccountInfo}
use polkadot_worker.Transport.Http.{
  AccountView, height_of, path_parts, address_of, answered, get_account,
}

height_of_digits : (s : Bytes) → StartsWithDigit s → height_of s ≡ parse_uint s
height_of_digits [] h = elim h [ ]
height_of_digits (c ∷ s) h = refl

address_of_one : (id : Bytes) → id ≢ [] → address_of ([] ∷ id ∷ []) ≡ some id
address_of_one [] n = absurd (n refl)
address_of_one (c ∷ s) n = refl

height_of-format_uint : (n : ℕ) → n < 2 ^ 64 → height_of (format_uint n) ≡ some n
height_of-format_uint n h =
    height_of_digits (format_uint n) (format_uint-StartsWithDigit n) ∙ parse_uint-format_uint n h

path_parts_lem : (id : Bytes) → Lacks b'/' id → path_parts (codes "/account/" ++ id) ≡ [] ∷ id ∷ []
unfolding path_parts remove_first strip_prefix
path_parts_lem id h = split_first b'/' [] id tt ∙ ap (λ ps. [] ∷ ps) (split_one b'/' id h)

module _ {E : Type 0} (client : ℕ → Bytes → Outcome E AccountInfo)
    (fails : AccountView → Bool) where
  -- A request for an account that is not empty and has no `/`, at a height below 2^64 in decimal
  -- or with no height, is answered as the client answers for just this account and that height, or
  -- the height 0.
  pub get_account_served :
      (height : ℕ) (id : Bytes)
      → height < 2 ^ 64
      → id ≢ []
      → Lacks b'/' id
      → (get_account client fails (codes "/account/" ++ id) (format_uint height)
          ≡ answered client fails (client height id))
        × (get_account client fails (codes "/account/" ++ id) []
            ≡ answered client fails (client 0 id))
  unfolding get_account
  get_account_served height id h n l =
      rw (height_of-format_uint height h, path_parts_lem id l, address_of_one id n) (refl, refl)
