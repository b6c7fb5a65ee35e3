-- ===== src/Scale/Requests.antt =====
-- `AccountRequest` of `api/scale/requests.go`. The decoder of base58, the hashes and the print of
-- bytes in hex are arguments.
use polkadot_worker.Base.{ℕ, ◌++◌, Option, Bytes, codes, Outcome, ok, ◌>>=◌}
use polkadot_worker.Scale.Address.{address_bytes, to_blake_sum}
use polkadot_worker.Scale.Xxhash.{new64x2, write, sum}

-- What `AccountRequest` calls of other libraries.
pub record Codecs : Type 1 where
  pub Hash : Type 0
  pub Fault : Type 0
  pub hash64 : ℕ → Bytes → Bytes
  pub base58 : Bytes → Bytes
  pub blake_new : Option Fault
  pub blake_write : Bytes → Hash × Option Fault
  pub blake_sum : Hash → Bytes
  pub to_hex : Bytes → Bytes

module _ (c : Codecs) where
  open c use {hash64, base58, blake_new, blake_write, blake_sum, to_hex, Fault}

  -- The request is returned along with the error.
  unfoldable pub account_request : Bytes → Outcome (Unit {0}) (Bytes × Option Fault)
  account_request account = do
    let system = sum hash64 (write (codes "System") new64x2)
    let name = sum hash64 (write (codes "Account") new64x2)
    address ← address_bytes (base58 account)
    let (blake, e) = to_blake_sum blake_new blake_write blake_sum address
    ok (codes "0x" ++ (to_hex system ++ (to_hex name ++ (to_hex blake ++ to_hex address))), e)
