-- ===== src/Transport/Http.antt =====
-- `transport/http/http.go`: the handler of accounts. The parsed URL gives the path and the parameter
-- `height`; the client is an argument. Metrics, logs and the registration at the mux are left out.
pub mod Serving
use polkadot_worker.Base.{
  ℕ, ◌≡◌, Bool, true, false, ◌||◌, List, [], ◌∷◌, ◌++◌, Option, none, some, Bytes, codes, is_empty,
  ltb, length, get_elem?, if◌then◌else◌, Outcome, ok, err, panic, block, ◌>>=◌, or_panic,
}
use polkadot_worker.Stdlib.Numbers.{parse_uint}
use polkadot_worker.Stdlib.Strings.{split, remove_first}
use polkadot_worker.Indexer.AccountData.{AccountInfo}

pub record AccountView : Type 0 where
  pub nonce : ℕ
  pub free : Bytes
  pub reserved : Bytes
  pub misc_frozen : Bytes
  pub fee_frozen : Bytes

-- The messages of `ServiceError`, the first with the text of its error; `status` stays 0.
pub data Body : Type 0 where
  invalid_height : Bytes → Body
  empty_address : Body
  processing_error : Body
  view : AccountView → Body

-- What the handler does with its `ResponseWriter`.
pub data Action : Type 0 where
  write_header : ℕ → Action
  encode : Body → Action

-- The status that is sent: that of the first header, and 200 for a body without one.
abbrev pub status : List Action → ℕ
status [] = 200
status (write_header n ∷ _) = n
status (encode b ∷ _) = 200

abbrev pub refused : ℕ → Body → List Action
refused n b = write_header n ∷ encode b ∷ []

abbrev pub view_of : AccountInfo → AccountView
view_of ac = record {
  nonce = ac.nonce;
  free = ac.free;
  reserved = ac.reserved;
  misc_frozen = ac.misc_frozen;
  fee_frozen = ac.fee_frozen;
}

-- The height of the request; an empty text is 0.
abbrev pub height_of : Bytes → Option ℕ
height_of [] = some 0
height_of (c ∷ s) = parse_uint (c ∷ s)

-- The parts of the path behind `/account`.
unfoldable pub path_parts : Bytes → List Bytes
path_parts path = split b'/' (remove_first (codes "/account") path)

-- `s[len(s)-1]`, when `s[1]` is there and not empty.
abbrev pub last : Bytes → List Bytes → Bytes
last x [] = x
last x (y ∷ ys) = last y ys

abbrev pub address_of : List Bytes → Option Bytes
address_of [] = none
address_of (a ∷ []) = none
address_of (a ∷ b ∷ rest) = if is_empty b then none else some (last b rest)

-- `client` is `GetAccount` of the client, and `fails` says whether `Encode` fails on a view.
module _ {E : Type 0} (client : ℕ → Bytes → Outcome E AccountInfo)
    (fails : AccountView → Bool) where
  abbrev pub served : AccountView → List Action
  served v =
      if fails v then encode (view v) ∷ refused 500 processing_error else encode (view v) ∷ []

  abbrev pub answered : Outcome E AccountInfo → Outcome (Unit {0}) (List Action)
  answered (ok ac) = ok (served (view_of ac))
  answered (err e) = ok (refused 500 processing_error)
  answered panic = panic
  answered block = block

  abbrev pub with_address : ℕ → Option Bytes → Outcome (Unit {0}) (List Action)
  with_address height none = ok (refused 400 empty_address)
  with_address height (some account) = answered (client height account)

  abbrev pub with_height : Bytes → Bytes → Option ℕ → Outcome (Unit {0}) (List Action)
  with_height path text none = ok (refused 400 (invalid_height text))
  with_height path text (some height) = with_address height (address_of (path_parts path))

  unfoldable pub get_account : Bytes → Bytes → Outcome (Unit {0}) (List Action)
  get_account path text = with_height path text (height_of text)
