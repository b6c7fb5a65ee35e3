-- ===== src/Mapper/Proto.antt =====
-- The messages of polkadothub-proxy that the package `mapper` reads, and the structures of the
-- common format that it fills, with the fields that it touches.
use polkadot_worker.Base.{ℕ, Bool, false, List, [], Option, none, Bytes, ◌==◌}
use polkadot_worker.Base.Int.{ℤ, pos, negsuc}
use polkadot_worker.Mapper.Amount.{TransactionAmount}

-- `eventpb.EventData`
pub record EventData : Type 0 where
  pub name : Bytes
  pub value : Bytes

-- `eventpb.Event`; `index` is an int64.
pub record RawEvent : Type 0 where
  pub index : ℤ
  pub description : Bytes
  pub params : List EventData  -- the field `Data`
  pub method : Bytes
  pub section : Bytes
  pub error : Bytes
  pub raw : Bytes

-- `transactionpb` in a block: `Extrinsics`.
pub record Extrinsic : Type 0 where
  pub hash : Bytes
  pub time : Bytes
  pub nonce : ℤ
  pub method : Bytes
  pub section : Bytes
  pub signer : Bytes
  pub partial_fee : Bytes
  pub tip : Bytes
  pub epoch : Bytes
  pub is_success : Bool
  pub raw : Bytes
  pub events : List RawEvent

-- `blockpb.GetByHeightResponse`, its `Block`; the height is an int64.
pub record RawBlock : Type 0 where
  pub block_hash : Bytes
  pub height : ℤ
  pub time : ℕ
  pub extrinsics : List Extrinsic

-- `time.Unix(sec, nsec)`
pub record UnixTime : Type 0 where
  pub sec : ℤ
  pub nsec : ℤ

-- An account is its identifier. `none` among the amounts is the zero `TransactionAmount`.
pub record EventTransfer : Type 0 where
  pub account : Bytes
  pub amounts : List (Option TransactionAmount)

-- A Go map is a list of its entries, in the order in which the code writes them.
pub record SubsetEvent : Type 0 where
  pub id : Bytes
  pub type : List Bytes
  pub module_ : Bytes
  pub node : List (Bytes × List Bytes)
  pub error : Option Bytes
  pub amount : List (Bytes × TransactionAmount)
  pub additional : List (Bytes × List Bytes)
  pub sender : List EventTransfer
  pub recipient : List EventTransfer
  pub transfers : List (Bytes × List EventTransfer)
  pub completion : Option UnixTime
  pub nonce : Bytes

abbrev pub empty_subset_event : SubsetEvent
empty_subset_event = record {
  id = [];
  type = [];
  module_ = [];
  node = [];
  error = none;
  amount = [];
  additional = [];
  sender = [];
  recipient = [];
  transfers = [];
  completion = none;
  nonce = [];
}

-- Go's `==` on int64.
abbrev pub same_int : ℤ → ℤ → Bool
same_int (pos m) (pos n) = m == n
same_int (negsuc m) (negsuc n) = m == n
same_int (pos m) (negsuc n) = false
same_int (negsuc m) (pos n) = false
