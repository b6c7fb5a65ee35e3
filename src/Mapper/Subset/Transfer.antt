-- ===== src/Mapper/Subset/Transfer.antt =====
-- What `getEvent` of `mapper/event_mapper.go` makes of a transfer of an amount between two accounts.
use polkadot_worker.Base.{
  ℕ, ◌≡◌, refl, false, List, [], ◌∷◌, none, some, Bytes, codes, to_lower, ok, map, ap, sym, ◌∙◌,
  format_uint, digits, ◌>>=◌,
}
use polkadot_worker.Base.Int.{ℤ}
use polkadot_worker.Mapper.Amount.{Floats, TransactionAmount, get_amount}
use polkadot_worker.Mapper.Proto.{
  EventData, RawEvent, SubsetEvent, empty_subset_event, EventTransfer,
}
use polkadot_worker.Mapper.Event.{
  Event, empty_event, from, to, amount, get_values, classify, is_method, get_value, parse_named,
  stringify_value, parse_values, parse_rest, parse_event_description, render, quoted,
}
use polkadot_worker.Mapper.Subset.{
  get_event, append_amounts, append_each, append_accounts, append_sender, append_signer,
  append_recipient, append_versions, finish_event,
}

-- A raw event without an error whose three named parameters are a sender, a recipient and an amount,
-- with data of these kinds, none with an empty value.
pub record Transfer (ev : RawEvent) : Type 0 where
  pub sender_name : Bytes
  pub recipient_name : Bytes
  pub amount_name : Bytes
  pub described : get_values ev.description ≡ sender_name ∷ recipient_name ∷ amount_name ∷ []
  pub sender_kind : classify sender_name ≡ from
  pub recipient_kind : classify recipient_name ≡ to
  pub amount_kind : classify amount_name ≡ amount
  pub no_error : ev.error ≡ []
  pub not_delegated : is_method ev (codes "delegated") ≡ false

abbrev pub datum : Bytes → ℕ → Bytes → EventData
datum name c s = record { name = name; value = c ∷ s }

abbrev pub shown_value : Bytes → Bytes
shown_value [] = []
shown_value (c ∷ s) = quoted c (c ∷ s)

abbrev pub shown : EventData → Bytes
shown d = render d.name (shown_value d.value)

-- The event as the description leaves it.
abbrev parsed : List Bytes → Bytes → Bytes → Bytes → Event
parsed attributes s r v = record empty_event {
  sub = record empty_subset_event { additional = (codes "attributes", attributes) ∷ [] };
  sender_account_id = s;
  recipient_account_id = r;
  values = v ∷ [];
}

abbrev pub transfer_data : ℕ → Bytes → ℕ → Bytes → ℕ → Bytes → List EventData
transfer_data a s b r c v =
    datum (codes "AccountId") a s ∷ datum (codes "AccountId") b r ∷ datum (codes "Balance") c v ∷ []

description_lem :
    (ev : RawEvent) (t : Transfer ev) (a b c : ℕ) (s r v : Bytes)
    → ev.params ≡ transfer_data a s b r c v
    → parse_event_description ev empty_event
      ≡ ok (parsed (map shown (transfer_data a s b r c v)) (a ∷ s) (b ∷ r) (c ∷ v))
unfolding parse_event_description parse_values parse_named get_value stringify_value parse_rest
description_lem ev t a b c s r v p =
    rw (t.described, p, t.sender_kind, t.recipient_kind, t.amount_kind, t.not_delegated) refl

-- The account with the amount.
abbrev pub moved : Bytes → TransactionAmount → EventTransfer
moved account m = record { account = account; amounts = some m ∷ [] }

-- The whole subset event of a transfer.
abbrev pub transferred : RawEvent → Bytes → Bytes → TransactionAmount → SubsetEvent
transferred ev sender recipient m = record {
  id = [];
  type = to_lower ev.method ∷ [];
  module_ = ev.section;
  node = (codes "sender", sender ∷ []) ∷ (codes "recipient", recipient ∷ []) ∷ [];
  error = none;
  amount = (codes "0", m) ∷ [];
  additional = (codes "attributes", map shown ev.params) ∷ [];
  sender = moved sender m ∷ [];
  recipient = moved recipient m ∷ [];
  transfers = (recipient, moved recipient m ∷ []) ∷ [];
  completion = none;
  nonce = [];
}

-- The event with its amount.
abbrev priced : List Bytes → Bytes → Bytes → Bytes → TransactionAmount → Event
priced attributes s r v m = record (parsed attributes s r v) {
  sub = record empty_subset_event {
    additional = (codes "attributes", attributes) ∷ [];
    amount = (codes "0", m) ∷ [];
  };
  amount = some m;
}

append_amounts-priced :
    (fl : Floats) (exp : ℤ) (currency : Bytes) (divider : fl.Float) (attributes : List Bytes)
    (s r v : Bytes) {m : TransactionAmount}
    → get_amount fl v exp currency divider ≡ ok (some m)
    → append_amounts fl exp currency divider (parsed attributes s r v)
      ≡ ok (priced attributes s r v m)
unfolding append_amounts append_each format_uint digits
append_amounts-priced fl exp currency divider attributes s r v h = rw (h, ◌>>=◌) refl

append_accounts-transferred :
    (ev : RawEvent) (a b : ℕ) (s r v : Bytes) (m : TransactionAmount)
    → finish_event ev (append_accounts (priced (map shown ev.params) (a ∷ s) (b ∷ r) v m))
      ≡ transferred ev (a ∷ s) (b ∷ r) m
unfolding append_accounts append_sender append_signer append_recipient append_versions finish_event
append_accounts-transferred ev a b s r v m = refl

get_event_plain :
    (fl : Floats) (exp : ℤ) (currency signer : Bytes) (divider : fl.Float) (ev : RawEvent)
    {e f : Event}
    → ev.error ≡ []
    → parse_event_description ev empty_event ≡ ok e
    → append_amounts fl exp currency divider e ≡ ok f
    → get_event fl exp currency divider ev signer ≡ ok (finish_event ev (append_accounts f))
unfolding get_event
get_event_plain fl exp currency signer divider ev n p h = rw (p, ◌>>=◌) (rw n (rw (h, ◌>>=◌) refl))

-- A transfer whose amount can be read becomes the subset event with its sender, its recipient, the
-- amount with each of them, once among the amounts and under the recipient among the transfers, and
-- the three data as attributes.
pub get_event-transferred :
    (fl : Floats) (exp : ℤ) (currency signer : Bytes) (divider : fl.Float) (ev : RawEvent)
    (t : Transfer ev) (a b c : ℕ) (s r v : Bytes) {m : TransactionAmount}
    → ev.params ≡ transfer_data a s b r c v
    → get_amount fl (c ∷ v) exp currency divider ≡ ok (some m)
    → get_event fl exp currency divider ev signer ≡ ok (transferred ev (a ∷ s) (b ∷ r) m)
get_event-transferred fl exp currency signer divider ev t a b c s r v {m} p h =
    get_event_plain fl exp currency signer divider ev t.no_error
      (description_lem ev t a b c s r v p)
      (append_amounts-priced fl exp currency divider _ (a ∷ s) (b ∷ r) (c ∷ v) h)
    ∙ (ap
          (λ l.
            ok (finish_event ev (append_accounts (priced (map shown l) (a ∷ s) (b ∷ r) (c ∷ v) m))))
          (sym p)
        ∙ ap ok (append_accounts-transferred ev a b s r (c ∷ v) m))
