-- ===== src/Examples/Gathering.antt =====
-- A run of `getOthers` of `indexer/getBlock.go`.
use polkadot_worker.Base.{ℕ, ◌≡◌, refl, List, [], ◌∷◌, map, none, some, codes, ok}
use polkadot_worker.Indexer.Others.{other_requests, get_others}
use polkadot_worker.Indexer.Others.Filling.{
  Part, chain, block_text, timestamp, events, next_fee_multipier, current_era, runtime, id_of,
  Results, Occurs, Sendable, reply, gathered, get_others_complete,
}

-- A node whose results are one letter in quotes.
abbrev letter : Part → ℕ
letter chain = 97
letter p = id_of p

abbrev one_letter : Results some some
one_letter = record {
  result = λ p. 34 ∷ letter p ∷ 34 ∷ [];
  inside = λ p. letter p ∷ [];
  cut = λ p. refl;
  block_part = 34 ∷ letter block_text ∷ 34 ∷ [];
  block_read = refl;
  version = 34 ∷ letter runtime ∷ 34 ∷ [];
  version_read = refl;
}

abbrev pub seven_parts : List Part
seven_parts =
    runtime ∷ chain ∷ events ∷ block_text ∷ timestamp ∷ current_era ∷ next_fee_multipier ∷ []

pub seven_parts-Occurs : (p : Part) → Occurs p seven_parts
seven_parts-Occurs chain = (1, refl)
seven_parts-Occurs block_text = (3, refl)
seven_parts-Occurs timestamp = (4, refl)
seven_parts-Occurs events = (2, refl)
seven_parts-Occurs next_fee_multipier = (6, refl)
seven_parts-Occurs current_era = (5, refl)
seven_parts-Occurs runtime = (0, refl)

all_sent : Sendable (λ q. none) (other_requests (codes "1") (codes "2") (codes "3"))
unfolding other_requests
all_sent = (refl, (refl, (refl, (refl, (refl, (refl, (refl, tt)))))))

get_others_complete_example :
    get_others some some
      (λ q. none)
      (codes "1")
      (codes "2")
      (codes "3")
      (map (reply some some one_letter) seven_parts)
    ≡ ok (gathered some some one_letter)
get_others_complete_example =
    get_others_complete some some (λ q. none) (codes "1") (codes "2") (codes "3") one_letter
      seven_parts all_sent refl seven_parts-Occurs
