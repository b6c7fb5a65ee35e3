-- ===== src/Indexer/Range.antt =====
-- `indexer/client.go`: `getLatestBlockHeightRange`, on heights of 64 bits.
pub mod Window
use polkadot_worker.Base.{ℕ, ◌+◌, ◌-◌, ◌%◌, ◌^◌, Bool, ◌&&◌, ltb, ◌==◌, if◌then◌else◌}
unfoldable pub use polkadot_worker.Base.Int.{sub_uint64}

pub record HeightRange : Type 0 where
  pub start_height : ℕ
  pub end_height : ℕ

-- The part of the function behind the first `if`.
abbrev pub capped_range : ℕ → ℕ → ℕ → HeightRange
capped_range max_heights last proxy =
    if ltb max_heights (sub_uint64 proxy last)
    then record { start_height = sub_uint64 proxy max_heights; end_height = proxy }
    else record { start_height = last; end_height = proxy }

unfoldable pub get_latest_block_height_range : ℕ → ℕ → ℕ → HeightRange
get_latest_block_height_range max_heights last proxy =
    if last == 0 && ltb 0 (sub_uint64 proxy max_heights)
    then record { start_height = sub_uint64 proxy max_heights; end_height = proxy }
    else capped_range max_heights last proxy
