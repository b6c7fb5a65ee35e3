-- ===== src/Indexer/Range/Window.antt =====
-- The ranges that `getLatestBlockHeightRange` of `indexer/client.go` asks for.
use polkadot_worker.Base.{
  ℕ, zero, suc, ◌+◌, ◌-◌, ◌^◌, ◌≤◌, ◌<◌, ◌≡◌, refl, ◌⊎◌, true, false, ltb, ◌==◌, arith, inl, inr,
  Bool-cases,
}
use polkadot_worker.Indexer.Range.{
  HeightRange, sub_uint64, capped_range, get_latest_block_height_range,
}

-- A range up to the node's height that does not go back before `last` and spans `max_heights` at
-- most.
pub record InWindow (max_heights last proxy : ℕ) (r : HeightRange) : Type 0 where
  pub to_the_top : r.end_height ≡ proxy
  pub not_before : last ≤ r.start_height
  pub ordered : r.start_height ≤ r.end_height
  pub not_wide : r.end_height ≤ r.start_height + max_heights

sub_uint64-le : (a b : ℕ) → a < 2 ^ 64 → b ≤ a → sub_uint64 a b ≡ a - b
unfolding sub_uint64
sub_uint64-le a b h l = omega arith

sub_uint64-gt : (a b : ℕ) → b < 2 ^ 64 → a < b → sub_uint64 a b ≡ a + 2 ^ 64 - b
unfolding sub_uint64
sub_uint64-gt a b h l = omega arith

capped_range-InWindow :
    (max_heights last proxy : ℕ)
    → proxy < 2 ^ 64
    → last ≤ proxy
    → InWindow max_heights last proxy (capped_range max_heights last proxy)
capped_range-InWindow m last proxy h l = elim (Bool-cases (ltb m (proxy - last))) [
  | inl e ↦
      let w : sub_uint64 proxy m ≡ proxy - m = sub_uint64-le proxy m h (ground (arith, e)) in
      let k : m < proxy - last = ground (arith, e) in
      rw (sub_uint64-le proxy last h l, e, w)
        (record {
          to_the_top = refl;
          not_before = omega arith;
          ordered = omega arith;
          not_wide = omega arith;
        })
  | inr e ↦
      let k : proxy - last ≤ m = ground (arith, e) in
      rw (sub_uint64-le proxy last h l, e)
        (record {
          to_the_top = refl;
          not_before = omega arith;
          ordered = l;
          not_wide = omega arith;
        })
]

-- For heights below 2^64, where the last height is not above the node's: if some height is known or
-- the node's height is the limit at least, the range ends at the node's height, does not start
-- before the last height, and spans `max_heights` at most. If no height is known and the node's
-- height is below the limit the start wraps around and lies above the end.
pub latest_range_lem :
    (max_heights last proxy : ℕ)
    → proxy < 2 ^ 64
    → max_heights < 2 ^ 64
    → last ≤ proxy
    → ((0 < last) ⊎ (max_heights ≤ proxy)
        → InWindow max_heights last proxy (get_latest_block_height_range max_heights last proxy))
      × (last ≡ 0
          → proxy < max_heights
          → proxy < (get_latest_block_height_range max_heights last proxy).start_height)
unfolding get_latest_block_height_range
latest_range_lem m zero proxy h n l = (
  (λ c. elim (Bool-cases (ltb 0 (sub_uint64 proxy m))) [
    | inl e ↦
        let k : m ≤ proxy = ground (arith, c) in
        let w = sub_uint64-le proxy m h k in
        rw (e, w)
          (record {
            to_the_top = refl;
            not_before = omega arith;
            ordered = omega arith;
            not_wide = omega arith;
          })
    | inr e ↦ rw e (capped_range-InWindow m 0 proxy h l)
  ]),
  (λ z k.
      let w = sub_uint64-gt proxy m n k in
      let e : ltb 0 (proxy + 2 ^ 64 - m) ≡ true = ground arith in rw (w, e) (omega arith)),
)
latest_range_lem m (suc last) proxy h n l =
    let e : (suc last == 0) ≡ false = ground arith in
    (rw e (λ c. capped_range-InWindow m (suc last) proxy h l), (λ z k. absurd (omega arith)))
