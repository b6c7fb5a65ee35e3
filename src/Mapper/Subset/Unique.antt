-- ===== src/Mapper/Subset/Unique.antt =====
-- Which events of an extrinsic become subset events in `parseEvents` of `mapper/event_mapper.go`.
use polkadot_worker.Base.{
  ℕ, ◌≡◌, ◌≢◌, ◌⊎◌, refl, sym, subst, inl, inr, true, false, Bool-cases, List, [], ◌∷◌, map, some,
  Bytes, All, All-map, Distinct, ok, ◌>>=◌, after_ok, after_ok_eq, ok_inj, arith,
}
use polkadot_worker.Base.Int.{ℤ}
use polkadot_worker.Mapper.Amount.{Floats}
use polkadot_worker.Mapper.Proto.{RawEvent, SubsetEvent, UnixTime}
use polkadot_worker.Mapper.Subset.Indices.{
  event_id_inj, Distinct-map, member_int-cons, member_int_here, member_int_there, member_int_ne,
  member_int_tail,
}
use polkadot_worker.Mapper.Subset.{get_event, event_id, member_int, parse_loop, parse_events}

abbrev pub event_index : RawEvent → ℤ
event_index e = e.index

abbrev pub subset_id : SubsetEvent → Bytes
subset_id s = s.id

module _ (fl : Floats) (exp : ℤ) (currency : Bytes) (height : ℕ) where
  -- The indices of the events that are kept.
  record Kept (seen : List ℤ) (es : List RawEvent) (subs : List SubsetEvent) : Type 0 where
    indices : List ℤ
    ids : map subset_id subs ≡ map (event_id height) indices
    distinct : Distinct indices
    new : All (λ i. member_int i seen ≡ false) indices
    complete :
        (i : ℤ)
        → member_int i (map event_index es) ≡ true
        → (member_int i seen ≡ true) ⊎ (member_int i indices ≡ true)

  Kept-skipped :
      (seen : List ℤ) (e : RawEvent) (es : List RawEvent) (subs : List SubsetEvent)
      → member_int e.index seen ≡ true
      → Kept seen es subs
      → Kept seen (e ∷ es) subs
  Kept-skipped seen e es subs m k = record {
    indices = k.indices;
    ids = k.ids;
    distinct = k.distinct;
    new = k.new;
    complete = λ i h. elim (member_int-cons i e.index (map event_index es) h) [
      | inl q ↦ inl (rw q m)
      | inr q ↦ k.complete i q
    ];
  }

  Kept-taken :
      (seen : List ℤ) (e : RawEvent) (es : List RawEvent) (sub : SubsetEvent)
      (subs : List SubsetEvent)
      → member_int e.index seen ≡ false
      → sub.id ≡ event_id height e.index
      → Kept (e.index ∷ seen) es subs
      → Kept seen (e ∷ es) (sub ∷ subs)
  Kept-taken seen e es sub subs m q k = record {
    indices = e.index ∷ k.indices;
    ids = rw (q, k.ids) refl;
    distinct = (
      All-map (λ i. member_int i (e.index ∷ seen) ≡ false) (λ i. i ≢ e.index)
          (λ i. member_int_ne i e.index seen) _ k.new,
      k.distinct,
    );
    new = (
      m,
      All-map (λ i. member_int i (e.index ∷ seen) ≡ false) (λ i. member_int i seen ≡ false)
          (λ i. member_int_tail i e.index seen) _ k.new,
    );
    complete = λ i h. elim (member_int-cons i e.index (map event_index es) h) [
      | inl p ↦ inr (member_int_here i e.index _ p)
      | inr p ↦ elim (k.complete i p) [
        | inr r ↦ inr (member_int_there i e.index _ r)
        | inl r ↦ elim (member_int-cons i e.index seen r) [
          | inl u ↦ inr (member_int_here i e.index _ u)
          | inr u ↦ inl u
        ]
      ]
    ];
  }

  loop_took :
      (divider : fl.Float) (time : UnixTime) (nonce signer : Bytes) (seen : List ℤ) (e : RawEvent)
      (es : List RawEvent) (p : List SubsetEvent × List Bytes)
      → member_int e.index seen ≡ false
      → (do
        sub ← get_event fl exp currency divider e signer
        (subs, raw) ←
            parse_loop fl exp currency divider time height nonce signer (e.index ∷ seen) es
        ok (
          record sub { id = event_id height e.index; completion = some time; nonce = nonce } ∷ subs,
          e.raw ∷ raw,
        ))
        ≡ ok p
      → ((q : List SubsetEvent × List Bytes)
          → parse_loop fl exp currency divider time height nonce signer (e.index ∷ seen) es ≡ ok q
          → Kept (e.index ∷ seen) es q.0)
      → Kept seen (e ∷ es) p.0
  loop_took divider time nonce signer seen e es p m h ih =
      after_ok (get_event fl exp currency divider e signer) _
        (λ sub h1.
          after_ok_eq
            (parse_loop fl exp currency divider time height nonce signer (e.index ∷ seen) es) _
            (λ q e2 h2.
              subst (λ x. Kept seen (e ∷ es) x.0) (ok_inj h2)
                (Kept-taken seen e es
                  (record sub {
                    id = event_id height e.index;
                    completion = some time;
                    nonce = nonce;
                  })
                  q.0 m refl (ih q e2)))
            h1)
        h

  parse_loop-Kept :
      (divider : fl.Float) (time : UnixTime) (nonce signer : Bytes) (seen : List ℤ)
      (es : List RawEvent) (p : List SubsetEvent × List Bytes)
      → parse_loop fl exp currency divider time height nonce signer seen es ≡ ok p
      → Kept seen es p.0
  unfolding parse_loop
  parse_loop-Kept divider time nonce signer seen [] p h =
      subst (λ x. Kept seen [] x.0) (ok_inj h)
        (record { indices = []; ids = refl; distinct = tt; new = tt; complete = λ i k. cc })
  parse_loop-Kept divider time nonce signer seen (e ∷ es) p h =
      elim (Bool-cases (member_int e.index seen)) [
        | inl m ↦
            Kept-skipped seen e es p.0 m
              (parse_loop-Kept divider time nonce signer seen es p (ground (arith, m, h)))
        | inr m ↦
            loop_took divider time nonce signer seen e es p m (ground (arith, m, h))
              (parse_loop-Kept divider time nonce signer (e.index ∷ seen) es)
      ]

  -- When the parsing succeeds its subset events have the identifiers of some indices, no two of them
  -- the same identifier, and every index of an event is among these indices.
  pub parse_events_once :
      (divider : fl.Float) (time : UnixTime) (nonce signer : Bytes) (es : List RawEvent)
      (subs : List SubsetEvent) (raw : List Bytes)
      → parse_events fl exp currency divider time height nonce signer es ≡ ok (subs, raw)
      → (indices : List ℤ) × (map subset_id subs ≡ map (event_id height) indices)
        × Distinct (map subset_id subs)
        × ((i : ℤ) → member_int i (map event_index es) ≡ true → member_int i indices ≡ true)
  parse_events_once divider time nonce signer es subs raw h =
      let k = parse_loop-Kept divider time nonce signer [] es (subs, raw) h in
      (
        k.indices,
        k.ids,
        subst Distinct (sym k.ids)
            (Distinct-map (event_id height) k.indices (event_id_inj height) k.distinct),
        (λ i m. elim (k.complete i m) [ inl q ↦ absurd (ground (arith, q)) | inr q ↦ q ]),
      )
