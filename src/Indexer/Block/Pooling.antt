-- ===== src/Indexer/Block/Pooling.antt =====
-- What `blockAndTx` of `indexer/getBlock.go` does to the pool of channels of `indexer/pool.go`: its
-- `gbPool.Get` and the deferred `gbPool.Put`.
use mathlib.Core.List.{Mem, mem-cons_self}
use polkadot_worker.Base.{
  ◌<◌, ok_inj, set, ℕ, suc, ◌≤◌, ◌≡◌, ◌≢◌, refl, sym, ◌∙◌, ap, subst, true, List, [], ◌∷◌, ◌++◌,
  Option, none, some, length, get_elem?, length-append, ltb, arith, Outcome, ok, err, panic, block,
  ◌>>=◌, or_panic, >>=-eq-ok,
}
use polkadot_worker.Channel.{Chan, drain}
use polkadot_worker.Api.Session.{Response}
use polkadot_worker.Indexer.Pool.{
  Pool, get_block_kind, get, get_from, take_out, drained, fresh, put,
}
use polkadot_worker.Indexer.Pool.Ownership.{World, Inv, gets, puts, Step-Inv, ids, owned}
use polkadot_worker.Indexer.Pool.Service.{get_ready, put_returns}
use polkadot_worker.Indexer.Block.{
  Libraries, Settings, Node, Shared, block_and_tx, with_channel, pooled_block_and_tx,
}
use polkadot_worker.Indexer.Hashes.{Lru}
use polkadot_worker.Mapper.Amount.{Floats}

ids-nil : (l : List (Option ℕ)) → ids (l ++ none ∷ []) ≡ ids l
ids-nil [] = refl
ids-nil (none ∷ l) = ids-nil l
ids-nil (some i ∷ l) = ap (◌∷◌ i) (ids-nil l)

module _ {A : Type 0} where
  drained_kept :
      (o : Option (Chan A)) (i : ℕ) (p : Pool A) {q : Pool A}
      → ◌≡◌ {A = Outcome (Unit {0}) (Option ℕ × Pool A)}
          (elim o [ none ↦ block | some d ↦ ok (some i, record p { heap = set p.heap i d }) ])
          (ok (none, q))
      → ⊥
  drained_kept none i p h = cc
  drained_kept (some d) i p h = cc

  drained-nil : (i : ℕ) (p : Pool A) {q : Pool A} → drained (some i) p ≡ ok (none, q) → ⊥
  unfolding drained
  drained-nil i p h =
      let (c, e, k) = >>=-eq-ok (or_panic (get_elem? p.heap i)) _ h in drained_kept (drain c) i p k

  -- A nil channel that is handed out was in front.
  get_from-nil :
      (p : Pool A) (l : List (Option ℕ)) {q : Pool A}
      → get_from get_block_kind l p ≡ ok (none, q)
      → (rest : List (Option ℕ)) × (l ≡ none ∷ rest) × (q ≡ record p { stor = rest })
  unfolding get_from take_out drained fresh
  get_from-nil p [] h = cc
  get_from-nil p (none ∷ rest) h = (rest, refl, cc)
  get_from-nil p (some i ∷ rest) h = absurd (drained-nil i (record p { stor = rest }) h)

  -- The pool takes back a nil channel that was in front.
  nil_back :
      (w : World A) (rest : List (Option ℕ))
      → Inv w
      → w.pool.stor ≡ none ∷ rest
      → (q : Pool A) × (put none (record w.pool { stor = rest }) ≡ ok q)
        × Inv (record w { pool = q })
  unfolding put
  nil_back w rest h s =
      let fits : suc (length rest) ≤ w.pool.cap = subst (λ l. length l ≤ w.pool.cap) s h.bounded in
      let room : ltb (length rest) w.pool.cap ≡ true = ground (arith, fits) in
      let kept : w.held ++ ids (rest ++ none ∷ []) ≡ owned w =
        ap (λ l. w.held ++ l) (ids-nil rest ∙ sym (ap ids s)) in
      (
        record w.pool { stor = rest ++ none ∷ [] },
        rw room refl,
        record {
          one_owner = rw kept h.one_owner;
          all_open = λ i m. h.all_open i (subst (Mem i) kept m);
          bounded = omega (arith, length-append rest (none ∷ []));
        },
      )

  -- Whatever channel `Get` hands out, the pool takes it back.
  get-put :
      (w : World A) (ch : Option ℕ) (p1 : Pool A)
      → Inv w
      → get get_block_kind w.pool ≡ ok (ch, p1)
      → (q : Pool A) × (put ch p1 ≡ ok q) × Inv (record w { pool = q })
  unfolding get
  get-put w none p1 h e =
      let (rest, s, f) = get_from-nil w.pool w.pool.stor e in
      let (q, g, v) = nil_back w rest h s in (q, subst (λ p. put none p ≡ ok q) (sym f) g, v)
  get-put w (some i) p1 h e =
      let v : World A = record { pool = p1; held = i ∷ w.held } in
      let got = Step-Inv get_block_kind (gets i e) h in
      let (q, g) = put_returns v i got mem-cons_self in
      (q, g, Step-Inv get_block_kind {w = v} (puts [] i w.held refl g) got)

module _ {A : Type 0} where
  drained_same :
      (o : Option (Chan A)) (i : ℕ) (p : Pool A) {ch : Option ℕ} {q : Pool A}
      → ◌≡◌ {A = Outcome (Unit {0}) (Option ℕ × Pool A)}
          (elim o [ none ↦ block | some d ↦ ok (some i, record p { heap = set p.heap i d }) ])
          (ok (ch, q))
      → (q.stor ≡ p.stor) × (q.cap ≡ p.cap)
  drained_same none i p h = cc
  drained_same (some d) i p h =
      let e = ap (λ x. x.1) (ok_inj h) in (sym (ap (λ x. x.stor) e), sym (ap (λ x. x.cap) e))

  -- `Get` leaves room for one channel more.
  get_from-room :
      (p : Pool A) (l : List (Option ℕ)) {ch : Option ℕ} {q : Pool A}
      → p.stor ≡ l
      → length l ≤ p.cap
      → 0 < p.cap
      → get_from get_block_kind l p ≡ ok (ch, q)
      → (length q.stor < q.cap) × (q.cap ≡ p.cap)
  unfolding get_from take_out drained fresh
  get_from-room p [] s b z h =
      let e = ap (λ x. x.1) (ok_inj h) in
      subst (λ x. (length x.stor < x.cap) × (x.cap ≡ p.cap)) e (rw s z, refl)
  get_from-room p (none ∷ rest) s b z h =
      let e = ap (λ x. x.1) (ok_inj h) in
      subst (λ x. (length x.stor < x.cap) × (x.cap ≡ p.cap)) e (b, refl)
  get_from-room p (some i ∷ rest) s b z h =
      let (c, e, k) = >>=-eq-ok (or_panic (get_elem? p.heap i)) _ h in
      let (st, cp) = drained_same (drain c) i (record p { stor = rest }) k in (rw (st, cp) b, cp)

  put_fits :
      (ch : Option ℕ) (p : Pool A)
      → length p.stor < p.cap
      → put ch p ≡ ok (record p { stor = p.stor ++ ch ∷ [] })
  unfolding put
  put_fits ch p h = let fits : ltb (length p.stor) p.cap ≡ true = ground (arith, h) in rw fits refl

with_channel_ended :
    {E A : Type 0} (p : Pool Response) (r : Outcome E A) (ch : Option ℕ) (p1 q : Pool Response)
    → r ≢ block
    → get get_block_kind p ≡ ok (ch, p1)
    → put ch p1 ≡ ok q
    → with_channel p r ≡ ok (r, q)
unfolding with_channel
with_channel_ended p (ok a) ch p1 q n e f = rw (e, ◌>>=◌) (rw f refl)
with_channel_ended p (err a) ch p1 q n e f = rw (e, ◌>>=◌) (rw f refl)
with_channel_ended p panic ch p1 q n e f = rw (e, ◌>>=◌) (rw f refl)
with_channel_ended p block ch p1 q n e f = absurd (n refl)

-- The channel that `Get` handed out is behind the others in the pool, which is otherwise as `Get` left
-- it; the users of the pool hold what they held, and the pool keeps to the ownership invariant.
abbrev pub Returned : World Response → Pool Response → Type 0
Returned w q =
    (ch : Option ℕ) × (p : Pool Response) × (get get_block_kind w.pool ≡ ok (ch, p))
    × (q ≡ record p { stor = p.stor ++ ch ∷ [] })
    × Inv (record w { pool = q })

with_channel-Returned :
    {E A : Type 0} (w : World Response) (r : Outcome E A)
    → Inv w
    → 0 < w.pool.cap
    → r ≢ block
    → (q : Pool Response) × (with_channel w.pool r ≡ ok (r, q)) × Returned w q
unfolding get
with_channel-Returned w r h z n =
    let (ch, p, e, _) = get_ready get_block_kind w h in
    let (q, f, v) = get-put w ch p h e in
    let (room, _) = get_from-room w.pool w.pool.stor refl h.bounded z e in
    let same_pool : q ≡ record p { stor = p.stor ++ ch ∷ [] } =
      ok_inj (sym f ∙ put_fits ch p room) in
    (q, with_channel_ended w.pool r ch p q n e f, (ch, p, e, same_pool, v))

module _ {B D E F : Type 0} (lru : Lru) (fl : Floats) (lib : Libraries B D E F)
    (set : Settings) where
  -- In a pool with room for one channel at least, which keeps to the ownership invariant: a call of
  -- `blockAndTx` that ends, with a result, an error or a panic, has put the channel that it got
  -- back into the pool, once, with the pool otherwise as `Get` left it. The channels that the users
  -- of the pool hold are as they were, and the invariant still holds.
  pub pooled_block_and_tx-Returned :
      (w : World Response) (node : Node) (s : Shared lru D) (height : ℕ)
      → Inv w
      → 0 < w.pool.cap
      → block_and_tx lru fl lib set node s height ≢ block
      → (q : Pool Response) × (pooled_block_and_tx lru fl lib set w.pool node s height
          ≡ ok (block_and_tx lru fl lib set node s height, q))
        × Returned w q
  pooled_block_and_tx-Returned w node s height h z n =
      with_channel-Returned w (block_and_tx lru fl lib set node s height) h z n
