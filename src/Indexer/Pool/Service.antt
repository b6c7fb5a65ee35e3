-- ===== src/Indexer/Pool/Service.antt =====
-- What the users of a pool of `indexer/pool.go` get: `Get` and `Put` return, and any history of
-- calls starts from an empty pool.
use mathlib.Core.List.{
  Mem, Nodup-nil, Nodup-cons, not-mem-nil, mem-cons_self, mem-append_right, mem-append_left,
}
use mathlib.Core.List.Perm
use polkadot_worker.Base.{
  ℕ, ◌≡◌, ◌≢◌, inl, inr, refl, Bool, true, false, List, [], ◌∷◌, ◌++◌, Option, none, some, length,
  get_elem?, set, get_elem?-set_self, get_elem?_last, Bool-cases, ltb, arith, ok, block, ◌>>=◌,
}
use polkadot_worker.Channel.{Chan, make, drain_loop_closed}
use polkadot_worker.Indexer.Pool.{Kind, Pool, new, fresh, get_from, get, put}
use polkadot_worker.Indexer.Pool.Ownership.{
  World, ids, Inv, Step, gets, Step-Inv, opened-some, is_open, is_open_lt, get_reuses,
}

module _ {A : Type 0} where
  -- What a caller of `Get` is handed: a channel that is open and empty, or the nil channel that a
  -- caller put in.
  abbrev pub IsReady : Option ℕ → Pool A → Type 0
  IsReady none q = Unit {0}
  IsReady (some i) q =
      (c : Chan A) × (get_elem? q.heap i ≡ some c) × (c.buffer ≡ []) × (c.closed ≡ false)

  abbrev pub Hands : Kind → Pool A → Type 0
  Hands k p = (r : Option ℕ) × (q : Pool A) × (get k p ≡ ok (r, q)) × IsReady r q

  fresh-Hands : (k : Kind) (p : Pool A) → get k p ≡ ok (fresh k p) → Hands k p
  unfolding fresh
  fresh-Hands k p e = (
    some (length p.heap),
    (fresh k p).1,
    e,
    (make k.buffer, get_elem?_last p.heap (make k.buffer), refl, refl),
  )

  nil-Hands :
      (k : Kind) (p : Pool A) (rest : List (Option ℕ)) (b : Bool)
      → p.stor ≡ none ∷ rest
      → k.replaces_nil ≡ b
      → Hands k p
  unfolding get fresh
  nil-Hands k p rest true s b = (
    some (length p.heap),
    (fresh k (record p { stor = rest })).1,
    ground (arith, s),
    (make k.buffer, get_elem?_last p.heap (make k.buffer), refl, refl),
  )
  nil-Hands k p rest false s b = (none, record p { stor = rest }, ground (arith, s), tt)

  stor-Hands :
      (k : Kind) (p : Pool A) (l : List (Option ℕ))
      → p.stor ≡ l
      → ((j : ℕ) → Mem j (ids l) → is_open p.heap j ≡ true)
      → Hands k p
  unfolding get
  stor-Hands k p [] s o = fresh-Hands k p (ground (arith, s))
  stor-Hands k p (none ∷ rest) s o = nil-Hands k p rest k.replaces_nil s refl
  stor-Hands k p (some i ∷ rest) s o =
      let (c, e, n) = opened-some (get_elem? p.heap i) (o i mem-cons_self) in
      (
        some i,
        record p { stor = rest; heap = set p.heap i (record c { buffer = [] }) },
        get_reuses k p i rest c s e n,
        (
          record c { buffer = [] },
          get_elem?-set_self p.heap i _ (is_open_lt p.heap i (o i mem-cons_self)),
          refl,
          n,
        ),
      )

  -- In a pool that keeps to the ownership invariant `Get` returns, and a channel that it hands out
  -- is open and holds nothing of its last user.
  pub get_ready : (k : Kind) (w : World A) → Inv w → Hands k w.pool
  get_ready k w h =
      stor-Hands k w.pool w.pool.stor refl (λ j m. h.all_open j (mem-append_right w.held m))

  -- The rule that the invariant stands for: with a closed channel in front, `Get` never returns,
  -- and holds the pool's lock.
  pub get_closed :
      (k : Kind) (p : Pool A) (i : ℕ) (rest : List (Option ℕ)) (c : Chan A)
      → p.stor ≡ some i ∷ rest
      → get_elem? p.heap i ≡ some c
      → c.closed ≡ true
      → get k p ≡ block
  unfolding get
  get_closed k p i rest c s e n =
      rw (s, get_from) (rw (e, ◌>>=◌) (rw (drain_loop_closed _ c.buffer c n) refl))

  put-Held : (p : Pool A) (i : ℕ) → is_open p.heap i ≡ true → (q : Pool A) × (put (some i) p ≡ ok q)
  unfolding put
  put-Held p i h =
      let (c, e, n) = opened-some (get_elem? p.heap i) h in
      elim (Bool-cases (ltb (length p.stor) p.cap)) [
        | inl room ↦ (record p { stor = p.stor ++ some i ∷ [] }, ground (arith, room))
        | inr full ↦ (
          record p { heap = set p.heap i (record c { closed = true }) },
          ground (arith, full, e, n),
        )
      ]

  -- A user that puts back a channel that it holds does not panic, whether the pool has room or not.
  pub put_returns :
      (w : World A) (i : ℕ) → Inv w → Mem i w.held → (q : Pool A) × (put (some i) w.pool ≡ ok q)
  put_returns w i h m = put-Held w.pool i (h.all_open i (mem-append_left _ m))

  -- The worlds that a new pool comes to.
  pub data Reach (k : Kind) (heap : List (Chan A)) (cap : ℕ) : World A → Type 0 where
    start : Reach k heap cap (record { pool = new heap cap; held = [] })
    later : {w v : World A} → Reach k heap cap w → Step k w v → Reach k heap cap v

  pub Reach-Inv :
      {k : Kind} {heap : List (Chan A)} {cap : ℕ} {w : World A} → Reach k heap cap w → Inv w
  Reach-Inv start = record {
    one_owner = Nodup-nil;
    all_open = λ i m. absurd (not-mem-nil m);
    bounded = omega arith;
  }
  Reach-Inv {k} (later r s) = Step-Inv k s (Reach-Inv r)

  -- After any history of calls a second `Get` hands out another channel than the first.
  pub get_twice :
      {k : Kind} {heap : List (Chan A)} {cap : ℕ} {w : World A} (i j : ℕ) (q r : Pool A)
      → Reach k heap cap w
      → get k w.pool ≡ ok (some i, q)
      → get k q ≡ ok (some j, r)
      → (i ≢ j) × ¬ Mem j w.held
  get_twice {k} {w} i j q r reach a b =
      let both = (Step-Inv k (gets j b) (Step-Inv k (gets i a) (Reach-Inv reach))).one_owner in
      let away = (Nodup-cons.0 both).0 in
      (
        (λ e. away (rw e mem-cons_self)),
        (λ m. away (mem-append_left (ids r.stor) (mathlib.Core.List.mem-cons_of_mem i m))),
      )
