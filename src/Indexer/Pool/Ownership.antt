-- ===== src/Indexer/Pool/Ownership.antt =====
-- Who holds which channel of a pool of `indexer/pool.go`: users that call `Get` and `Put` in any
-- order, and use what they hold in between.
use mathlib.Core.Logic.Or
use mathlib.Core.List.{
  Mem, Nodup, Nodup-cons, mem-cons, mem-append_right, perm_middle, mem-cons_self, mem-cons_of_mem,
  Perm,
}
use mathlib.Core.List.Perm
use native.Mathlib.Decide.{ℕ_discrete}
use polkadot_worker.Base.{
  ℕ, ◌≤◌, ◌<◌, ◌≡◌, ◌≢◌, ◌⊎◌, inl, inr, refl, sym, ap, subst, Bool, true, false, not, List, [], ◌∷◌,
  ◌++◌, append_assoc, append-nil, Option, none, some, length, get_elem?, set, length-append,
  get_elem?-set_self, get_elem?-set_ne, get_elem?-append, get_elem?_last, get_elem?_lt, Bool-cases,
  ltb, ltb→lt, arith, ok, ◌>>=◌, or_panic, >>=-eq-ok,
}
use polkadot_worker.Channel.{Chan, make, drain_open}
use polkadot_worker.Indexer.Pool.{Kind, Pool, get_from, get, close, put}

module _ {A : Type 0} where
  abbrev pub opened : Option (Chan A) → Bool
  opened none = false
  opened (some c) = not c.closed

  abbrev pub is_open : List (Chan A) → ℕ → Bool
  is_open heap i = opened (get_elem? heap i)

  pub opened-some :
      (o : Option (Chan A)) → opened o ≡ true → (c : Chan A) × (o ≡ some c) × (c.closed ≡ false)
  opened-some o h = ground arith

  pub is_open_lt : (heap : List (Chan A)) (i : ℕ) → is_open heap i ≡ true → i < length heap
  is_open_lt heap i h = get_elem?_lt heap i (opened-some (get_elem? heap i) h).1

  -- Writing an open channel anywhere leaves every open channel open.
  pub is_open-set :
      (heap : List (Chan A)) (i j : ℕ) (d : Chan A)
      → d.closed ≡ false
      → is_open heap j ≡ true
      → is_open (set heap i d) j ≡ true
  is_open-set heap i j d o h = elim (ℕ_discrete i j) [
    | yes e ↦ rw (← e, get_elem?-set_self heap i d (rw e (is_open_lt heap j h))) (ground arith)
    | no n ↦ rw (get_elem?-set_ne heap i j d n) h
  ]

  pub is_open-set_ne :
      (heap : List (Chan A)) (i j : ℕ) (d : Chan A)
      → i ≢ j
      → is_open heap j ≡ true
      → is_open (set heap i d) j ≡ true
  is_open-set_ne heap i j d n h = rw (get_elem?-set_ne heap i j d n) h

  pub is_open-append :
      (heap : List (Chan A)) (d : Chan A) (j : ℕ)
      → is_open heap j ≡ true
      → is_open (heap ++ d ∷ []) j ≡ true
  is_open-append heap d j h = rw (get_elem?-append heap (d ∷ []) j (is_open_lt heap j h)) h

-- The channels among what a pool stores.
abbrev pub ids : List (Option ℕ) → List ℕ
ids [] = []
ids (none ∷ l) = ids l
ids (some i ∷ l) = i ∷ ids l

ids-append : (l : List (Option ℕ)) (i : ℕ) → ids (l ++ some i ∷ []) ≡ ids l ++ i ∷ []
ids-append [] i = refl
ids-append (none ∷ l) i = ids-append l i
ids-append (some j ∷ l) i = ap (◌∷◌ j) (ids-append l i)

-- A pool and the channels that its users hold.
pub record World (A : Type 0) : Type 0 where
  pub pool : Pool A
  pub held : List ℕ

abbrev pub owned : {A : Type 0} → World A → List ℕ
owned w = w.held ++ ids w.pool.stor

-- Every channel has one owner, a user or the pool, and is open; the pool keeps to its capacity.
pub record Inv {A : Type 0} (w : World A) : Type 0 where
  pub one_owner : Nodup (owned w)
  pub all_open : (i : ℕ) → Mem i (owned w) → is_open w.pool.heap i ≡ true
  pub bounded : length w.pool.stor ≤ w.pool.cap

-- `users` is a send or a receive on a channel that its user holds.
pub data Step {A : Type 0} (k : Kind) (w : World A) : World A → Type 0 where
  gets :
      (i : ℕ) {q : Pool A}
      → get k w.pool ≡ ok (some i, q)
      → Step k w (record { pool = q; held = i ∷ w.held })
  puts :
      (front : List ℕ) (i : ℕ) (back : List ℕ) {q : Pool A}
      → w.held ≡ front ++ i ∷ back
      → put (some i) w.pool ≡ ok q
      → Step k w (record { pool = q; held = front ++ back })
  users :
      (i : ℕ) (c : Chan A)
      → Mem i w.held
      → c.closed ≡ false
      → Step k w (record w { pool = record w.pool { heap = set w.pool.heap i c } })

-- What the owners of a channel are, and what the heap holds, are all that an invariant needs.
rebuild :
    {A : Type 0} {w v : World A}
    → Inv w
    → Perm (owned w) (owned v)
    → ((i : ℕ) → Mem i (owned w) → is_open v.pool.heap i ≡ true)
    → length v.pool.stor ≤ v.pool.cap
    → Inv v
rebuild h p o b = record {
  one_owner = Perm.nodup p h.one_owner;
  all_open = λ i m. o i ((Perm.mem_iff p).1 m);
  bounded = b;
}

module _ {A : Type 0} where
  -- `Get` with an idle channel at the front.
  pub get_reuses :
      (k : Kind) (p : Pool A) (i : ℕ) (rest : List (Option ℕ)) (c : Chan A)
      → p.stor ≡ some i ∷ rest
      → get_elem? p.heap i ≡ some c
      → c.closed ≡ false
      → get k p
        ≡ ok (some i, record p { stor = rest; heap = set p.heap i (record c { buffer = [] }) })
  unfolding get
  get_reuses k p i rest c s e o = rw (s, get_from) (rw (e, ◌>>=◌) (rw (drain_open c o) refl))

  -- What `Get` does to a pool whose channels are open, when it returns a channel.
  data Got (k : Kind) (p : Pool A) (i : ℕ) (q : Pool A) : Type 0 where
    reused :
        (rest : List (Option ℕ)) (c : Chan A)
        → p.stor ≡ some i ∷ rest
        → c.closed ≡ false
        → q ≡ record p { stor = rest; heap = set p.heap i (record c { buffer = [] }) }
        → Got k p i q
    made :
        (rest : List (Option ℕ))
        → ids p.stor ≡ ids rest
        → length rest ≤ length p.stor
        → i ≡ length p.heap
        → q ≡ record p { stor = rest; heap = p.heap ++ make k.buffer ∷ [] }
        → Got k p i q

  get-Got_nil :
      (k : Kind) (p : Pool A) (rest : List (Option ℕ)) (i : ℕ) (q : Pool A) (b : Bool)
      → p.stor ≡ none ∷ rest
      → k.replaces_nil ≡ b
      → get k p ≡ ok (some i, q)
      → Got k p i q
  unfolding get
  get-Got_nil k p rest i q true s b h =
      made rest (rw s refl) (rw s (omega arith)) (ground (arith, s)) (ground (arith, s))
  get-Got_nil k p rest i q false s b h = ground (arith, s)

  get-Got :
      (k : Kind) (p : Pool A) (l : List (Option ℕ)) (i : ℕ) (q : Pool A)
      → p.stor ≡ l
      → ((j : ℕ) → Mem j (ids l) → is_open p.heap j ≡ true)
      → get k p ≡ ok (some i, q)
      → Got k p i q
  unfolding get
  get-Got k p [] i q s o h =
      made [] (rw s refl) (omega arith) (ground (arith, s)) (ground (arith, s))
  get-Got k p (none ∷ rest) i q s o h = get-Got_nil k p rest i q k.replaces_nil s refl h
  get-Got k p (some j ∷ rest) i q s o h =
      let (c, e, n) = opened-some (get_elem? p.heap j) (o j mem-cons_self) in
      let g = get_reuses k p j rest c s e n in reused rest c (cc g) n (cc g)

  -- A user that asks for a channel becomes its only owner.
  get-Inv :
      (k : Kind) (w : World A) (i : ℕ) (q : Pool A)
      → Inv w
      → Got k w.pool i q
      → Inv (record { pool = q; held = i ∷ w.held })
  get-Inv k w i q h (reused rest c s n e) =
      rebuild h (rw (s, e) (perm_middle w.held (ids rest)))
        (λ j m. rw e (is_open-set w.pool.heap i j (record c { buffer = [] }) n (h.all_open j m)))
        (rw e (omega (arith, h.bounded, ap length s)))
  get-Inv k w i q h (made rest s l x e) = record {
    one_owner =
        rw (e, ← s)
          (Nodup-cons.1 (
            (λ m. absurd (omega (arith, x, is_open_lt w.pool.heap i (h.all_open i m)))),
            h.one_owner,
          ));
    all_open = λ j m. rw e (
        Or.elim (hlevel) (mem-cons.0 m) (λ f. rw (f, x, get_elem?_last w.pool.heap (make k.buffer)))
          (λ f.
            is_open-append w.pool.heap _ j
              (h.all_open j (subst (λ l. Mem j (w.held ++ l)) (rw e (sym s)) f))));
    bounded = rw e (omega (arith, h.bounded));
  }

  held-perm :
      (w : World A) (front : List ℕ) (i : ℕ) (back : List ℕ)
      → w.held ≡ front ++ i ∷ back
      → Perm (owned w) (i ∷ ((front ++ back) ++ ids w.pool.stor))
  held-perm w front i back e =
      subst (λ l. Perm (l ++ ids w.pool.stor) (i ∷ ((front ++ back) ++ ids w.pool.stor))) (sym e)
        (Perm.append_right (ids w.pool.stor) (perm_middle front back))

  close-cases :
      (p : Pool A) (i : ℕ) (q : Pool A)
      → close (some i) p ≡ ok q
      → (c : Chan A) × (q ≡ record p { heap = set p.heap i (record c { closed = true }) })
  unfolding close
  close-cases p i q h =
      let (c, _, e) = >>=-eq-ok (or_panic (get_elem? p.heap i)) _ h in (c, ground arith)

  -- What `Put` does with a channel that it is handed open.
  put-cases :
      (p : Pool A) (i : ℕ) (q : Pool A)
      → put (some i) p ≡ ok q
      → ((length p.stor < p.cap) × (q ≡ record p { stor = p.stor ++ some i ∷ [] }))
        ⊎ ((c : Chan A) × (q ≡ record p { heap = set p.heap i (record c { closed = true }) }))
  unfolding put
  put-cases p i q h = elim (Bool-cases (ltb (length p.stor) p.cap)) [
    | inl room ↦ inl (ltb→lt _ _ room, ground (arith, room))
    | inr full ↦ inr (close-cases p i q (rw full at h))
  ]

  -- A full pool closes the channel, which then has no owner left.
  put-Inv_full :
      (w : World A) (front : List ℕ) (i : ℕ) (back : List ℕ) (q : Pool A) (c : Chan A)
      → Inv w
      → Perm (owned w) (i ∷ ((front ++ back) ++ ids w.pool.stor))
      → q ≡ record w.pool { heap = set w.pool.heap i (record c { closed = true }) }
      → Inv (record { pool = q; held = front ++ back })
  put-Inv_full w front i back q c h p f =
      let (away, rest) = Nodup-cons.0 (Perm.nodup p h.one_owner) in
      rw f (record {
        one_owner = rest;
        all_open = λ j m.
            is_open-set_ne w.pool.heap i j (record c { closed = true }) (λ e. away (rw e m))
              (h.all_open j ((Perm.mem_iff p).1 (mem-cons_of_mem i m)));
        bounded = h.bounded;
      })

  put-Inv :
      (w : World A) (front : List ℕ) (i : ℕ) (back : List ℕ) (q : Pool A)
      → Inv w
      → w.held ≡ front ++ i ∷ back
      → put (some i) w.pool ≡ ok q
      → Inv (record { pool = q; held = front ++ back })
  put-Inv w front i back q h e g =
      let p = held-perm w front i back e in
      elim (put-cases w.pool i q g) [
        | inl (room, f) ↦
            rebuild h
              (Perm.trans p (
                rw (f, ids-append w.pool.stor i, ← append_assoc)
                  (Perm.symm (
                    subst (λ l. Perm (((front ++ back) ++ ids w.pool.stor) ++ i ∷ []) (i ∷ l))
                      (append-nil _) (perm_middle ((front ++ back) ++ ids w.pool.stor) [])))))
              (λ j m. rw f (h.all_open j m))
              (rw f (omega (arith, length-append w.pool.stor (some i ∷ []))))
        | inr (c, f) ↦ put-Inv_full w front i back q c h p f
      ]

  step-Inv_users :
      (w : World A) (i : ℕ) (c : Chan A)
      → Inv w
      → c.closed ≡ false
      → Inv (record w { pool = record w.pool { heap = set w.pool.heap i c } })
  step-Inv_users w i c h o =
      rebuild h Perm.rfl (λ j m. is_open-set w.pool.heap i j c o (h.all_open j m)) h.bounded

  -- Whatever the users of a pool do, no two of them hold the same channel, no channel is both held
  -- and idle, none of these is closed, and the pool stays within its capacity.
  pub Step-Inv : (k : Kind) {w v : World A} → Step k w v → Inv w → Inv v
  Step-Inv k {w} (gets i {q} e) h =
      get-Inv k w i q h
        (get-Got k w.pool w.pool.stor i q refl (λ j m. h.all_open j (mem-append_right w.held m)) e)
  Step-Inv k {w} (puts front i back {q} e g) h = put-Inv w front i back q h e g
  Step-Inv k {w} (users i c m o) h = step-Inv_users w i c h o
