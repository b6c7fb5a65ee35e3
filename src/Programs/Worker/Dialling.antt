-- ===== src/Programs/Worker/Dialling.antt =====
-- The connections to polkadothub-proxy that `main` of `cmd/polkadot-worker/main.go` dials.
use polkadot_worker.Base.{
  ℕ, ◌≡◌, ◌⊎◌, inl, inr, refl, sym, List, [], ◌∷◌, ◌++◌, map, append-nil, append_assoc, map-append,
  Bytes, ok, >>=-eq-ok, ok_inj,
}
use polkadot_worker.Proxy.Conns.{GrpConnections, new_grp_connections, add}
use polkadot_worker.Proxy.Conns.RoundRobin.{Valid, new_grp_connections-Valid, add-Valid}
use polkadot_worker.Programs.Worker.{connected, dial_all}

module _ {E : Type 0} (dial : Bytes → ℕ ⊎ E) where
  -- One connection for each address, in order, and the round robin at its first.
  pub record Dialled (addresses : List Bytes) (c : GrpConnections) : Type 0 where
    pub valid : Valid c
    pub numbers : map dial addresses ≡ map inl c.conn
    pub at_first : c.next ≡ 0

  connected_ok : (r : ℕ ⊎ E) {n : ℕ} → connected r ≡ ok n → r ≡ inl n
  connected_ok (inl m) h = cc
  connected_ok (inr e) h = cc

  Dialled-add :
      (front : List Bytes) (pp : Bytes) (n : ℕ) (c : GrpConnections)
      → Dialled front c
      → dial pp ≡ inl n
      → Dialled (front ++ pp ∷ []) (add n c)
  unfolding add
  Dialled-add front pp n c d e = record {
    valid = add-Valid n c d.valid;
    numbers =
        rw (map-append dial front (pp ∷ []), d.numbers, e) (sym (map-append inl c.conn (n ∷ [])));
    at_first = d.at_first;
  }

  pub dial_all-Dialled :
      (front pps : List Bytes) (c : GrpConnections) {c' : GrpConnections}
      → Dialled front c
      → dial_all dial pps c ≡ ok c'
      → Dialled (front ++ pps) c'
  unfolding dial_all
  dial_all-Dialled front [] c d h = rw (append-nil front, ← ok_inj h) d
  dial_all-Dialled front (pp ∷ pps) c d h =
      let (n, e, h1) = >>=-eq-ok (connected (dial pp)) _ h in
      rw (← append_assoc front (pp ∷ []) pps) (
        dial_all-Dialled (front ++ pp ∷ []) pps (add n c)
          (Dialled-add front pp n c d (connected_ok (dial pp) e)) h1)

  pub new-Dialled : Dialled [] new_grp_connections
  new-Dialled = record { valid = new_grp_connections-Valid; numbers = refl; at_first = refl }
