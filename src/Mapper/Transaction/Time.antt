-- ===== src/Mapper/Transaction/Time.antt =====
-- The times that `parseTime` of `mapper/transaction_mapper.go` reads.
use polkadot_worker.Base.{
  ℕ, zero, suc, ◌/◌, ◌^◌, ◌<◌, ◌≡◌, ◌≢◌, refl, ◌∷◌, ◌++◌, All-append, ltb, digits, format_uint, ok,
  arith, ◌>>=◌, Bool-cases, inl, inr,
}
use polkadot_worker.Base.Int.{pos}
use polkadot_worker.Stdlib.Numbers.RoundTrip.{atoi-format_uint}
use polkadot_worker.Stdlib.Strings.Cutting.{Lacks, split_one, split_first}
use polkadot_worker.Mapper.Transaction.{parse_int, parse_parts, parse_time}

digits-Lacks : (f n : ℕ) → Lacks b'.' (digits f n)
unfolding digits
digits-Lacks zero n = tt
digits-Lacks (suc f) n = elim (Bool-cases (ltb n 10)) [
  | inl h ↦ rw h ((omega arith), tt)
  | inr h ↦ rw h (
      All-append (λ c. c ≢ b'.') (digits f (n / 10)) _ (digits-Lacks f (n / 10))
        ((omega arith), tt))
]

format_uint-Lacks : (n : ℕ) → Lacks b'.' (format_uint n)
unfolding format_uint
format_uint-Lacks n = digits-Lacks (suc n) n

parse_int-format_uint : (n : ℕ) → n < 2 ^ 63 → parse_int (format_uint n) ≡ ok (pos n)
unfolding parse_int
parse_int-format_uint n h = rw (atoi-format_uint n h)

-- Seconds and nanoseconds printed with a point between them are read back, and so are seconds
-- alone, for both below 2^63.
pub parse_time_printed :
    (sec nsec : ℕ)
    → sec < 2 ^ 63
    → nsec < 2 ^ 63
    → (parse_time (format_uint sec ++ b'.' ∷ format_uint nsec)
        ≡ ok (record { sec = pos sec; nsec = pos nsec }))
      × (parse_time (format_uint sec) ≡ ok (record { sec = pos sec; nsec = pos 0 }))
unfolding parse_time parse_parts
parse_time_printed sec nsec h k =
    let l = format_uint-Lacks sec in
    (
      rw
          (
            split_first b'.' (format_uint sec) (format_uint nsec) l,
            split_one b'.' (format_uint nsec) (format_uint-Lacks nsec),
          )
          (rw (parse_int-format_uint nsec k, ◌>>=◌) (rw (parse_int-format_uint sec h) refl)),
      (rw (split_one b'.' (format_uint sec) l) (rw (parse_int-format_uint sec h) refl)),
    )
