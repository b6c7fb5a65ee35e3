-- ===== src/Mapper/Event/Attributes.antt =====
-- The attributes that `parseEventDescription` of `mapper/event_mapper.go` records.
use polkadot_worker.Base.{
  ℕ, ◌+◌, ◌≤◌, ◌≡◌, ◌≢◌, refl, ◌∙◌, List, [], ◌∷◌, ◌++◌, append-nil, append_assoc, Bytes, length,
  All, arith, Outcome, ok, err, panic, block, ◌>>=◌, >>=-eq-ok, wrap,
}
use polkadot_worker.Mapper.Amount.{MapperError, parsing_event}
use polkadot_worker.Mapper.Proto.{EventData, RawEvent}
use polkadot_worker.Mapper.Event.{
  Event, Parameter, account, from, to, amount, error, ignored, unknown, get_values, classify,
  parse_named, stringify_value, stringify_event_data, parse_unnamed, parse_rest, parse_values,
  with_attributes, parse_event_description,
}

-- Every datum printed, in order; a panic if one of them has an empty value.
unfoldable pub stringify_all : List EventData → Outcome MapperError (List Bytes)
stringify_all [] = ok []
stringify_all (d ∷ ds) = do a ← stringify_event_data d; rest ← stringify_all ds; ok (a ∷ rest)

-- What a run of the two loops adds to the attributes that it begins with.
abbrev Adds : List EventData → List Bytes → List Bytes → Type 0
Adds ds before after = (new : List Bytes) × (stringify_all ds ≡ ok new) × (after ≡ before ++ new)

Adds-cons :
    (d : EventData) (ds : List EventData) (a : Bytes) (before after : List Bytes)
    → stringify_event_data d ≡ ok a
    → Adds ds (before ++ a ∷ []) after
    → Adds (d ∷ ds) before after
unfolding stringify_all
Adds-cons d ds a before after e (new, f, g) =
    (a ∷ new, rw (e, ◌>>=◌) (rw f refl), g ∙ append_assoc before (a ∷ []) new)

parse_rest-Adds :
    (ds : List EventData) (e e' : Event) (before after : List Bytes)
    → parse_rest ds e before ≡ ok (e', after)
    → Adds ds before after
unfolding parse_rest
parse_rest-Adds [] e e' before after h =
    unfold stringify_all in ([], refl, ground (arith, append-nil before))
parse_rest-Adds (d ∷ ds) e e' before after h =
    let (a, f, g) = >>=-eq-ok (stringify_event_data d) _ h in
    Adds-cons d ds a before after f
      (parse_rest-Adds ds (parse_unnamed d e) e' (before ++ a ∷ []) after g)

parse_values-Adds :
    (ev : RawEvent) (vs : List Bytes) (ds : List EventData) (i : ℕ) (e e' : Event)
    (before after : List Bytes)
    → parse_values ev vs ds i e before ≡ ok (e', after)
    → Adds ds before after × (length vs ≤ length ds)
unfolding parse_values
parse_values-Adds ev [] ds i e e' before after h =
    (parse_rest-Adds ds e e' before after h, omega arith)
parse_values-Adds ev (v ∷ vs) [] i e e' before after h = cc
parse_values-Adds ev (v ∷ vs) (d ∷ ds) i e e' before after h =
    let (e'', _, g) = >>=-eq-ok (wrap (parsing_event i) (parse_named (classify v) ev d e)) _ h in
    let (a, f, k) = >>=-eq-ok (stringify_event_data d) _ g in
    let (adds, le) = parse_values-Adds ev vs ds (i + 1) e'' e' (before ++ a ∷ []) after k in
    (Adds-cons d ds a before after f adds, omega arith)

-- No case of the `switch` touches the event that is built so far.
parse_named-sub :
    (p : Parameter) (ev : RawEvent) (d : EventData) (e e' : Event)
    → parse_named p ev d e ≡ ok e'
    → e'.sub ≡ e.sub
unfolding parse_named
parse_named-sub account ev d e e' h = ground arith
parse_named-sub from ev d e e' h = ground arith
parse_named-sub to ev d e e' h = ground arith
parse_named-sub amount ev d e e' h = ground arith
parse_named-sub error ev d e e' h = ground arith
parse_named-sub ignored ev d e e' h = ground arith
parse_named-sub unknown ev d e e' h = ground arith

parse_unnamed-sub : (d : EventData) (e : Event) → (parse_unnamed d e).sub ≡ e.sub
unfolding parse_unnamed
parse_unnamed-sub d e = ground arith

wrap-eq-ok : {E F A : Type 0} (f : E → F) (m : Outcome E A) {a : A} → wrap f m ≡ ok a → m ≡ ok a
wrap-eq-ok f (ok x) h = ground arith
wrap-eq-ok f (err x) h = cc
wrap-eq-ok f panic h = cc
wrap-eq-ok f block h = cc

parse_rest-sub :
    (ds : List EventData) (e e' : Event) (before after : List Bytes)
    → parse_rest ds e before ≡ ok (e', after)
    → e'.sub ≡ e.sub
unfolding parse_rest
parse_rest-sub [] e e' before after h = ground arith
parse_rest-sub (d ∷ ds) e e' before after h =
    let (a, f, g) = >>=-eq-ok (stringify_event_data d) _ h in
    parse_rest-sub ds (parse_unnamed d e) e' (before ++ a ∷ []) after g ∙ parse_unnamed-sub d e

parse_values-sub :
    (ev : RawEvent) (vs : List Bytes) (ds : List EventData) (i : ℕ) (e e' : Event)
    (before after : List Bytes)
    → parse_values ev vs ds i e before ≡ ok (e', after)
    → e'.sub ≡ e.sub
unfolding parse_values
parse_values-sub ev [] ds i e e' before after h = parse_rest-sub ds e e' before after h
parse_values-sub ev (v ∷ vs) [] i e e' before after h = cc
parse_values-sub ev (v ∷ vs) (d ∷ ds) i e e' before after h =
    let (e'', x, g) = >>=-eq-ok (wrap (parsing_event i) (parse_named (classify v) ev d e)) _ h in
    let (a, f, k) = >>=-eq-ok (stringify_event_data d) _ g in
    parse_values-sub ev vs ds (i + 1) e'' e' (before ++ a ∷ []) after k
    ∙ parse_named-sub (classify v) ev d e e'' (wrap-eq-ok (parsing_event i) _ x)

with_attributes-sub :
    (attrs : List Bytes) (e e' : Event)
    → e'.sub ≡ e.sub
    → (with_attributes attrs e').sub ≡ (with_attributes attrs e).sub
with_attributes-sub [] e e' h = h
with_attributes-sub (a ∷ rest) e e' h = ground arith

value-ne-nil : (n v : Bytes) {a : Bytes} → stringify_value n v ≡ ok a → v ≢ []
unfolding stringify_value
value-ne-nil n [] h = cc
value-ne-nil n (c ∷ s) h = λ e. cc

stringify_all-ok :
    (ds : List EventData) (attrs : List Bytes)
    → stringify_all ds ≡ ok attrs
    → (length attrs ≡ length ds) × All (λ d. d.value ≢ []) ds
unfolding stringify_all
stringify_all-ok [] attrs h = (ground arith, tt)
stringify_all-ok (d ∷ ds) attrs h =
    let (a, f, g) = >>=-eq-ok (stringify_event_data d) _ h in
    let (rest, k, l) = >>=-eq-ok (stringify_all ds) _ g in
    let (len, all) = stringify_all-ok ds rest k in
    (ground (arith, len), (value-ne-nil d.name d.value f, all))

-- A description that is parsed without an error leaves one attribute for each datum, in order, each
-- the datum's print, and changes nothing else of the subset event being built; there are then at
-- least as many data as named parameters, and no datum has an empty value.
pub attributes_complete :
    (ev : RawEvent) (e e' : Event)
    → parse_event_description ev e ≡ ok e'
    → (attrs : List Bytes) × (stringify_all ev.params ≡ ok attrs)
      × (e'.sub ≡ (with_attributes attrs e).sub)
      × (length attrs ≡ length ev.params)
      × (length (get_values ev.description) ≤ length ev.params)
      × All (λ d. d.value ≢ []) ev.params
unfolding parse_event_description
attributes_complete ev e e' h =
    let vs = get_values ev.description in
    let ((e'', after), f, g) = >>=-eq-ok (parse_values ev vs ev.params 0 e []) _ h in
    let (adds, le) = parse_values-Adds ev vs ev.params 0 e e'' [] after f in
    let (new, k, l) = adds in
    let (len, all) = stringify_all-ok ev.params new k in
    let kept =
      with_attributes-sub new e e'' (parse_values-sub ev vs ev.params 0 e e'' [] after f) in
    (new, k, ground (arith, kept, l), len, le, all)
