-- ===== src/Data/LiveFeed/Tape/Grouping.antt =====
-- The tapes are the runs of what was observed.
use trader_ai.Prelude.{
  ℕ, ◌≡◌, refl, sym, ◌∙◌, ap, subst, false, Option, none, some, List, [], ◌∷◌, ◌++◌, if◌then◌else◌,
  ◌==◌, String, str_eq, str_eq_iff, arith, append-nil, append_assoc, Bool-cases, inl, inr,
}
use trader_ai.Prelude.Dict.{Dict, lookup, lookup-insert}
use trader_ai.Float.{Float}
use trader_ai.Clock.{Datetime}
use trader_ai.Execution.Exceptions.{Outcome}
use trader_ai.Data.LiveFeed.{Tick, symbol_of}
use trader_ai.Data.LiveFeed.Tape.{
  Tape, begin, extend, tape_step, accepted, name_closed, record_tick, add_closed, record_ticks,
}
use trader_ai.Data.LiveFeed.Tape.Observed.{
  observed, observations, stamped, held, Alternates, of_open, of_closed, tapes_of, Groups,
}

module _ {F : Type 0} ⦃fl : Float F⦄ where
  stamped-snoc :
      (bucket : Datetime) (xs : List F) (x : F)
      → stamped bucket (xs ++ x ∷ []) ≡ stamped bucket xs ++ (bucket, x) ∷ []
  stamped-snoc bucket [] x = refl
  stamped-snoc bucket (y ∷ xs) x = ap (λ l. (bucket, y) ∷ l) (stamped-snoc bucket xs x)

  held-append : (ts us : List (Tape F)) → held (ts ++ us) ≡ held ts ++ held us
  held-append [] us = refl
  held-append (t ∷ ts) us =
      ap (λ l. ((t.bucket, t.first) ∷ stamped t.bucket t.later) ++ l) (held-append ts us)
      ∙ sym (append_assoc ((t.bucket, t.first) ∷ stamped t.bucket t.later) (held ts) (held us))

  Alternates-extend :
      (ts : List (Tape F)) (u : Tape F) (x : F)
      → Alternates (ts ++ u ∷ [])
      → Alternates (ts ++ extend x u ∷ [])
  Alternates-extend [] u x h = h
  Alternates-extend (t ∷ []) u x h = h
  Alternates-extend (t ∷ s ∷ ts) u x h = (h.0, Alternates-extend (s ∷ ts) u x h.1)

  Alternates-snoc :
      (ts : List (Tape F)) (u v : Tape F)
      → (v.bucket == u.bucket) ≡ false
      → Alternates (ts ++ u ∷ [])
      → Alternates ((ts ++ u ∷ []) ++ v ∷ [])
  Alternates-snoc [] u v e h = (e, (tt, tt))
  Alternates-snoc (t ∷ []) u v e h = (h.0, (e, (tt, tt)))
  Alternates-snoc (t ∷ s ∷ ts) u v e h = (h.0, Alternates-snoc (s ∷ ts) u v e h.1)

  -- What a tick of the symbol makes of its tapes.
  tape_step-held :
      (ts : List (Tape F)) (bucket : Datetime) (x : F) (o : Option (Tape F))
      → held ((ts ++ of_open (tape_step bucket x o).0) ++ (tape_step bucket x o).1 ∷ [])
        ≡ held (ts ++ of_open o) ++ (bucket, x) ∷ []
  tape_step-held ts bucket x none = held-append (ts ++ []) (begin bucket x ∷ [])
  tape_step-held ts bucket x (some u) = elim (Bool-cases (bucket == u.bucket)) [
    | inl same ↦ rw same (extended (ground (arith, same)))
    | inr other ↦ rw other (held-append (ts ++ u ∷ []) (begin bucket x ∷ []))
  ]
    where
      grown : held (extend x u ∷ []) ≡ held (u ∷ []) ++ (u.bucket, x) ∷ []
      grown =
          ap (λ l. (u.bucket, u.first) ∷ l)
            (append-nil (stamped u.bucket (u.later ++ x ∷ []))
              ∙ stamped-snoc u.bucket u.later x
              ∙ ap (λ l. l ++ (u.bucket, x) ∷ []) (sym (append-nil (stamped u.bucket u.later))))

      extended :
          u.bucket ≡ bucket
          → held ((ts ++ []) ++ extend x u ∷ []) ≡ held (ts ++ u ∷ []) ++ (bucket, x) ∷ []
      extended e =
          subst (λ b. held ((ts ++ []) ++ extend x u ∷ []) ≡ held (ts ++ u ∷ []) ++ (b, x) ∷ []) e
            (rw (append-nil ts, held-append ts (extend x u ∷ []), held-append ts (u ∷ []))
              (ap (λ l. held ts ++ l) grown
                ∙ sym (append_assoc (held ts) (held (u ∷ [])) ((u.bucket, x) ∷ []))))

  tape_step-Alternates :
      (ts : List (Tape F)) (bucket : Datetime) (x : F) (o : Option (Tape F))
      → Alternates (ts ++ of_open o)
      → (o ≡ none → ts ≡ [])
      → Alternates ((ts ++ of_open (tape_step bucket x o).0) ++ (tape_step bucket x o).1 ∷ [])
  tape_step-Alternates ts bucket x none h k = rw (k refl) (tt, tt)
  tape_step-Alternates ts bucket x (some u) h k = elim (Bool-cases (bucket == u.bucket)) [
    | inl same ↦ rw (same, append-nil ts) (Alternates-extend ts u x h)
    | inr other ↦ rw other (Alternates-snoc ts u (begin bucket x) other h)
  ]

  of_closed-snoc :
      (j k : String) (closed : List (String × Tape F)) (o : Option (Tape F))
      → of_closed j (add_closed closed (name_closed k o))
        ≡ of_closed j closed ++ (if str_eq k j then of_open o else [])
  of_closed-snoc j k closed none = ground (arith, append-nil (of_closed j closed))
  of_closed-snoc j k [] (some t) = ground arith
  of_closed-snoc j k ((i, u) ∷ closed) (some t) = ground (arith, of_closed-snoc j k closed (some t))

  -- tapes of which the closed ones of a symbol are followed by an open one
  abbrev pub Follows : String → List (String × Tape F) → Dict (Tape F) → Type 0
  Follows j closed tapes = lookup j tapes ≡ none → of_closed j closed ≡ []

  -- The tapes of a symbol after a tick that counts: those of another symbol stay.
  tapes_of-record_tick :
      (j k : String) (bucket : Datetime) (x : F) (closed : List (String × Tape F))
      (tapes : Dict (Tape F))
      → let next = record_tick (some (k, bucket, x)) tapes in
        tapes_of j (add_closed closed next.0) next.1 ≡ (
          if str_eq k j
          then (of_closed j closed ++ of_open (tape_step bucket x (lookup k tapes)).0)
            ++ (tape_step bucket x (lookup k tapes)).1 ∷ []
          else tapes_of j closed tapes)
  tapes_of-record_tick j k bucket x closed tapes =
      rw
        (
          of_closed-snoc j k closed (tape_step bucket x (lookup k tapes)).0,
          lookup-insert k j (tape_step bucket x (lookup k tapes)).1 tapes,
        )
        (elim (Bool-cases (str_eq k j)) [
          | inl same ↦ rw same refl
          | inr other ↦ rw (other, append-nil (of_closed j closed)) refl
        ])

  -- One tick, against what it shows of a symbol.
  Step :
      String
      → List (Datetime × F)
      → List (String × Tape F)
      → Dict (Tape F)
      → Option (String × Tape F) × Dict (Tape F)
      → Type 0
  Step j seen closed tapes next =
      (held (tapes_of j (add_closed closed next.0) next.1) ≡ held (tapes_of j closed tapes) ++ seen)
      × Alternates (tapes_of j (add_closed closed next.0) next.1)
      × Follows j (add_closed closed next.0) next.1

  record_tick-Step :
      (j : String) (o : Option (String × Datetime × F)) (closed : List (String × Tape F))
      (tapes : Dict (Tape F))
      → Alternates (tapes_of j closed tapes)
      → Follows j closed tapes
      → Step j (observed j o) closed tapes (record_tick o tapes)
  unfolding Step
  record_tick-Step j none closed tapes h k =
      (sym (append-nil (held (tapes_of j closed tapes))), h, k)
  record_tick-Step j (some (k, bucket, x)) closed tapes h f = elim (Bool-cases (str_eq k j)) [
    | inl same ↦
        let e = ap (λ i. lookup i tapes) ((str_eq_iff k j).0 same) in
        let T =
          tapes_of-record_tick j k bucket x closed tapes
          ∙ ap (λ b. if b then grown else tapes_of j closed tapes) same in
        (
          ap held T
              ∙ tape_step-held (of_closed j closed) bucket x (lookup k tapes)
              ∙ ap (λ o. held (of_closed j closed ++ of_open o) ++ (bucket, x) ∷ []) e
              ∙ ap (λ b. held (tapes_of j closed tapes) ++ (if b then (bucket, x) ∷ [] else []))
                  (sym same),
          subst Alternates (sym T) (
              tape_step-Alternates (of_closed j closed) bucket x (lookup k tapes)
                (subst (λ o. Alternates (of_closed j closed ++ of_open o)) (sym e) h)
                (λ q. f (sym e ∙ q))),
          λ q. ground (arith, q, same, lookup-insert k j stepped.1 tapes),
        )
    | inr other ↦
        let T =
          tapes_of-record_tick j k bucket x closed tapes
          ∙ ap (λ b. if b then grown else tapes_of j closed tapes) other in
        (
          ap held T
              ∙ sym (append-nil (held (tapes_of j closed tapes)))
              ∙ ap (λ b. held (tapes_of j closed tapes) ++ (if b then (bucket, x) ∷ [] else []))
                  (sym other),
          subst Alternates (sym T) h,
          λ q.
              of_closed-snoc j k closed stepped.0
              ∙ ap (λ b. of_closed j closed ++ (if b then of_open stepped.0 else [])) other
              ∙ append-nil (of_closed j closed)
              ∙ f (ground (arith, q, other, lookup-insert k j stepped.1 tapes)),
        )
  ]
    where
      stepped : Option (Tape F) × Tape F
      stepped = tape_step bucket x (lookup k tapes)

      grown : List (Tape F)
      grown = (of_closed j closed ++ of_open stepped.0) ++ stepped.1 ∷ []

  record_ticks-Groups :
      (fromtimestamp : F → Outcome Datetime) (symbols : ℕ → Option String) (minutes : ℕ)
      (j : String) (ticks : List (Tick F)) (closed : List (String × Tape F)) (tapes : Dict (Tape F))
      → Alternates (tapes_of j closed tapes)
      → Follows j closed tapes
      → let last = record_ticks fromtimestamp symbols minutes ticks closed tapes in
        (held (tapes_of j last.0 last.1)
          ≡ held (tapes_of j closed tapes) ++ observations fromtimestamp symbols minutes j ticks)
        × Alternates (tapes_of j last.0 last.1)
  unfolding Step
  record_ticks-Groups fromtimestamp symbols minutes j [] closed tapes h f =
      (sym (append-nil (held (tapes_of j closed tapes))), h)
  record_ticks-Groups fromtimestamp symbols minutes j (tick ∷ ticks) closed tapes h f =
      let o = accepted fromtimestamp tick minutes (symbol_of symbols tick.instrument_token) in
      let (told, h', f') = record_tick-Step j o closed tapes h f in
      let next = record_tick o tapes in
      let (rest, last) =
        record_ticks-Groups fromtimestamp symbols minutes j ticks (add_closed closed next.0) next.1
          h' f' in
      (
        rest
            ∙ ap (λ l. l ++ observations fromtimestamp symbols minutes j ticks) told
            ∙ append_assoc (held (tapes_of j closed tapes)) (observed j o)
                (observations fromtimestamp symbols minutes j ticks),
        last,
      )

  -- From open tapes alone: the tapes of each symbol are the runs of its observations.
  pub record_ticks_runs :
      (fromtimestamp : F → Outcome Datetime) (symbols : ℕ → Option String) (minutes : ℕ)
      (ticks : List (Tick F)) (tapes : Dict (Tape F)) (j : String)
      → let last = record_ticks fromtimestamp symbols minutes ticks [] tapes in
        Groups
          (lookup j tapes)
          (observations fromtimestamp symbols minutes j ticks)
          (tapes_of j last.0 last.1)
  record_ticks_runs fromtimestamp symbols minutes ticks tapes j =
      let (told, apart) =
        record_ticks-Groups fromtimestamp symbols minutes j ticks [] tapes (alone (lookup j tapes))
          (λ _. refl) in
      record { complete = told; apart = apart }
    where
      alone : (o : Option (Tape F)) → Alternates (of_open o)
      alone none = tt
      alone (some t) = (tt, tt)
