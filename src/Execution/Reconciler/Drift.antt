-- ===== src/Execution/Reconciler/Drift.antt =====
-- Which symbols the reconciler reports.
use trader_ai.Prelude.{
  ◌≡◌, refl, sym, ◌∙◌, ap, Bool, true, false, not, ◌&&◌, ◌||◌, Option, none, some, List, [], ◌∷◌,
  ◌++◌, map, if◌then◌else◌, String, str_eq, str_eq_iff, arith,
}
use trader_ai.Prelude.Dict.{Dict, lookup, insert, lookup-insert, Distinct, insert-Distinct}
use trader_ai.Execution.Broker.{Position}
use trader_ai.Execution.OrderState.{OrderRecord, is_open}
use trader_ai.Execution.Reconciler.{
  LocalPositionSnapshot, has, add_symbol, is_empty, broker_map, local_map, mismatch, open_symbols,
  add_mismatches, is_missing, add_unknown, add_difference, detect_drift,
}

has-append : (s : String) (ts us : List String) → has s (ts ++ us) ≡ (has s ts || has s us)
has-append s [] us = refl
has-append s (t ∷ ts) us = ground (arith, has-append s ts us)

has-if :
    (s : String) (b : Bool) (ts us : List String)
    → has s (if b then ts else us) ≡ (if b then has s ts else has s us)
has-if s true ts us = refl
has-if s false ts us = refl

has-same : (s t : String) (ts : List String) → str_eq s t ≡ true → has s ts ≡ has t ts
has-same s t ts e = ap (λ u. has u ts) ((str_eq_iff s t).0 e)

has-add_symbol :
    (s t : String) (ts : List String) → has s (add_symbol t ts) ≡ (str_eq s t || has s ts)
has-add_symbol s t ts =
    has-if s (has t ts) ts (ts ++ t ∷ [])
    ∙ ap (λ b. if has t ts then has s ts else b) (has-append s ts (t ∷ []))
    ∙ ground (arith, has-same s t ts, str_eq_iff s t, str_eq_iff t s)

has-add_difference :
    (s : String) (ss ts drift : List String)
    → has s (add_difference ss ts drift) ≡ (has s drift || (has s ss && not (has s ts)))
has-add_difference s [] ts drift = ground arith
has-add_difference s (t ∷ ss) ts drift =
    has-add_difference s ss ts (if has t ts then drift else add_symbol t drift)
    ∙ ap (λ b. b || (has s ss && not (has s ts)))
        (has-if s (has t ts) drift (add_symbol t drift)
          ∙ ap (λ b. if has t ts then has s drift else b) (has-add_symbol s t drift))
    ∙ ground (arith, has-same s t ts, str_eq_iff s t, str_eq_iff t s)

module _ {F : Type 0} where
  -- whether a snapshot of the symbol differs from the broker's position
  abbrev pub differs : Dict (Position F) → String → Option (LocalPositionSnapshot F) → Bool
  differs held s none = false
  differs held s (some l) = mismatch l (lookup s held)

  has-add_mismatches :
      (s : String) (held : Dict (Position F)) (local : Dict (LocalPositionSnapshot F))
      (drift : List String)
      → Distinct local
      → has s (add_mismatches held local drift) ≡ (has s drift || differs held s (lookup s local))
  unfolding lookup
  has-add_mismatches s held [] drift d = ground arith
  has-add_mismatches s held ((t, l) ∷ ls) drift d =
      has-add_mismatches s held ls
        (if mismatch l (lookup t held) then add_symbol t drift else drift) d.1
      ∙ ap (λ b. b || differs held s (lookup s ls))
          (has-if s (mismatch l (lookup t held)) (add_symbol t drift) drift
            ∙ ap (λ b. if mismatch l (lookup t held) then b else has s drift)
                (has-add_symbol s t drift))
      ∙ ground (arith, str_eq_iff s t, str_eq_iff t s, same_differs, d.0)
    where
      same_differs :
          str_eq s t ≡ true → (lookup t held ≡ lookup s held) × (lookup s ls ≡ lookup t ls)
      same_differs e = (
        ap (λ u. lookup u held) (sym ((str_eq_iff s t).0 e)),
        ap (λ u. lookup u ls) ((str_eq_iff s t).0 e),
      )

  -- whether the broker holds a symbol that the snapshot does not know
  abbrev pub unknown : Dict (LocalPositionSnapshot F) → String → Option (Position F) → Bool
  unknown local s none = false
  unknown local s (some p) = is_missing (lookup s local)

  has-add_unknown :
      (s : String) (local : Dict (LocalPositionSnapshot F)) (held : Dict (Position F))
      (drift : List String)
      → Distinct held
      → has s (add_unknown local held drift) ≡ (has s drift || unknown local s (lookup s held))
  unfolding lookup
  has-add_unknown s local [] drift d = ground arith
  has-add_unknown s local ((t, p) ∷ ps) drift d =
      has-add_unknown s local ps (if is_missing (lookup t local) then add_symbol t drift else drift)
        d.1
      ∙ ap (λ b. b || unknown local s (lookup s ps))
          (has-if s (is_missing (lookup t local)) (add_symbol t drift) drift
            ∙ ap (λ b. if is_missing (lookup t local) then b else has s drift)
                (has-add_symbol s t drift))
      ∙ ground (arith, str_eq_iff s t, str_eq_iff t s, same_unknown, d.0)
    where
      same_unknown :
          str_eq s t ≡ true → (lookup t local ≡ lookup s local) × (lookup s ps ≡ lookup t ps)
      same_unknown e = (
        ap (λ u. lookup u local) (sym ((str_eq_iff s t).0 e)),
        ap (λ u. lookup u ps) ((str_eq_iff s t).0 e),
      )

  broker_map-Distinct :
      (d : Dict (Position F)) (ps : List (Position F)) → Distinct d → Distinct (broker_map d ps)
  broker_map-Distinct d [] h = h
  broker_map-Distinct d (p ∷ ps) h =
      broker_map-Distinct (insert p.symbol p d) ps (insert-Distinct p.symbol p d h)

  local_map-Distinct :
      (d : Dict (LocalPositionSnapshot F)) (ls : List (LocalPositionSnapshot F))
      → Distinct d
      → Distinct (local_map d ls)
  local_map-Distinct d [] h = h
  local_map-Distinct d (l ∷ ls) h =
      local_map-Distinct (insert l.symbol l d) ls (insert-Distinct l.symbol l d h)

  -- the last entry of a symbol
  abbrev pub last_position : String → Option (Position F) → List (Position F) → Option (Position F)
  last_position s o [] = o
  last_position s o (p ∷ ps) = last_position s (if str_eq p.symbol s then some p else o) ps

  abbrev pub last_snapshot :
      String
      → Option (LocalPositionSnapshot F)
      → List (LocalPositionSnapshot F)
      → Option (LocalPositionSnapshot F)
  last_snapshot s o [] = o
  last_snapshot s o (l ∷ ls) = last_snapshot s (if str_eq l.symbol s then some l else o) ls

  lookup-broker_map :
      (s : String) (d : Dict (Position F)) (ps : List (Position F))
      → lookup s (broker_map d ps) ≡ last_position s (lookup s d) ps
  lookup-broker_map s d [] = refl
  lookup-broker_map s d (p ∷ ps) =
      lookup-broker_map s (insert p.symbol p d) ps
      ∙ ap (λ o. last_position s o ps) (lookup-insert p.symbol s p d)

  lookup-local_map :
      (s : String) (d : Dict (LocalPositionSnapshot F)) (ls : List (LocalPositionSnapshot F))
      → lookup s (local_map d ls) ≡ last_snapshot s (lookup s d) ls
  lookup-local_map s d [] = refl
  lookup-local_map s d (l ∷ ls) =
      lookup-local_map s (insert l.symbol l d) ls
      ∙ ap (λ o. last_snapshot s o ls) (lookup-insert l.symbol s l d)

  -- whether an open record, or a position, has the symbol
  abbrev pub any_open : String → List (OrderRecord F) → Bool
  any_open s [] = false
  any_open s (r ∷ rs) = (is_open r.state && str_eq s r.symbol) || any_open s rs

  abbrev pub any_held : String → List (Position F) → Bool
  any_held s [] = false
  any_held s (p ∷ ps) = str_eq s p.symbol || any_held s ps

  abbrev pub none_open : List (OrderRecord F) → Bool
  none_open [] = true
  none_open (r ∷ rs) = not (is_open r.state) && none_open rs

  has-open_symbols :
      (s : String) (rs : List (OrderRecord F)) → has s (open_symbols rs) ≡ any_open s rs
  has-open_symbols s [] = refl
  has-open_symbols s (r ∷ rs) =
      has-if s (is_open r.state) (r.symbol ∷ open_symbols rs) (open_symbols rs)
      ∙ ground (arith, has-open_symbols s rs)

  has-symbols :
      (s : String) (ps : List (Position F))
      → has s (map (λ (p : Position F). p.symbol) ps) ≡ any_held s ps
  has-symbols s [] = refl
  has-symbols s (p ∷ ps) = ap (λ b. str_eq s p.symbol || b) (has-symbols s ps)

  open_symbols-empty : (rs : List (OrderRecord F)) → is_empty (open_symbols rs) ≡ none_open rs
  open_symbols-empty [] = refl
  open_symbols-empty (r ∷ rs) = ground (arith, open_symbols-empty rs)

  abbrev pub drifts_from : Option (Position F) → Option (LocalPositionSnapshot F) → Bool
  drifts_from none none = false
  drifts_from (some p) none = true
  drifts_from held (some snapshot) = mismatch snapshot held

  -- Without a snapshot: a symbol with an open record and no position, or, if there is an open
  -- record at all, with a position and no open record. With one: the last snapshot of the symbol
  -- differs from the last position, or there is a position and no snapshot.
  abbrev pub drifts :
      String → List (Position F) → List (LocalPositionSnapshot F) → List (OrderRecord F) → Bool
  drifts s broker [] records =
      (any_open s records && not (any_held s broker))
      || (not (none_open records) && (any_held s broker && not (any_open s records)))
  drifts s broker (l ∷ ls) records =
      drifts_from (last_position s none broker) (last_snapshot s none (l ∷ ls))

  joined :
      (s : String) (held : Dict (Position F)) (local : Dict (LocalPositionSnapshot F))
      (o : Option (Position F)) (q : Option (LocalPositionSnapshot F))
      → lookup s held ≡ o
      → lookup s local ≡ q
      → (differs held s (lookup s local) || unknown local s (lookup s held)) ≡ drifts_from o q
  joined s held local none none e f =
      ap (λ x. differs held s x || unknown local s (lookup s held)) f ∙ ap (unknown local s) e
  joined s held local none (some l) e f =
      ap (λ x. differs held s x || unknown local s (lookup s held)) f
      ∙ ap (λ x. mismatch l x || unknown local s x) e
  joined s held local (some p) none e f =
      ap (λ x. differs held s x || unknown local s (lookup s held)) f
      ∙ ap (unknown local s) e
      ∙ ap is_missing f
  joined s held local (some p) (some l) e f =
      ap (λ x. differs held s x || unknown local s (lookup s held)) f
      ∙ ap (λ x. mismatch l x || unknown local s x) e
      ∙ ap (λ x. mismatch l (some p) || is_missing x) f
      ∙ ground arith

  -- If sorting keeps the members of a list of texts, then the reconciler reports exactly the symbols that drift: where there is a snapshot, those whose last snapshot has no position at the broker or one of another quantity or side, and those that the broker holds and the snapshot does not know, whatever the records say; where there is none, those that have an open record, pending entries included, and no position, and, if any record is open, those that have a position and no open record.
  pub has-detect_drift :
      (sorted : List String → List String) (broker : List (Position F))
      (local : List (LocalPositionSnapshot F)) (records : List (OrderRecord F)) (s : String)
      → ((t : String) (ts : List String) → has t (sorted ts) ≡ has t ts)
      → has s (detect_drift sorted broker local records) ≡ drifts s broker local records
  unfolding detect_drift lookup
  has-detect_drift sorted broker [] records s keeps =
      keeps s _
      ∙ has-if s (is_empty opened) difference (add_difference held opened difference)
      ∙ ground (
        arith,
        has-add_difference s opened held [],
        has-add_difference s held opened difference,
        has-open_symbols s records,
        has-symbols s broker,
        open_symbols-empty records,
      )
    where
      opened : List String
      opened = open_symbols records

      held : List String
      held = map (λ (p : Position F). p.symbol) broker

      difference : List String
      difference = add_difference opened held []
  has-detect_drift sorted broker (l ∷ ls) records s keeps =
      keeps s _
      ∙ has-add_unknown s local held (add_mismatches held local [])
          (broker_map-Distinct [] broker tt)
      ∙ ap (λ b. b || unknown local s (lookup s held))
          (has-add_mismatches s held local [] (local_map-Distinct [] (l ∷ ls) tt))
      ∙ joined s held local _ _ (lookup-broker_map s [] broker) (lookup-local_map s [] (l ∷ ls))
    where
      held : Dict (Position F)
      held = broker_map [] broker

      local : Dict (LocalPositionSnapshot F)
      local = local_map [] (l ∷ ls)
