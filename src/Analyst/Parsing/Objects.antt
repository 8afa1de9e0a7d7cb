-- ===== src/Analyst/Parsing/Objects.antt =====
-- What `_find_first_balanced_object` finds.
use trader_ai.Prelude.{
  ◌≢◌, ℕ, zero, suc, ◌+◌, ◌-◌, ◌≡◌, refl, sym, ◌∙◌, ap, subst, ◌⊎◌, inl, inr, false, none, some, [],
  ◌∷◌, ◌++◌, arith, take, length, length-append, append_assoc, take-append, drop-append,
  Option-cases,
}
use trader_ai.Text.{Text}
use trader_ai.Analyst.Parsing.{
  Scan, open_step, scan_step, slice, found_at, find_from, find_first_balanced_object,
}
use trader_ai.Analyst.Parsing.Balance.{
  next_mode, next_depth, Closes, IsObjectIn, mode_of, scan_step-mode, scan_step-depth,
  scan_step-quiet, scan_step-outside, scan_step-inside, found_at-outside, stays_inside,
  found_inside, Mode, plain,
}

-- what the scan of a text knows before the character `i`
record Tracks (text : Text) (i : ℕ) (s : Scan) (rest : Text) : Type 0 where
  quiet : s.in_string ≡ false → s.escape ≡ false
  outside : s.depth ≡ 0 → (before : Text) × (text ≡ before ++ rest) × (length before ≡ i)
  inside :
      (d : ℕ)
      → s.depth ≡ suc d
      → (before : Text) × (body : Text) × (s.start ≡ some (length before))
        × (text ≡ before ++ (b'{' ∷ (body ++ rest)))
        × (length before + 1 + length body ≡ i)
        × ((tail : Text) → Closes (suc d) (mode_of s) tail → Closes 1 plain (body ++ tail))

ℕ-cases : (n : ℕ) → (n ≡ 0) ⊎ ((m : ℕ) × (n ≡ suc m))
ℕ-cases zero = inl refl
ℕ-cases (suc m) = inr (m, refl)

-- one more character in front of the rest
append_one : (xs ys : Text) (c : ℕ) → (xs ++ c ∷ []) ++ ys ≡ xs ++ (c ∷ ys)
append_one xs ys c = append_assoc xs (c ∷ []) ys

length_one : (xs : Text) (c : ℕ) → length (xs ++ c ∷ []) ≡ length xs + 1
length_one xs c = length-append xs (c ∷ [])

step-Tracks :
    (text : Text) (ch i : ℕ) (s : Scan) (rest : Text)
    → found_at text ch i s ≡ none
    → Tracks text i s (ch ∷ rest)
    → Tracks text (i + 1) (scan_step ch i s) rest
step-Tracks text ch i s rest n t = record {
  quiet = scan_step-quiet ch i s t.quiet;
  outside = λ z. elim (ℕ-cases s.depth) [
    | inl e ↦
        let (before, at, long) = t.outside e in
        (
          before ++ ch ∷ [],
          at ∙ sym (append_one before rest ch),
          length_one before ch ∙ ap (λ k. k + 1) long,
        )
    | inr (d, e) ↦ absurd (omega (arith, z, stays_inside text ch i d _ s e (t.inside d e).2 n))
  ];
  inside = λ d' z. elim (ℕ-cases s.depth) [
    | inl e ↦ elim (scan_step-outside ch i s e) [
      | inl out ↦ absurd (omega (arith, z, out))
      | inr (brace, one, start, mode) ↦
          let (before, at, long) = t.outside e in
          (
            before,
            [],
            start ∙ ap some (sym long),
            at ∙ ap (λ c. before ++ (c ∷ rest)) brace,
            omega (arith, long),
            λ tail c.
                subst (λ k. Closes k plain tail) (sym z ∙ one)
                  (subst (λ m. Closes (suc d') m tail) mode c),
          )
    ]
    | inr (d, e) ↦
        let (before, body, start, at, long, closes) = t.inside d e in
        (
          before,
          body ++ ch ∷ [],
          scan_step-inside ch i d s e ∙ start,
          at ∙ ap (λ l. before ++ (b'{' ∷ l)) (sym (append_one body rest ch)),
          omega (arith, long, length_one body ch),
          λ tail c. subst (Closes 1 plain) (sym (append_one body tail ch)) (
              closes (ch ∷ tail) (
                omega arith,
                subst (λ k. Closes k (next_mode ch (mode_of s)) tail)
                    (sym z ∙ scan_step-depth ch i s ∙ ap (λ k. next_depth ch k (mode_of s)) e)
                    (subst (λ m. Closes (suc d') m tail) (scan_step-mode ch i s t.quiet) c),
              )),
        )
  ];
}

slice-middle :
    (before found after : Text) (i : ℕ)
    → length before + length found ≡ i + 1
    → slice (before ++ (found ++ after)) (length before) i ≡ found
slice-middle before found after i h =
    ap (take (i + 1 - length before)) (drop-append (length before) before (found ++ after) refl)
    ∙ take-append (i + 1 - length before) found after (omega (arith, h))

find_from-IsObjectIn :
    (text : Text) (i : ℕ) (s : Scan) (rest found : Text)
    → Tracks text i s rest
    → find_from text i s rest ≡ some found
    → IsObjectIn text found
unfolding find_from
find_from-IsObjectIn text i s [] found t h = ground (arith, h)
find_from-IsObjectIn text i s (ch ∷ rest) found t h = elim (Option-cases (found_at text ch i s)) [
  | inl e ↦
      find_from-IsObjectIn text (i + 1) (scan_step ch i s) rest found
        (step-Tracks text ch i s rest e t) (ground (arith, e, h))
  | inr (o, e) ↦ now (ℕ-cases s.depth) (ground (arith, e, h))
]
  where
    now :
        (s.depth ≡ 0) ⊎ ((d : ℕ) × (s.depth ≡ suc d))
        → found_at text ch i s ≡ some found
        → IsObjectIn text found
    now (inl z) e = ground (arith, e, found_at-outside text ch i s z)
    now (inr (d, z)) e =
        let (before, body, start, at, long, closes) = t.inside d z in
        let (one, brace, mode, cut) = found_inside text ch i d _ s found z start e in
        (
          before,
          body ++ ch ∷ [],
          rest,
          cut
              ∙ ap (λ l. slice l (length before) i)
                  (at ∙ ap (λ l. before ++ (b'{' ∷ l)) (sym (append_one body rest ch)))
              ∙ slice-middle before (b'{' ∷ (body ++ ch ∷ [])) rest i
                  (omega (arith, long, length_one body ch)),
          at
              ∙ ap (λ l. before ++ (b'{' ∷ l)) (sym (append_one body rest ch))
              ∙ ap (λ l. before ++ (l ++ rest))
                  (sym (
                    cut
                    ∙ ap (λ l. slice l (length before) i)
                        (at ∙ ap (λ l. before ++ (b'{' ∷ l)) (sym (append_one body rest ch)))
                    ∙ slice-middle before (b'{' ∷ (body ++ ch ∷ [])) rest i
                        (omega (arith, long, length_one body ch)))),
          closes (ch ∷ [])
              (subst (λ m. Closes (suc d) m (ch ∷ [])) (sym mode) (ground (arith, one, brace))),
        )

-- What the scan returns is a part of the text that is an opening brace followed by what closes it: the braces outside strings bring the depth to zero at its end and not before.
pub find_first_balanced_object-IsObjectIn :
    (text found : Text) → find_first_balanced_object text ≡ some found → IsObjectIn text found
unfolding find_first_balanced_object
find_first_balanced_object-IsObjectIn text found h =
    find_from-IsObjectIn text 0 _ text found
      (record {
        quiet = λ e. refl;
        outside = λ e. ([], refl, refl);
        inside = λ d e. ground (arith, e);
      })
      h

-- no quote and no opening brace
abbrev pub IsProse : Text → Type 0
IsProse [] = Unit
IsProse (c ∷ cs) = (c ≢ b'"') × (c ≢ b'{') × IsProse cs

Closes-none : (m : Mode) (body : Text) → Closes 0 m body → length body ≡ 0
Closes-none m [] c = refl
Closes-none m (ch ∷ body) c = absurd (ground (arith, c.0))

scan-Closes :
    (text : Text) (k i d : ℕ) (s : Scan) (body after : Text)
    → (s.in_string ≡ false → s.escape ≡ false)
    → s.start ≡ some k
    → s.depth ≡ suc d
    → Closes (suc d) (mode_of s) body
    → find_from text i s (body ++ after) ≡ some (slice text k (i + length body - 1))
unfolding find_from
scan-Closes text k i d s [] after q start e c = absurd (ground (arith, c.0))
scan-Closes text k i d s (ch ∷ body) after q start e c =
    elim (Option-cases (found_at text ch i s)) [
      | inl n ↦ elim (ℕ-cases (scan_step ch i s).depth) [
        | inl z ↦ absurd (omega (arith, z, stays_inside text ch i d k s e start n))
        | inr (d', z) ↦ skipped n (
            scan-Closes text k (i + 1) d' (scan_step ch i s) body after (scan_step-quiet ch i s q)
              (scan_step-inside ch i d s e ∙ start) z
              (subst (λ m. Closes (suc d') m body) (sym (scan_step-mode ch i s q))
                (subst (λ j. Closes j (next_mode ch (mode_of s)) body)
                  (ap (λ j. next_depth ch j (mode_of s)) (sym e) ∙ sym (scan_step-depth ch i s) ∙ z)
                  c.1)))
      ]
      | inr (o, n) ↦
          let (zero_left, brace, mode, cut) = found_inside text ch i d k s o e start n in
          let empty = Closes-none (next_mode ch (mode_of s)) body (
            subst (λ j. Closes j (next_mode ch (mode_of s)) body)
              (ground (arith, zero_left, brace, mode)) c.1) in
          stopped n (cut ∙ ap (slice text k) (omega (arith, empty)))
    ]
  where
    skipped :
        found_at text ch i s ≡ none
        → find_from text (i + 1) (scan_step ch i s) (body ++ after)
          ≡ some (slice text k (i + 1 + length body - 1))
        → find_from text i s (ch ∷ body ++ after) ≡ some (slice text k (i + suc (length body) - 1))
    skipped n h = ground (arith, n) ∙ h ∙ ap (λ j. some (slice text k j)) (omega arith)

    stopped :
        {o : Text}
        → found_at text ch i s ≡ some o
        → o ≡ slice text k (i + suc (length body) - 1)
        → find_from text i s (ch ∷ body ++ after) ≡ some (slice text k (i + suc (length body) - 1))
    stopped n h = ground (arith, n, h)

abbrev idle : Scan
idle = record { depth = 0; start = none; in_string = false; escape = false }

idle-step :
    (text : Text) (i c : ℕ)
    → c ≢ b'"'
    → c ≢ b'{'
    → (scan_step c i idle ≡ idle) × (found_at text c i idle ≡ none)
idle-step text i c q b = ground (arith, q, b)

scan-prose :
    (text : Text) (i : ℕ) (before rest : Text)
    → IsProse before
    → find_from text i idle (before ++ rest) ≡ find_from text (i + length before) idle rest
unfolding find_from
scan-prose text i [] rest p = ap (λ j. find_from text j idle rest) (omega arith)
scan-prose text i (c ∷ before) rest p =
    let (same, none_yet) = idle-step text i c p.0 p.1 in
    ground (arith, none_yet)
    ∙ ap (λ t. find_from text (i + 1) t (before ++ rest)) same
    ∙ scan-prose text (i + 1) before rest p.2
    ∙ ap (λ j. find_from text j idle rest) (omega arith)

-- In a text that begins without quotes and opening braces, the object that follows is found whole, whatever comes after it: an opening brace with what closes it, strings with braces, quotes and escapes included.
pub find_first_balanced_object_recovers :
    (before body after : Text)
    → IsProse before
    → Closes 1 plain body
    → find_first_balanced_object (before ++ (b'{' ∷ (body ++ after))) ≡ some (b'{' ∷ body)
unfolding find_first_balanced_object find_from mode_of
find_first_balanced_object_recovers before body after p c =
    let text = before ++ (b'{' ∷ (body ++ after)) in
    scan-prose text 0 before (b'{' ∷ (body ++ after)) p
    ∙ scan-Closes text (0 + length before) (0 + length before + 1) 0
        (open_step (0 + length before) idle) body after (λ q. refl) refl refl c
    ∙ ap some (
        ap (λ k. slice text k (k + 1 + length body - 1)) (omega arith)
        ∙ slice-middle before (b'{' ∷ body) after (length before + 1 + length body - 1)
            (omega arith))
