-- ===== src/Receiver/Dot/Frames.antt =====
-- The loop of a connection over framed queries, and its rounds.
use brdns.Prelude.{
  ℕ, zero, suc, ◌+◌, ◌*◌, ◌/◌, ◌%◌, ◌^◌, ◌<◌, ◌≤◌, ◌≡◌, refl, ap, ◌∙◌, true, Option, none, some,
  List, [], ◌∷◌, ◌++◌, length, arith, Option-cases, inl, inr, All,
}
use brdns.Prelude.Text.{Text}
use brdns.Buffer.Qname.{Unicode}
use brdns.Upstream.{Shared}
use brdns.ControlPlane.{ControlPlane}
use brdns.Pipeline.{Pipeline, PipelineError, Answer, response, failure, handle_query}
use brdns.Receiver.Dot.{read_exact, frame, next_query, written, process_new}

read_exact-append : (q rest : List ℕ) → read_exact (length q) (q ++ rest) ≡ some (q, rest)
unfolding read_exact
read_exact-append [] rest = refl
read_exact-append (x ∷ q) rest = rw (read_exact-append q rest)

-- What is left behind a message is shorter than the input.
read_exact-le :
    (n : ℕ) (input taken left : List ℕ)
    → read_exact n input ≡ some (taken, left)
    → length left ≤ length input
unfolding read_exact
read_exact-le zero input taken left h = ground arith
read_exact-le (suc n) [] taken left h = ground arith
read_exact-le (suc n) (x ∷ input) taken left h = elim (Option-cases (read_exact n input)) [
  | inl e ↦ ground arith
  | inr ((t, l), e) ↦ ground (arith, read_exact-le n input t l e)
]

next_query-lt :
    (input query left : List ℕ) → next_query input ≡ some (query, left) → length left < length input
unfolding next_query
next_query-lt [] query left h = absurd (cc h)
next_query-lt (a ∷ []) query left h = absurd (cc h)
next_query-lt (a ∷ b ∷ input) query left h =
    let p = read_exact-le (a * 256 + b) input query left h in omega arith

length_bytes : (n : ℕ) → n < 2 ^ 16 → n % 2 ^ 16 / 256 * 256 + n % 2 ^ 16 % 256 ≡ n
length_bytes n h = omega arith

-- A framed message is read back with what follows it.
pub next_query-frame :
    (q rest : List ℕ) → length q < 2 ^ 16 → next_query (frame q ++ rest) ≡ some (q, rest)
unfolding next_query frame
next_query-frame q rest h = rw (length_bytes (length q) h) (read_exact-append q rest)

abbrev pub frames : List (List ℕ) → List ℕ
frames [] = []
frames (q ∷ qs) = frame q ++ frames qs

abbrev pub IsShort : List ℕ → Type 0
IsShort q = length q < 2 ^ 16

module _ ⦃u : Unicode⦄ (cp : ControlPlane) (network : Shared → List ℕ → Option (List ℕ)) where
  -- The queries Handled one after the other, each with a response.
  abbrev pub Handled : Text → List (List ℕ) → Pipeline cp → List (List ℕ) → Pipeline cp → Type 0
  Handled account [] s [] end = s ≡ end
  Handled account [] s (out ∷ outs) end = ⊥
  Handled account (q ∷ qs) s [] end = ⊥
  Handled account (q ∷ qs) s (out ∷ outs) end =
      (middle : Pipeline cp) × (handle_query cp network account q s ≡ (response out, middle))
      × Handled account qs middle outs end

  process_new_end :
      (fuel : ℕ) (account : Text) (input : List ℕ) (s : Pipeline cp)
      → next_query input ≡ none
      → process_new cp network (suc fuel) account input s
        ≡ record { output = []; state = s; ended = true }
  unfolding process_new
  process_new_end fuel account input s h = rw (h, process_new)

  process_new_answered :
      (fuel : ℕ) (account : Text) (input query left out : List ℕ) (s next : Pipeline cp)
      → next_query input ≡ some (query, left)
      → handle_query cp network account query s ≡ (response out, next)
      → process_new cp network (suc fuel) account input s
        ≡ written out (process_new cp network fuel account left next)
  unfolding process_new
  process_new_answered fuel account input query left out s next h e =
      rw (h, process_new)
        (rw (ap (λ (r : Answer × Pipeline cp). r.0) e, ap (λ (r : Answer × Pipeline cp). r.1) e))

  process_new_failed :
      (fuel : ℕ) (account : Text) (input query left : List ℕ) (e : PipelineError)
      (s next : Pipeline cp)
      → next_query input ≡ some (query, left)
      → handle_query cp network account query s ≡ (failure e, next)
      → process_new cp network (suc fuel) account input s
        ≡ record { output = []; state = next; ended = true }
  unfolding process_new
  process_new_failed fuel account input query left e s next h g =
      rw (h, process_new)
        (rw (ap (λ (r : Answer × Pipeline cp). r.0) g, ap (λ (r : Answer × Pipeline cp). r.1) g))

  -- With a round for each byte of the input and one more, the loop ends before its rounds do.
  pub process_new_ended :
      (fuel : ℕ) (account : Text) (input : List ℕ) (s : Pipeline cp)
      → length input < fuel
      → (process_new cp network fuel account input s).ended ≡ true
  process_new_ended zero account input s h = absurd (omega (arith, h))
  process_new_ended (suc fuel) account input s h = elim (Option-cases (next_query input)) [
    | inl e ↦ rw (process_new_end fuel account input s e)
    | inr ((query, left), e) ↦
        go query left e
          (λ next.
            process_new_ended fuel account left next
              (let p = next_query-lt input query left e in omega arith))
          (handle_query cp network account query s) refl
  ]
    where
      go :
          (query left : List ℕ)
          → next_query input ≡ some (query, left)
          → ((next : Pipeline cp) → (process_new cp network fuel account left next).ended ≡ true)
          → (r : Answer × Pipeline cp) → handle_query cp network account query s ≡ r
          → (process_new cp network (suc fuel) account input s).ended ≡ true
      go query left e ih (failure x, next) g =
          rw (process_new_failed fuel account input query left x s next e g)
      go query left e ih (response out, next) g =
          rw (process_new_answered fuel account input query left out s next e g) (ih next)

  -- Queries of less than 2 ^ 16 bytes, sent one behind the other and each with a response, are
  -- answered in order, each response behind its length modulo 2 ^ 16, and the connection ends where
  -- the client hangs up.
  pub process_new-frames :
      (fuel : ℕ) (account : Text) (qs outs : List (List ℕ)) (s end : Pipeline cp)
      → length qs < fuel
      → All IsShort qs
      → Handled account qs s outs end
      → process_new cp network fuel account (frames qs) s
        ≡ record { output = frames outs; state = end; ended = true }
  process_new-frames zero account qs outs s end h w g = absurd (omega (arith, h))
  process_new-frames (suc fuel) account [] [] s end h w g =
      process_new_end fuel account [] s (unfold next_query in refl) ∙ rw g
  process_new-frames (suc fuel) account [] (out ∷ outs) s end h w g = absurd g
  process_new-frames (suc fuel) account (q ∷ qs) [] s end h w g = absurd g
  process_new-frames (suc fuel) account (q ∷ qs) (out ∷ outs) s end h w g =
      let (middle, first, others) = g in
      process_new_answered fuel account (frames (q ∷ qs)) q (frames qs) out s middle
        (next_query-frame q (frames qs) w.0) first
      ∙ rw (process_new-frames fuel account qs outs middle end (omega (arith, h)) w.1 others)
