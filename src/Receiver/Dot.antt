-- ===== src/Receiver/Dot.antt =====
-- lib/receiver/dot.rs: queries over one TLS connection, each behind its length. `input` is what the
-- client sends before it hangs up, and the result is what is written to it. The client reads all
-- that it is sent: the exits on a failed write are not modelled.
pub mod Frames
use brdns.Prelude.{
  ℕ, zero, suc, ◌+◌, ◌*◌, ◌/◌, ◌%◌, ◌^◌, Bool, true, false, Option, none, some, List, [], ◌∷◌, ◌++◌,
  length,
}
use brdns.Prelude.Text.{Text}
use brdns.Buffer.Qname.{Unicode}
use brdns.Identity.{account_from_sni}
use brdns.Upstream.{Shared}
use brdns.ControlPlane.{ControlPlane}
use brdns.Pipeline.{Pipeline, Answer, response, failure, handle_query}

-- The account of a connection: by its server name, or the fallback.
unfoldable pub account_for : Option Text → Text → Text → Text
account_for none domain fallback_account = fallback_account
account_for (some name) domain fallback_account = elim (account_from_sni name domain) [
  | none ↦ fallback_account
  | some account ↦ account
]

-- `read_exact`: the next bytes and what is behind them.
unfoldable pub read_exact : ℕ → List ℕ → Option (List ℕ × List ℕ)
read_exact zero input = some ([], input)
read_exact (suc n) [] = none
read_exact (suc n) (x ∷ input) = elim (read_exact n input) [
  | none ↦ none
  | some (taken, left) ↦ some (x ∷ taken, left)
]

-- `(len as u16).to_be_bytes()` and the message: the length is taken modulo 2 ^ 16.
unfoldable pub frame : List ℕ → List ℕ
frame message = let n = length message % 2 ^ 16 in n / 256 ∷ n % 256 ∷ message

-- The length and the query of one message, and what is behind them.
unfoldable pub next_query : List ℕ → Option (List ℕ × List ℕ)
unfolding read_exact
next_query [] = none
next_query (a ∷ []) = none
next_query (a ∷ b ∷ input) = read_exact (a * 256 + b) input

-- The bytes that were written, the state behind the connection, and whether the loop has ended.
pub record Served (cp : ControlPlane) : Type 0 where
  pub output : List ℕ
  pub state : Pipeline cp
  pub ended : Bool

abbrev pub written : {cp : ControlPlane} → List ℕ → Served cp → Served cp
written message r = record r { output = frame message ++ r.output }

module _ ⦃u : Unicode⦄ (cp : ControlPlane) (network : Shared → List ℕ → Option (List ℕ)) where
  -- The loop, of `fuel` rounds at most.
  unfoldable pub process_new : ℕ → Text → List ℕ → Pipeline cp → Served cp
  process_new zero account input s = record { output = []; state = s; ended = false }
  process_new (suc fuel) account input s = elim (next_query input) [
    | none ↦ record { output = []; state = s; ended = true }
    | some (query, left) ↦
        let next = (handle_query cp network account query s).1 in
        let rest = process_new fuel account left next in
        elim (handle_query cp network account query s).0 [
          | failure e ↦ record { output = []; state = next; ended = true }
          | response out ↦ written out rest
        ]
  ]
