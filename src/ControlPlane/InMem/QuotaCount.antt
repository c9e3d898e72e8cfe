-- ===== src/ControlPlane/InMem/QuotaCount.antt =====
-- How often a budget is granted over a sequence of calls of `record_quota`.
use brdns.Prelude.{
  ℕ, ◌+◌, ◌-◌, ◌≤◌, ◌<◌, ◌≡◌, refl, ◌∙◌, true, false, ◌&&◌, List, [], ◌∷◌, arith, if◌then◌else◌,
  Bool-cases, inl, inr, lt→leb, le→leb,
}
use Prim.Native.Nat.{min}
use native.Mathlib.Decide.{dec_lt}
use brdns.Prelude.Int.{ℤ, pos, leb_ℤ}
use brdns.Prelude.Maps.{insert, lookup-insert, pair_eq, pair_beq, pair_beq_iff}
use brdns.ControlPlane.InMem.{Inner, count_at, charge}

-- A call of `record_quota` that reaches the counter: the rule and the start of its window, and the
-- budget.
pub record Call : Type 0 where
  pub key : ℕ × ℤ
  pub limit : ℤ

-- The answers for one key, over a sequence of calls for any keys.
abbrev pub granted : ℕ × ℤ → List Call → Inner → ℕ
granted key [] inner = 0
granted key (c ∷ cs) inner =
    let (ok, next) = charge c.key c.limit inner in
    let rest = granted key cs next in if pair_beq c.key key && ok then rest + 1 else rest

abbrev pub asked : ℕ × ℤ → List Call → ℕ
asked key [] = 0
asked key (c ∷ cs) = let rest = asked key cs in if pair_beq c.key key then rest + 1 else rest

-- Each call for the key has the same budget.
abbrev pub SameLimit : ℕ × ℤ → ℕ → List Call → Type 0
SameLimit key limit [] = Unit
SameLimit key limit (c ∷ cs) =
    (pair_beq c.key key ≡ true → c.limit ≡ pos limit) × SameLimit key limit cs

abbrev pub stored : ℕ × ℤ → ℕ → Inner → Inner
stored key n inner = record inner { quota = insert key n inner.quota }

pub count_at-stored :
    (key k : ℕ × ℤ) (n : ℕ) (inner : Inner)
    → count_at k (stored key n inner) ≡ (if pair_beq key k then n else count_at k inner)
count_at-stored key k n inner =
    let e = lookup-insert key k n inner.quota in
    unfold count_at in
    elim (Bool-cases (pair_beq key k)) [ inl h ↦ ground (arith, e) | inr h ↦ ground (arith, e) ]

-- A call within the budget is granted and counted; any other is refused and not counted.
pub charge_under :
    (key : ℕ × ℤ) (limit : ℕ) (inner : Inner)
    → count_at key inner < limit
    → charge key (pos limit) inner ≡ (true, stored key (count_at key inner + 1) inner)
unfolding charge
charge_under key limit inner h = rw (lt→leb limit (count_at key inner) h)

pub charge_over :
    (key : ℕ × ℤ) (limit : ℕ) (inner : Inner)
    → limit ≤ count_at key inner
    → charge key (pos limit) inner ≡ (false, stored key (count_at key inner) inner)
unfolding charge
charge_over key limit inner h = rw (le→leb limit (count_at key inner) h)

charge_other :
    (key k : ℕ × ℤ) (limit : ℤ) (inner : Inner)
    → pair_beq key k ≡ false
    → count_at k (charge key limit inner).1 ≡ count_at k inner
unfolding charge
charge_other key k limit inner n = elim (Bool-cases (leb_ℤ limit (pos (count_at key inner)))) [
  | inl e ↦ rw (e, count_at-stored key k (count_at key inner) inner, n)
  | inr e ↦ rw (e, count_at-stored key k (count_at key inner + 1) inner, n)
]

granted_cons :
    (key : ℕ × ℤ) (c : Call) (cs : List Call) (inner : Inner)
    → granted key (c ∷ cs) inner ≡ (
        if pair_beq c.key key && (charge c.key c.limit inner).0
        then granted key cs (charge c.key c.limit inner).1 + 1
        else granted key cs (charge c.key c.limit inner).1)
granted_cons key c cs inner = refl

pub pair_refl : (k : ℕ × ℤ) → pair_beq k k ≡ true
pair_refl k = (pair_beq_iff k k).1 refl

-- Over any sequence of calls, a rule's window with a budget of `limit` grants exactly the calls for
-- it that the budget has left, however the calls for other rules and windows come in between.
pub granted_lem :
    (key : ℕ × ℤ) (limit : ℕ) (cs : List Call) (inner : Inner)
    → SameLimit key limit cs
    → granted key cs inner ≡ min (asked key cs) (limit - count_at key inner)
granted_lem key limit [] inner w = omega arith
granted_lem key limit (c ∷ cs) inner w = elim (Bool-cases (pair_beq c.key key)) [
  | inr other ↦
      granted_cons key c cs inner
      ∙ rw (other) (
          granted_lem key limit cs (charge c.key c.limit inner).1 w.1
          ∙ rw (charge_other c.key key c.limit inner other))
  | inl mine ↦
      granted_cons key c cs inner
      ∙ own (granted_lem key limit cs _ w.1) (granted_lem key limit cs _ w.1) mine
          ((pair_beq_iff c.key key).0 mine) (w.0 mine) (dec_lt (count_at key inner) limit)
]
  where
    own :
        granted key cs (stored key (count_at key inner + 1) inner)
          ≡ min (asked key cs) (limit - count_at key (stored key (count_at key inner + 1) inner))
        → granted key cs (stored key (count_at key inner) inner)
          ≡ min (asked key cs) (limit - count_at key (stored key (count_at key inner) inner))
        → pair_beq c.key key ≡ true
        → c.key ≡ key
        → c.limit ≡ pos limit
        → Dec (count_at key inner < limit)
        → (if pair_beq c.key key && (charge c.key c.limit inner).0
            then granted key cs (charge c.key c.limit inner).1 + 1
            else granted key cs (charge c.key c.limit inner).1)
          ≡ min (asked key (c ∷ cs)) (limit - count_at key inner)
    own ih jh mine k l (yes h) =
        rw
          (
            mine,
            k,
            l,
            charge_under key limit inner h,
            ih,
            count_at-stored key key (count_at key inner + 1) inner,
            pair_refl key,
          )
          (omega arith)
    own ih jh mine k l (no h) =
        rw
          (
            mine,
            k,
            l,
            charge_over key limit inner (omega arith),
            jh,
            count_at-stored key key (count_at key inner) inner,
            pair_refl key,
          )
          (omega arith)
