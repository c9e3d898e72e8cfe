-- ===== src/ControlPlane/Postgres/Charge.antt =====
-- `record_quota` of lib/controlplane/storage/postgres.rs against the counters in memory.
use brdns.Prelude.{
  ℕ, ◌+◌, ◌≡◌, refl, sym, ap, ◌∙◌, true, false, none, some, List, [], ◌∷◌, ◌++◌, arith,
  if◌then◌else◌, Bool-cases, Option-cases, inl, inr,
}
use brdns.Prelude.Int.{ℤ, pos, leb_ℤ}
use brdns.Prelude.Text.{Text}
use brdns.Prelude.Maps.{pair_beq, pair_beq_iff, pair_eq}
use brdns.Model.{Window}
use brdns.Quota.{Chrono, window_start}
use brdns.ControlPlane.{done, failed}
use brdns.ControlPlane.InMem.{Inner, count_at, charge}
use brdns.ControlPlane.InMem.QuotaCount.{count_at-stored}
use brdns.ControlPlane.Sql.{CounterRow, Store, execute}
use brdns.ControlPlane.Sql.Accounts.{select_account, account_exists}
use brdns.ControlPlane.Sql.Counters.{
  key_of, rule_exists, conflicting, increment, upsert_counter, with_counters,
}
use brdns.ControlPlane.Postgres.{id_of, is_some, record_quota}
use brdns.ControlPlane.Postgres.Ensured.{calm, select_account-exists}

-- The count of a rule's window, 0 where it has no row.
abbrev pub counter_of : ℕ × ℤ → List CounterRow → ℕ
counter_of key [] = 0
counter_of key (row ∷ rows) =
    let rest = counter_of key rows in if pair_beq (key_of row) key then row.count else rest

conflicting-counter_of :
    (key : ℕ × ℤ) (rows : List CounterRow) (row : CounterRow)
    → conflicting key rows ≡ some row
    → row.count ≡ counter_of key rows
unfolding conflicting
conflicting-counter_of key [] row h = cc h
conflicting-counter_of key (r ∷ rows) row h = ground (arith, h, conflicting-counter_of key rows row)

conflicting-none :
    (key : ℕ × ℤ) (rows : List CounterRow) → conflicting key rows ≡ none → counter_of key rows ≡ 0
unfolding conflicting
conflicting-none key [] h = refl
conflicting-none key (r ∷ rows) h = ground (arith, h, conflicting-none key rows)

pair_beq-same : (a b k : ℕ × ℤ) → pair_beq a b ≡ true → pair_beq a k ≡ pair_beq b k
pair_beq-same a b k h = ap (λ x. pair_beq x k) ((pair_beq_iff a b).0 h)

pair_beq-apart : (a b k : ℕ × ℤ) → pair_beq a b ≡ false → pair_beq b k ≡ true → pair_beq a k ≡ false
pair_beq-apart a b k h e = sym (ap (λ x. pair_beq a x) ((pair_beq_iff b k).0 e)) ∙ h

conflicting_head :
    (key : ℕ × ℤ) (r : CounterRow) (rows : List CounterRow)
    → pair_beq (key_of r) key ≡ true
    → conflicting key (r ∷ rows) ≡ some r
unfolding conflicting
conflicting_head key r rows e = rw (e, conflicting)

conflicting_tail :
    (key : ℕ × ℤ) (r : CounterRow) (rows : List CounterRow)
    → pair_beq (key_of r) key ≡ false
    → conflicting key (r ∷ rows) ≡ conflicting key rows
unfolding conflicting
conflicting_tail key r rows e = rw (e, conflicting)

counter_of-increment :
    (key k : ℕ × ℤ) (rows : List CounterRow) (row : CounterRow)
    → conflicting key rows ≡ some row
    → counter_of k (increment key rows)
      ≡ (if pair_beq key k then counter_of key rows + 1 else counter_of k rows)
unfolding increment
counter_of-increment key k [] row h = unfold conflicting in cc h
counter_of-increment key k (r ∷ rows) row h = elim (Bool-cases (pair_beq (key_of r) key)) [
  | inl e ↦ elim (Bool-cases (pair_beq key k)) [
    | inl f ↦ rw (e, pair_beq-same (key_of r) key k e, f) refl
    | inr f ↦ rw (e, pair_beq-same (key_of r) key k e, f) refl
  ]
  | inr e ↦
      let ih = counter_of-increment key k rows row (sym (conflicting_tail key r rows e) ∙ h) in
      elim (Bool-cases (pair_beq key k)) [
        | inl f ↦ rw (e, pair_beq-apart (key_of r) key k e f, f) (ih ∙ rw f refl)
        | inr f ↦ rw (e, f, ih) (rw f refl)
      ]
]

counter_of-append :
    (key k : ℕ × ℤ) (rows : List CounterRow) (account : ℕ)
    → conflicting key rows ≡ none
    → counter_of k (
        rows
        ++ (record { account_id = account; rule_id = key.0; window_start = key.1; count = 1 } ∷ []))
      ≡ (if pair_beq key k then 1 else counter_of k rows)
counter_of-append key k [] account h = refl
counter_of-append key k (r ∷ rows) account h = elim (Bool-cases (pair_beq (key_of r) key)) [
  | inl e ↦ cc (sym (conflicting_head key r rows e) ∙ h)
  | inr e ↦
      let ih = counter_of-append key k rows account (sym (conflicting_tail key r rows e) ∙ h) in
      elim (Bool-cases (pair_beq key k)) [
        | inl f ↦ rw (pair_beq-apart (key_of r) key k e f, f) (ih ∙ rw f refl)
        | inr f ↦ rw (f, ih) (rw f refl)
      ]
]

-- What an upsert answers and leaves, where the account and the rule exist.
abbrev IsUpserted : ℕ → ℕ × ℤ → ℤ → Store → Type 0
IsUpserted account key limit s =
    let c = counter_of key s.tables.quota_counters in
    (rows : List CounterRow) × (upsert_counter account key.0 key.1 limit s
      ≡ (done (if leb_ℤ limit (pos c) then none else some (c + 1)), with_counters rows s))
    × ((k : ℕ × ℤ)
        → counter_of k rows ≡ (
            if leb_ℤ limit (pos c)
            then counter_of k s.tables.quota_counters
            else (if pair_beq key k then c + 1 else counter_of k s.tables.quota_counters)))

upsert_counter-IsUpserted :
    (account : ℕ) (key : ℕ × ℤ) (limit : ℤ) (s : Store)
    → account_exists account s.tables ≡ true
    → rule_exists key.0 s.tables ≡ true
    → leb_ℤ limit (pos 0) ≡ false
    → IsUpserted account key limit s
unfolding upsert_counter
upsert_counter-IsUpserted account key limit s a b l =
    elim (Option-cases (conflicting key s.tables.quota_counters)) [
      | inl e ↦
          let z = conflicting-none key s.tables.quota_counters e in
          (
            s.tables.quota_counters
                ++ (record {
                  account_id = account;
                  rule_id = key.0;
                  window_start = key.1;
                  count = 1;
                }
                    ∷ []),
            rw (e, a, b, z, l, upsert_counter),
            λ k. rw (z, l) (counter_of-append key k s.tables.quota_counters account e),
          )
      | inr (row, e) ↦
          let n = conflicting-counter_of key s.tables.quota_counters row e in
          elim (Bool-cases (leb_ℤ limit (pos (counter_of key s.tables.quota_counters)))) [
            | inl f ↦ (s.tables.quota_counters, rw (e, n, f, upsert_counter), λ k. rw f refl)
            | inr f ↦ (
              increment key s.tables.quota_counters,
              rw (e, n, f, upsert_counter),
              λ k. rw f (counter_of-increment key k s.tables.quota_counters row e),
            )
          ]
    ]

charge-counts :
    (key k : ℕ × ℤ) (limit : ℤ) (inner : Inner)
    → count_at k (charge key limit inner).1 ≡ (
        if leb_ℤ limit (pos (count_at key inner))
        then count_at k inner
        else (if pair_beq key k then count_at key inner + 1 else count_at k inner))
unfolding charge
charge-counts key k limit inner = elim (Bool-cases (leb_ℤ limit (pos (count_at key inner)))) [
  | inl e ↦ rw e (
      count_at-stored key k (count_at key inner) inner ∙ elim (Bool-cases (pair_beq key k)) [
        | inl f ↦ rw f (ap (λ x. count_at x inner) ((pair_beq_iff key k).0 f))
        | inr f ↦ rw f refl
      ])
  | inr e ↦ rw e (count_at-stored key k (count_at key inner + 1) inner)
]

charge-answer :
    (key : ℕ × ℤ) (limit : ℤ) (inner : Inner) (c : ℕ)
    → c ≡ count_at key inner
    → is_some (if leb_ℤ limit (pos c) then none else some (c + 1)) ≡ (charge key limit inner).0
unfolding charge
charge-answer key limit inner c h = elim (Bool-cases (leb_ℤ limit (pos (count_at key inner)))) [
  | inl e ↦ rw (h, e) refl
  | inr e ↦ rw (h, e) refl
]

-- Each window of each rule has the same count here as in memory.
abbrev pub SameCounts : Store → Inner → Type 0
SameCounts s inner = (k : ℕ × ℤ) → counter_of k s.tables.quota_counters ≡ count_at k inner

upserted-SameCounts :
    (key : ℕ × ℤ) (limit : ℤ) (s : Store) (inner : Inner) (rows : List CounterRow)
    → SameCounts s inner
    → ((k : ℕ × ℤ)
        → counter_of k rows ≡ (
            if leb_ℤ limit (pos (counter_of key s.tables.quota_counters))
            then counter_of k s.tables.quota_counters
            else (if pair_beq key k
                then counter_of key s.tables.quota_counters + 1
                else counter_of k s.tables.quota_counters)))
    → SameCounts (with_counters rows s) (charge key limit inner).1
upserted-SameCounts key limit s inner rows same h k =
    h k ∙ rw (same key, same k) (sym (charge-counts key k limit inner))

module _ ⦃c : Chrono⦄ where
  abbrev pub IsCharged : ℤ → Text → ℕ × ℤ → ℤ → Window → Store → Inner → Type 0
  IsCharged now number key limit window s inner =
      (after : Store) × (record_quota now number key.0 limit window (calm s)
        ≡ (done (charge key limit inner).0, calm after))
      × SameCounts after (charge key limit inner).1

  -- For a stored rule of a stored account, a budget above 0 and a window that the date library has
  -- a start for, a call whose statements go well is answered as the control plane in memory
  -- answers it; where the counts were the same as there, they stay the same.
  pub record_quota-IsCharged :
      (now : ℤ) (number : Text) (id : ℕ) (key : ℕ × ℤ) (limit : ℤ) (window : Window) (s : Store)
      (inner : Inner)
      → id_of (select_account number s.tables) ≡ some id
      → rule_exists key.0 s.tables ≡ true
      → window_start now window ≡ some key.1
      → leb_ℤ limit (pos 0) ≡ false
      → SameCounts s inner
      → IsCharged now number key limit window s inner
  unfolding record_quota execute
  record_quota-IsCharged now number id key limit window s inner a r w l same =
      let x = select_account-exists number s.tables id a in
      let (rows, e, counts) = upsert_counter-IsUpserted id key limit s x r l in
      (
        with_counters rows s,
        rw (l, a, w, e, charge-answer key limit inner _ (same key)),
        upserted-SameCounts key limit s inner rows same counts,
      )

  -- A rule that is no longer stored, and has no counter for the window: the call is an error.
  pub record_quota-stale :
      (now : ℤ) (number : Text) (id : ℕ) (key : ℕ × ℤ) (limit : ℤ) (window : Window) (s : Store)
      → id_of (select_account number s.tables) ≡ some id
      → rule_exists key.0 s.tables ≡ false
      → conflicting key s.tables.quota_counters ≡ none
      → window_start now window ≡ some key.1
      → leb_ℤ limit (pos 0) ≡ false
      → record_quota now number key.0 limit window (calm s) ≡ (failed, calm s)
  unfolding record_quota execute upsert_counter
  record_quota-stale now number id key limit window s a r f w l =
      let x = select_account-exists number s.tables id a in rw (l, a, w, f, x, r)
