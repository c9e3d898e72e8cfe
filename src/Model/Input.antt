-- ===== src/Model/Input.antt =====
-- lib/model/input.rs: account numbers, as they are made and checked.
use brdns.Prelude.{
  ℕ, zero, suc, ◌+◌, ◌%◌, ◌≡◌, Bool, true, ◌&&◌, ◌||◌, not, Option, none, some, List, [], ◌∷◌,
  arith, leb, ltb, ◌==◌, if◌then◌else◌, length, Option-cases, inl, inr,
}
use brdns.Prelude.Text.{Text, is_empty}

-- `c.is_ascii_alphanumeric() || c == '-'`. No byte of a longer UTF-8 character passes.
abbrev pub is_account_char : ℕ → Bool
is_account_char c =
    (leb b'0' c && leb c b'9')
    || ((leb b'a' c && leb c b'z') || ((leb b'A' c && leb c b'Z') || c == b'-'))

unfoldable pub all_account_chars : Text → Bool
all_account_chars [] = true
all_account_chars (c ∷ s) = is_account_char c && all_account_chars s

unfoldable pub is_valid_account_number : Text → Bool
unfolding is_empty all_account_chars
is_valid_account_number s = not (is_empty s) && (leb (length s) 64 && all_account_chars s)

-- The loop over the random bytes: a byte below 250 is a digit, any other is passed over. `none`
-- where the bytes end before `n` digits are there.
unfoldable pub digits : ℕ → List ℕ → Option Text
digits zero random = some []
digits (suc n) [] = none
digits (suc n) (b ∷ random) =
    let pushed = digits n random in
    let passed = digits (suc n) random in
    if ltb b 250 then elim pushed [ none ↦ none | some s ↦ some ((b % 10 + b'0') ∷ s) ] else passed

-- `random` is what the generator of OpenSSL hands out, byte by byte.
unfoldable pub generate_account_number : List ℕ → Option Text
unfolding digits
generate_account_number random = digits 16 random

digits-length : (n : ℕ) (random : List ℕ) (s : Text) → digits n random ≡ some s → length s ≡ n
unfolding digits
digits-length zero random s h = ground arith
digits-length (suc n) [] s h = ground arith
digits-length (suc n) (b ∷ random) s h = elim (Option-cases (digits n random)) [
  | inl e ↦ ground (arith, digits-length (suc n) random s)
  | inr (t, e) ↦ ground (arith, digits-length n random t e, digits-length (suc n) random s)
]

digit-is_account_char : (b : ℕ) → is_account_char (b % 10 + b'0') ≡ true
digit-is_account_char b = ground arith

digits-all :
    (n : ℕ) (random : List ℕ) (s : Text) → digits n random ≡ some s → all_account_chars s ≡ true
unfolding digits all_account_chars
digits-all zero random s h = ground arith
digits-all (suc n) [] s h = ground arith
digits-all (suc n) (b ∷ random) s h = elim (Option-cases (digits n random)) [
  | inl e ↦ ground (arith, digits-all (suc n) random s)
  | inr (t, e) ↦
      ground (arith, digit-is_account_char b, digits-all n random t e, digits-all (suc n) random s)
]

-- A generated number has 16 characters and is a valid account number.
pub generate_account_number-valid :
    (random : List ℕ) (s : Text)
    → generate_account_number random ≡ some s
    → (length s ≡ 16) × (is_valid_account_number s ≡ true)
unfolding generate_account_number is_valid_account_number is_empty
generate_account_number-valid random s h =
    let n = digits-length 16 random s h in let a = digits-all 16 random s h in (n, ground arith)
