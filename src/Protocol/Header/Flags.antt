-- ===== src/Protocol/Header/Flags.antt =====
-- The two bytes of flags, and the fields that are put into them.
use brdns.Prelude.{
  ℕ, ◌*◌, ◌/◌, ◌%◌, ◌^◌, ◌<◌, ◌≡◌, refl, bit_and, bit_or, Bool, true, false, ◌&&◌, ltb, ltb→lt,
  ◌==◌, ==_iff, arith,
}
use brdns.Prelude.Bits.{each_below, each_below_lem, both, both_sound, same}
use brdns.Protocol.Header.{
  ResultCode, DnsHeader, high_flags, low_flags, from_num, to_num, flag, as_u8,
}

-- `high_flags` and `low_flags` as functions of the fields that they read.
abbrev pub high_of : Bool → Bool → Bool → ℕ → Bool → ℕ
high_of rd tc aa op qr =
    bit_or
      (bit_or (bit_or (bit_or (as_u8 rd) (as_u8 tc * 2 ^ 1)) (as_u8 aa * 2 ^ 2))
        (op * 2 ^ 3 % 2 ^ 8))
      (as_u8 qr * 2 ^ 7)

abbrev pub low_of : ℕ → Bool → Bool → Bool → Bool → ℕ
low_of code cd ad z ra =
    bit_or (bit_or (bit_or (bit_or code (as_u8 cd * 2 ^ 4)) (as_u8 ad * 2 ^ 5)) (as_u8 z * 2 ^ 6))
      (as_u8 ra * 2 ^ 7)

high_holds : Bool → Bool → Bool → ℕ → Bool → ℕ → Bool
high_holds rd tc aa op qr a =
    ltb a 256
    && (same (flag a 0) rd
        && (same (flag a 1) tc
            && (same (flag a 2) aa && (bit_and (a / 2 ^ 3) 0x0F == op && same (flag a 7) qr))))

low_holds : ℕ → Bool → Bool → Bool → Bool → ℕ → Bool
low_holds code cd ad z ra b =
    ltb b 256
    && (bit_and b 0x0F == code
        && (same (flag b 4) cd
            && (same (flag b 5) ad && (same (flag b 6) z && same (flag b 7) ra))))

high_table :
    both (λ rd. both (λ tc. both (λ aa.
      both (λ qr. each_below 16 (λ op. high_holds rd tc aa op qr (high_of rd tc aa op qr))))))
    ≡ true
unfolding both each_below high_holds same
high_table = refl

low_table :
    both (λ cd. both (λ ad. both (λ z.
      both (λ ra. each_below 16 (λ code. low_holds code cd ad z ra (low_of code cd ad z ra))))))
    ≡ true
unfolding both each_below low_holds same
low_table = refl

pub record HighHolds (rd tc aa : Bool) (op : ℕ) (qr : Bool) (a : ℕ) : Type 0 where
  pub byte : a < 256
  pub rd_lem : flag a 0 ≡ rd
  pub tc_lem : flag a 1 ≡ tc
  pub aa_lem : flag a 2 ≡ aa
  pub op_lem : bit_and (a / 2 ^ 3) 0x0F ≡ op
  pub qr_lem : flag a 7 ≡ qr

pub record LowHolds (code : ℕ) (cd ad z ra : Bool) (b : ℕ) : Type 0 where
  pub byte : b < 256
  pub code_lem : bit_and b 0x0F ≡ code
  pub cd_lem : flag b 4 ≡ cd
  pub ad_lem : flag b 5 ≡ ad
  pub z_lem : flag b 6 ≡ z
  pub ra_lem : flag b 7 ≡ ra

same_lem : (a b : Bool) → same a b ≡ true → a ≡ b
unfolding same
same_lem true b h = ground arith
same_lem false b h = ground arith

and_split : (a b : Bool) → (a && b) ≡ true → (a ≡ true) × (b ≡ true)
and_split true b h = (refl, h)
and_split false b h = cc

HighHolds-of :
    (rd tc aa : Bool) (op : ℕ) (qr : Bool) (a : ℕ)
    → high_holds rd tc aa op qr a ≡ true
    → HighHolds rd tc aa op qr a
unfolding high_holds
HighHolds-of rd tc aa op qr a h =
    let p1 = and_split _ _ h in
    let p2 = and_split _ _ p1.1 in
    let p3 = and_split _ _ p2.1 in
    let p4 = and_split _ _ p3.1 in
    let p5 = and_split _ _ p4.1 in
    record {
      byte = ltb→lt a 256 p1.0;
      rd_lem = same_lem _ _ p2.0;
      tc_lem = same_lem _ _ p3.0;
      aa_lem = same_lem _ _ p4.0;
      op_lem = (==_iff _ _).0 p5.0;
      qr_lem = same_lem _ _ p5.1;
    }

LowHolds-of :
    (code : ℕ) (cd ad z ra : Bool) (b : ℕ)
    → low_holds code cd ad z ra b ≡ true
    → LowHolds code cd ad z ra b
unfolding low_holds
LowHolds-of code cd ad z ra b h =
    let p1 = and_split _ _ h in
    let p2 = and_split _ _ p1.1 in
    let p3 = and_split _ _ p2.1 in
    let p4 = and_split _ _ p3.1 in
    let p5 = and_split _ _ p4.1 in
    record {
      byte = ltb→lt b 256 p1.0;
      code_lem = (==_iff _ _).0 p2.0;
      cd_lem = same_lem _ _ p3.0;
      ad_lem = same_lem _ _ p4.0;
      z_lem = same_lem _ _ p5.0;
      ra_lem = same_lem _ _ p5.1;
    }

-- Each field is found in the byte that was put together, for each opcode of four bits.
pub high_of_holds :
    (rd tc aa : Bool) (op : ℕ) (qr : Bool)
    → op < 16
    → HighHolds rd tc aa op qr (high_of rd tc aa op qr)
high_of_holds rd tc aa op qr h = HighHolds-of rd tc aa op qr _ (
    each_below_lem (λ o. high_holds rd tc aa o qr (high_of rd tc aa o qr)) 16 op h
      (both_sound _ qr (both_sound _ aa (both_sound _ tc (both_sound _ rd high_table)))))

pub low_of_holds :
    (code : ℕ) (cd ad z ra : Bool) → code < 16 → LowHolds code cd ad z ra (low_of code cd ad z ra)
low_of_holds code cd ad z ra h = LowHolds-of code cd ad z ra _ (
    each_below_lem (λ c. low_holds c cd ad z ra (low_of c cd ad z ra)) 16 code h
      (both_sound _ ra (both_sound _ z (both_sound _ ad (both_sound _ cd low_table)))))

pub to_num_lt : (c : ResultCode) → to_num c < 16
unfolding to_num
to_num_lt c = ground arith

pub from_num-to_num : (c : ResultCode) → from_num (to_num c) ≡ c
unfolding from_num to_num
from_num-to_num c = ground arith

pub high_flags_holds :
    (h : DnsHeader)
    → h.opcode < 16
    → HighHolds h.recursion_desired h.truncated_message h.authoritative_answer h.opcode h.response
        (high_flags h)
unfolding high_flags
high_flags_holds h w =
    high_of_holds h.recursion_desired h.truncated_message h.authoritative_answer h.opcode h.response
      w

pub low_flags_holds :
    (h : DnsHeader)
    → LowHolds
        (to_num h.rescode)
        h.checking_disabled
        h.authed_data
        h.z
        h.recursion_available
        (low_flags h)
unfolding low_flags
low_flags_holds h =
    low_of_holds (to_num h.rescode) h.checking_disabled h.authed_data h.z h.recursion_available
      (to_num_lt h.rescode)
