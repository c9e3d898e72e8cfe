-- ===== src/Tests/Names.antt =====
-- Names: the wire form of lib/buffer.rs, the hosts of lib/identity.rs, and the categories.
use brdns.Prelude.{
  ◌≡◌, ◌≢◌, ◌↔◌, refl, true, false, none, some, [], ◌∷◌, ◌++◌, arith, replicate, length, ◌<◌, ◌≤◌,
}
use brdns.Prelude.Text.{
  Text, bytes, dot, lower_byte, trim_end, trim_start, trim_star_dot, split, join,
}
use brdns.Buffer.{BytePacketBuffer, ok, err, new, label_too_long}
use brdns.Buffer.Writing.{new-Fits}
use brdns.Buffer.Qname.{read_qname, write_qname, is_pointer, offset_of}
use brdns.Buffer.WriteName.{write_qname_long}
use brdns.Buffer.Labels.{Reads-read_qname}
use brdns.Buffer.Pointer.{read_qname-pointer}
use brdns.Buffer.Bounds.{read_qname_bounds}
use brdns.Identity.{account_from_sni}
use brdns.Identity.Sni.{Names, account_from_sni_iff}
use brdns.Categories.{CategoryIndex, contains, labels, normalize_domain}
use brdns.Categories.Lookup.{IsListed, contains_iff}
use brdns.RuleEngine.{normalize, matches_target}
use brdns.RuleEngine.Targets.{IsWithin, matches_target_wildcard}
use brdns.Model.{wildcard}
use brdns.Categories.{has_category, set_contains}
use brdns.Blocklist.{
  FeedFormat, parse_domains, parse_hosts_line, parse_adblock_line, Whitespace, sanitize, Fetched,
  merge,
}
use brdns.Blocklist.Merge.{listed, has_category-merge}
use brdns.Receiver.Doh.{decode_bytes}
use brdns.Receiver.Doh.Percent.{percent_encode, decode_bytes-percent_encode}
use brdns.Prelude.{◌||◌, List}
use brdns.Tests.Data.{ascii, example, com_label, example_com, example-IsLabel, com_label-IsLabel}

-- `com_label` at the front, and `example` continued by a pointer to it.
abbrev compressed : BytePacketBuffer
compressed = record { buf = 3 ∷ (com_label ++ (0 ∷ 7 ∷ (example ++ (0xC0 ∷ 0 ∷ [])))); pos = 5 }

read_qname-pointer_example :
    read_qname [] compressed ≡ ok (example_com, record compressed { pos = 15 })
unfolding is_pointer offset_of join
read_qname-pointer_example =
    read_qname-pointer [] (example ∷ []) (com_label ∷ []) 0xC0 0 compressed []
      (7 ∷ (example ++ (0xC0 ∷ 0 ∷ []))) (example-IsLabel, tt) (com_label-IsLabel, tt) refl refl
      refl

abbrev plain : BytePacketBuffer
plain = record { buf = 7 ∷ (example ++ (3 ∷ (com_label ++ (0 ∷ 9 ∷ [])))); pos = 0 }

plain_name : read_qname [] plain ≡ ok (example_com, record plain { pos = 13 })
unfolding join
plain_name =
    Reads-read_qname [] (example ∷ com_label ∷ []) (example-IsLabel, (com_label-IsLabel, tt)) plain
      (9 ∷ []) refl

read_qname_bounds_example :
    (compressed.buf ≡ compressed.buf) × (5 < 15) × (15 ≤ length compressed.buf)
read_qname_bounds_example =
    read_qname_bounds [] compressed (record compressed { pos = 15 }) example_com
      read_qname-pointer_example

abbrev long : Text
long = replicate 64 b'a'

write_qname_long_example : write_qname (example ++ (dot ∷ long)) new ≡ err label_too_long
unfolding split
write_qname_long_example =
    write_qname_long (example ++ (dot ∷ long)) (example ∷ []) long [] new refl (omega arith, tt)
      (omega arith) new-Fits

account_from_sni_iff_example :
    (account_from_sni (bytes "1234.dns.example.com.") (bytes ".dns.example.com")
      ≡ some (bytes "1234"))
    ↔ Names (bytes "1234.dns.example.com.") (bytes ".dns.example.com") (bytes "1234")
account_from_sni_iff_example =
    account_from_sni_iff (bytes "1234.dns.example.com.") (bytes ".dns.example.com") (bytes "1234")

named : account_from_sni (bytes "1234.example.com") example_com ≡ some (bytes "1234")
unfolding account_from_sni
named = refl

named_dotted : account_from_sni (bytes "1234.example.com.") example_com ≡ some (bytes "1234")
unfolding account_from_sni
named_dotted = refl

-- More than one label in front of the base names no account.
unnamed : account_from_sni (bytes "a.b.example.com") example_com ≡ none
unfolding account_from_sni
unnamed = refl

abbrev ads : CategoryIndex
ads = record { map = (example_com, bytes "ads" ∷ []) ∷ [] }

contains_iff_example :
    (contains ads (bytes "Sub.Example.COM.") (bytes "ads") ≡ true)
    ↔ IsListed ads.map
        (bytes "ads")
        (labels (split dot (normalize_domain (bytes "Sub.Example.COM."))))
contains_iff_example = contains_iff ads (bytes "Sub.Example.COM.") (bytes "ads")

contains_run : contains ads (bytes "Sub.Example.COM.") (bytes "ads") ≡ true
unfolding contains lower_byte
contains_run = refl

matches_target_wildcard_example :
    (matches_target (bytes "ads.example.com") wildcard (bytes "*.example.com") ≡ true) ↔ (
      (normalize (trim_star_dot (bytes "*.example.com")) ≢ [])
      × IsWithin
          (normalize (trim_star_dot (bytes "*.example.com")))
          (normalize (bytes "ads.example.com")))
matches_target_wildcard_example =
    matches_target_wildcard (bytes "ads.example.com") (bytes "*.example.com")

matches_target_run :
    matches_target (bytes "badexample.com") wildcard (bytes "*.example.com") ≡ false
unfolding matches_target lower_byte
matches_target_run = refl

-- White space of ASCII, for the tests.
abbrev spaces : Whitespace
spaces = record { trim = λ t. trim_end 32 (trim_start 32 t); split_whitespace = λ t. split 32 t }

abbrev fetched : List Fetched
fetched =
    some (bytes "ads" ∷ [], example_com ∷ []) ∷ none ∷ some (bytes "tv" ∷ [], example_com ∷ []) ∷ []

has_category-merge_example :
    has_category (merge fetched []) example_com (bytes "tv")
    ≡ (has_category [] example_com (bytes "tv") || listed fetched example_com (bytes "tv"))
has_category-merge_example = has_category-merge fetched [] example_com (bytes "tv")

decode_bytes-percent_encode_example :
    decode_bytes (percent_encode (0 ∷ 43 ∷ 255 ∷ [])) ≡ some (0 ∷ 43 ∷ 255 ∷ [])
decode_bytes-percent_encode_example =
    decode_bytes-percent_encode (0 ∷ 43 ∷ 255 ∷ []) (omega arith, (omega arith, (omega arith, tt)))

-- A hexadecimal escape whose second digit is cut by a character of two bytes ends in a panic.
decode_panic : decode_bytes (b'%' ∷ b'a' ∷ 0xC3 ∷ 0xA9 ∷ []) ≡ none
unfolding decode_bytes
decode_panic = refl

-- A hosts file: the address is left out, and so is a name without a dot.
hosts_run :
    parse_domains ⦃w = spaces⦄ FeedFormat.hosts
      (bytes "0.0.0.0 Ads.Example.com localhost\n# note\n")
    ≡ bytes "ads.example.com" ∷ []
unfolding parse_domains sanitize lower_byte trim_start parse_hosts_line set_contains
hosts_run = refl

adblock_run :
    parse_domains ⦃w = spaces⦄ FeedFormat.adblock
      (bytes "||ads.example.com^\n@@||good.example.com^\n")
    ≡ bytes "ads.example.com" ∷ []
unfolding parse_domains sanitize lower_byte trim_start parse_adblock_line set_contains
adblock_run = refl
