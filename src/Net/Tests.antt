-- ===== src/Net/Tests.antt =====
-- The theorems on addresses and blocks at concrete inputs.
use saas_foundation.Prelude.{
  ℕ, ◌-◌, ◌/◌, ◌^◌, ◌<◌, ◌≡◌, ◌≢◌, ◌↔◌, refl, arith, true, Option, none, some, List, [], ◌∷◌, All,
  same_numbers, if◌then◌else◌, is_digit,
}
use saas_foundation.Text.{Text, text_of, trim, trim_start, trim_end, is_space}
use saas_foundation.Net.Ipv4.{parse_ipv4, ipv4_in_cidr, decimal, is_digits}
use saas_foundation.Net.Ipv4.Spelling.{print_ipv4, parse_ipv4_iff}
use saas_foundation.Net.Ipv4.Octets.{show_octet}
use saas_foundation.Net.Ipv4.Prefix.{ipv4_in_cidr_iff}
use saas_foundation.Net.Ipv6.{ipv6_in_cidr}
use saas_foundation.Net.Ipv6.Prefix.{ipv6_in_cidr-bits, bits, take}
use saas_foundation.Net.Derive.{
  anonymize_ip_partial, trusted_client_ip, candidate_of, cloudflare, RequestSource, unknown,
}
use saas_foundation.Net.Derive.Anonymous.{anonymize_ip_partial-long_mapped, long_mapped}
use saas_foundation.Net.Derive.Trust.{trusted_client_ip_iff, Within, special_blocks}

-- 93.184.216.34
abbrev public_address : ℕ
public_address = 1572395042

parse_ipv4_iff_example :
    (parse_ipv4 (text_of "93.184.216.34") ≡ some public_address)
    ↔ ((public_address < 2 ^ 32) × (text_of "93.184.216.34" ≡ print_ipv4 public_address))
parse_ipv4_iff_example = parse_ipv4_iff (text_of "93.184.216.34") public_address

ipv4_in_cidr_iff_example :
    (ipv4_in_cidr public_address 1572343808 12 ≡ true)
    ↔ (public_address / 2 ^ (32 - 12) ≡ 1572343808 / 2 ^ (32 - 12))
ipv4_in_cidr_iff_example =
    ipv4_in_cidr_iff public_address 1572343808 12 (omega arith) (omega arith) (omega arith)

-- fe80::1 and fe80::
abbrev link_local : List ℕ
link_local = 254 ∷ 128 ∷ 0 ∷ 0 ∷ 0 ∷ 0 ∷ 0 ∷ 0 ∷ 0 ∷ 0 ∷ 0 ∷ 0 ∷ 0 ∷ 0 ∷ 0 ∷ 1 ∷ []

abbrev link_block : List ℕ
link_block = 254 ∷ 128 ∷ 0 ∷ 0 ∷ 0 ∷ 0 ∷ 0 ∷ 0 ∷ 0 ∷ 0 ∷ 0 ∷ 0 ∷ 0 ∷ 0 ∷ 0 ∷ 0 ∷ []

ipv6_in_cidr-bits_example :
    ipv6_in_cidr link_local link_block 10
    ≡ same_numbers (take 10 (bits link_local)) (take 10 (bits link_block))
ipv6_in_cidr-bits_example =
    ipv6_in_cidr-bits link_local link_block 10 refl refl (omega arith) (omega arith) (omega arith)

-- A reading of numbers: a text of digits as its value.
abbrev digits_only : Text → Option ℕ
digits_only s = if is_digits s then some (decimal s) else none

anonymize_ip_partial-long_mapped_example :
    anonymize_ip_partial (long_mapped public_address) ≡ long_mapped public_address
anonymize_ip_partial-long_mapped_example =
    anonymize_ip_partial-long_mapped public_address (omega arith)

abbrev from_cloudflare : RequestSource
from_cloudflare = record {
  cf_connecting_ip = some (text_of " 93.184.216.34");
  x_forwarded_for = none;
  remote_address = none;
}

trusted_client_ip_iff_example :
    (All (λ b. ¬ (Within public_address b)) special_blocks
      → trusted_client_ip digits_only from_cloudflare cloudflare ≡ print_ipv4 public_address)
    × (trusted_client_ip digits_only from_cloudflare cloudflare ≢ unknown
        → All (λ b. ¬ (Within public_address b)) special_blocks)
unfolding candidate_of print_ipv4 show_octet is_digits is_digit trim trim_start trim_end is_space
trusted_client_ip_iff_example =
    trusted_client_ip_iff digits_only (λ s h. rw h) from_cloudflare cloudflare public_address
      (omega arith) refl
