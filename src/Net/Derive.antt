-- ===== src/Net/Derive.antt =====
-- packages/foundation/src/net/derive.ts: the shape of an address, its anonymous form, and the address that
-- a request is taken to come from.
pub mod Trust
pub mod Anonymous
use saas_foundation.Prelude.{
  ℕ, Bool, true, false, not, ◌&&◌, ◌||◌, Option, none, some, List, [], ◌∷◌, ◌++◌, map, any, all,
  ltb, leb, ◌==◌, if◌then◌else◌, length, or_else, is_digit,
}
use saas_foundation.Text.{Text, text_of, split, has, trim}
use saas_foundation.Net.Ipv4.{matches_ipv4, is_ipv4_in_cidr}
use saas_foundation.Net.Ipv6.{cut_double, non_empty, last, strip_zone, is_ipv6_in_cidr}
use saas_foundation.Net.Reserved.{rfc6890_ipv4_reserved, rfc6890_ipv6_reserved}

unfoldable pub is_body_char : ℕ → Bool
unfolding is_digit
is_body_char c =
    is_digit c || leb b'a' c && leb c b'f' || leb b'A' c && leb c b'F' || c == b':' || c == b'.'

-- `IPV6_BODY_RE.test(s)`
unfoldable pub matches_ipv6_body : Text → Bool
unfolding is_body_char
matches_ipv6_body [] = false
matches_ipv6_body (c ∷ s) = all is_body_char (c ∷ s)

unfoldable pub is_ip_shape : Text → Bool
unfolding matches_ipv4 matches_ipv6_body strip_zone has
is_ip_shape s =
    if length s == 0 || ltb 64 (length s)
    then false
    else if matches_ipv4 s
    then true
    else if not (has b':' s)
    then false
    else matches_ipv6_body (strip_zone s)

-- What `.` of a regular expression does not match.
unfoldable pub is_line_end : ℕ → Bool
is_line_end c = c == 10 || c == 13 || c == 0x2028 || c == 0x2029

-- `ip.replace(/%.*$/, "")`: from the first `%` that no line end follows
unfoldable pub drop_zone : Text → Text
unfolding is_line_end
drop_zone [] = []
drop_zone (c ∷ s) =
    let rest = drop_zone s in if c == b'%' && not (any is_line_end s) then [] else c ∷ rest

-- `number` is the language's `Number` of a text, where it is a natural number.
module _ (number : Text → Option ℕ) where
  unfoldable pub is_reserved_ip : Text → Bool
  unfolding drop_zone is_ipv4_in_cidr is_ipv6_in_cidr
  is_reserved_ip ip =
      if length ip == 0
      then false
      else if matches_ipv4 ip
      then any (is_ipv4_in_cidr number ip) rfc6890_ipv4_reserved
      else if has b':' ip && matches_ipv6_body (drop_zone ip)
      then any (is_ipv6_in_cidr number ip) rfc6890_ipv6_reserved
      else false

pub data TrustedProxyMode : Type 0 where
  no_proxy alb cloudflare : TrustedProxyMode

-- What is read of a request: two headers and the address of the socket, where they are there.
pub record RequestSource : Type 0 where
  pub cf_connecting_ip : Option Text
  pub x_forwarded_for : Option Text
  pub remote_address : Option Text

unfoldable pub remote_addr_from_request : RequestSource → Option Text
remote_addr_from_request r = elim r.remote_address [
  | none ↦ none
  | some candidate ↦ if ltb 0 (length candidate) then some candidate else none
]

unfoldable pub candidate_of : TrustedProxyMode → RequestSource → Option Text
unfolding remote_addr_from_request last non_empty split trim
candidate_of cloudflare r = elim r.cf_connecting_ip [ none ↦ none | some cf ↦ some (trim cf) ]
candidate_of alb r = elim r.x_forwarded_for [
  | none ↦ none
  | some xff ↦ last (non_empty (map trim (split b',' xff)))
]
candidate_of no_proxy r = remote_addr_from_request r

abbrev pub unknown : Text
unknown = text_of "unknown"

module _ (number : Text → Option ℕ) where
  unfoldable pub trusted_client_ip : RequestSource → TrustedProxyMode → Text
  unfolding candidate_of is_ip_shape is_reserved_ip
  trusted_client_ip r mode = elim (candidate_of mode r) [
    | none ↦ unknown
    | some candidate ↦
        if not (is_ip_shape candidate)
        then unknown
        else if is_reserved_ip number candidate
        then unknown
        else candidate
  ]

-- `${parts[0]}:${parts[1]}:${parts[2]}:${parts[3]}::`, where there are four
unfoldable pub first_hextets : List Text → Option Text
first_hextets (a ∷ b ∷ c ∷ d ∷ parts) =
    some (a ++ (b':' ∷ (b ++ (b':' ∷ (c ++ (b':' ∷ (d ++ (b':' ∷ b':' ∷ []))))))))
first_hextets _ = none

-- `${parts[0]}.${parts[1]}.${parts[2]}.0`
unfoldable pub zero_last_octet : List Text → Text
zero_last_octet (a ∷ b ∷ c ∷ parts) = a ++ (b'.' ∷ (b ++ (b'.' ∷ (c ++ (b'.' ∷ b'0' ∷ [])))))
zero_last_octet _ = []

unfoldable pub anonymize_ip_partial : Text → Text
unfolding strip_zone
anonymize_ip_partial ip =
    let addr = strip_zone ip in
    if length ip == 0
    then ip
    else if matches_ipv4 ip
    then zero_last_octet (split b'.' ip)
    else elim (cut_double addr) [
      | some (a, b) ↦
          or_else (first_hextets (non_empty (split b':' (a ++ (text_of ":0:0:0:0:0:0:0:0:" ++ b)))))
            (addr ++ text_of "::")
      | none ↦
          if length (split b':' addr) == 8 then or_else (first_hextets (split b':' addr)) ip else ip
    ]

pub data IpAnonymizationLevel : Type 0 where
  as_is partial hash : IpAnonymizationLevel

pub record IpAnonymizer : Type 0 where
  pub hash_salt : Option Text
  pub default_level : IpAnonymizationLevel

unfoldable pub first_units : ℕ → Text → Text
first_units ℕ.zero s = []
first_units (ℕ.suc n) [] = []
first_units (ℕ.suc n) (c ∷ s) = c ∷ first_units n s

-- `hmac` is HMAC-SHA-256 under a key, in hex; the result is `none` where the source throws.
module _ (hmac : Text → Text → Text) where
  unfoldable pub hash_ip : Text → Text → Text
  unfolding first_units
  hash_ip ip salt = text_of "hashed:v1:" ++ first_units 16 (hmac salt ip)

  unfoldable pub at_level : IpAnonymizer → IpAnonymizationLevel → Text → Option Text
  unfolding hash_ip anonymize_ip_partial
  at_level a as_is ip = some ip
  at_level a hash ip = elim a.hash_salt [ none ↦ none | some salt ↦ some (hash_ip ip salt) ]
  at_level a partial ip = some (anonymize_ip_partial ip)

  unfoldable pub anonymize : IpAnonymizer → Text → Option IpAnonymizationLevel → Option Text
  unfolding at_level
  anonymize a ip level = at_level a (or_else level a.default_level) ip
