-- ===== src/Net/Reserved.antt =====
-- packages/foundation/src/net/rfc6890.ts: the reserved blocks, by their CIDR.
use saas_foundation.Prelude.{List, [], ◌∷◌, String, map}
use saas_foundation.Text.{Text, text_of}

abbrev ipv4_blocks : List String
ipv4_blocks =
    "0.0.0.0/8" ∷ "10.0.0.0/8" ∷ "100.64.0.0/10" ∷ "127.0.0.0/8" ∷ "169.254.0.0/16"
    ∷ "172.16.0.0/12" ∷ "192.0.0.0/24" ∷ "192.0.2.0/24" ∷ "192.168.0.0/16" ∷ "198.18.0.0/15"
    ∷ "198.51.100.0/24" ∷ "203.0.113.0/24" ∷ "224.0.0.0/4" ∷ "240.0.0.0/4" ∷ "255.255.255.255/32"
    ∷ []

abbrev ipv6_blocks : List String
ipv6_blocks =
    "::1/128" ∷ "::/128" ∷ "::ffff:0:0/96" ∷ "::/96" ∷ "100::/64" ∷ "2001::/23" ∷ "2001::/32"
    ∷ "2001:2::/48" ∷ "2001:db8::/32" ∷ "2002::/16" ∷ "fc00::/7" ∷ "fe80::/10" ∷ "ff00::/8" ∷ []

unfoldable pub rfc6890_ipv4_reserved : List Text
rfc6890_ipv4_reserved = map text_of ipv4_blocks

unfoldable pub rfc6890_ipv6_reserved : List Text
rfc6890_ipv6_reserved = map text_of ipv6_blocks
