-- ===== src/Net/Ipv4/Spelling.antt =====
-- An IPv4 address has one spelling: what `parseIPv4` of packages/foundation/src/net/cidr.ts accepts, and
-- that `IPV4_RE` of derive.ts accepts the same texts.
use saas_foundation.Prelude.{
  ℕ, ◌+◌, ◌/◌, ◌%◌, ◌^◌, ◌≤◌, ◌<◌, ◌≡◌, refl, sym, ap, ◌∙◌, ◌↔◌, true, false, none, some, List, [],
  ◌∷◌, arith, ◌==◌, if◌then◌else◌, is_some, length, length-append, all, Option-cases, Bool-cases,
  inl, inr,
}
use saas_foundation.Text.{Text, split, split_parts, has}
use saas_foundation.Text.Parts.{join_parts, join_parts-split, split-join_parts}
use saas_foundation.Net.Ipv4.{octet, shift_in, read_octets, parse_ipv4, matches_octet, matches_ipv4}
use saas_foundation.Net.Ipv4.Octets.{show_octet, octet-matches, octet_spelled, octet-show_octet}

-- The dotted decimal form of a number of 32 bits.
unfoldable pub print_ipv4 : ℕ → Text
unfolding join_parts
print_ipv4 n =
    join_parts b'.' (show_octet (n / 2 ^ 24))
      (show_octet (n / 2 ^ 16 % 256) ∷ show_octet (n / 2 ^ 8 % 256) ∷ show_octet (n % 256) ∷ [])

pub show_octet-has : (n : ℕ) → has b'.' (show_octet n) ≡ false
unfolding show_octet has
show_octet-has n = ground arith

read_matches : (n : ℕ) (parts : List Text) → all matches_octet parts ≡ is_some (read_octets n parts)
unfolding read_octets
read_matches n [] = refl
read_matches n (p ∷ parts) = elim (Option-cases (octet p)) [
  | inl bad ↦ rw (octet-matches p, bad, read_octets)
  | inr (m, good) ↦ rw (octet-matches p, good, read_octets) (read_matches (shift_in n m) parts)
]

-- The pattern and the parser accept the same texts.
pub matches_ipv4-parse_ipv4 : (s : Text) → matches_ipv4 s ≡ is_some (parse_ipv4 s)
unfolding matches_ipv4 parse_ipv4
matches_ipv4-parse_ipv4 s = elim (Bool-cases (length (split b'.' s) == 4)) [
  | inl four ↦ rw four (read_matches 0 (split b'.' s))
  | inr other ↦ rw other
]

read_octets-cons :
    (result n : ℕ) (p : Text) (parts : List Text)
    → read_octets result (p ∷ parts) ≡ some n
    → (a : ℕ) × (octet p ≡ some a) × (read_octets (shift_in result a) parts ≡ some n)
unfolding read_octets
read_octets-cons result n p parts h = elim (Option-cases (octet p)) [
  | inl bad ↦ absurd (cc (rw (bad, read_octets) at h))
  | inr (a, good) ↦ (a, good, rw (good, read_octets) at h)
]

-- Four octets in base 256.
word_of : ℕ → ℕ → ℕ → ℕ → ℕ
unfolding shift_in
word_of a b c d = shift_in (shift_in (shift_in (shift_in 0 a) b) c) d

word_digits :
    (a b c d : ℕ)
    → a < 256
    → b < 256
    → c < 256
    → d < 256
    → (word_of a b c d < 2 ^ 32)
      × (word_of a b c d / 2 ^ 24 ≡ a)
      × (word_of a b c d / 2 ^ 16 % 256 ≡ b)
      × (word_of a b c d / 2 ^ 8 % 256 ≡ c)
      × (word_of a b c d % 256 ≡ d)
unfolding word_of
word_digits a b c d ha hb hc hd = omega arith

word_whole :
    (n : ℕ) → n < 2 ^ 32 → word_of (n / 2 ^ 24) (n / 2 ^ 16 % 256) (n / 2 ^ 8 % 256) (n % 256) ≡ n
unfolding word_of
word_whole n h = omega arith

print-word :
    (a b c d : ℕ)
    → a < 256
    → b < 256
    → c < 256
    → d < 256
    → print_ipv4 (word_of a b c d)
      ≡ join_parts b'.' (show_octet a) (show_octet b ∷ show_octet c ∷ show_octet d ∷ [])
unfolding print_ipv4
print-word a b c d ha hb hc hd =
    let (_, ea, eb, ec, ed) = word_digits a b c d ha hb hc hd in rw (ea, eb, ec, ed)

-- Four octets that are read give the number of their digits in base 256.
read_four :
    (p q r t : Text) (n : ℕ)
    → read_octets 0 (p ∷ q ∷ r ∷ t ∷ []) ≡ some n
    → (n < 2 ^ 32) × (join_parts b'.' p (q ∷ r ∷ t ∷ []) ≡ print_ipv4 n)
unfolding read_octets word_of
read_four p q r t n h =
    let (a, ha, h1) = read_octets-cons 0 n p (q ∷ r ∷ t ∷ []) h in
    let (b, hb, h2) = read_octets-cons (shift_in 0 a) n q (r ∷ t ∷ []) h1 in
    let (c, hc, h3) = read_octets-cons (shift_in (shift_in 0 a) b) n r (t ∷ []) h2 in
    let (d, hd, h4) = read_octets-cons (shift_in (shift_in (shift_in 0 a) b) c) n t [] h3 in
    let (la, sa) = octet_spelled p a ha in
    let (lb, sb) = octet_spelled q b hb in
    let (lc, sc) = octet_spelled r c hc in
    let (ld, sd) = octet_spelled t d hd in
    let whole : word_of a b c d ≡ n = cc h4 in
    (
      rw (← whole) ((word_digits a b c d la lb lc ld).0),
      rw (sa, sb, sc, sd, ← whole) (sym (print-word a b c d la lb lc ld)),
    )

parsed_parts :
    (p : Text) (qs : List Text) (n : ℕ)
    → (if length (p ∷ qs) == 4 then read_octets 0 (p ∷ qs) else none) ≡ some n
    → (n < 2 ^ 32) × (join_parts b'.' p qs ≡ print_ipv4 n)
parsed_parts p [] n h = absurd (cc h)
parsed_parts p (q ∷ []) n h = absurd (cc h)
parsed_parts p (q ∷ r ∷ []) n h = absurd (cc h)
parsed_parts p (q ∷ r ∷ t ∷ []) n h = read_four p q r t n h
parsed_parts p (q ∷ r ∷ t ∷ u ∷ qs) n h = ground (arith, h)

read_octets-some :
    (result a : ℕ) (p : Text) (parts : List Text)
    → octet p ≡ some a
    → read_octets result (p ∷ parts) ≡ read_octets (shift_in result a) parts
unfolding read_octets
read_octets-some result a p parts h = rw (h, read_octets)

read_printed :
    (a b c d : ℕ)
    → a < 256
    → b < 256
    → c < 256
    → d < 256
    → read_octets 0 (show_octet a ∷ show_octet b ∷ show_octet c ∷ show_octet d ∷ [])
      ≡ some (word_of a b c d)
unfolding read_octets word_of
read_printed a b c d ha hb hc hd =
    let a' = shift_in 0 a in
    let b' = shift_in a' b in
    let c' = shift_in b' c in
    read_octets-some 0 a (show_octet a) (show_octet b ∷ show_octet c ∷ show_octet d ∷ [])
      (octet-show_octet a ha)
    ∙ read_octets-some a' b (show_octet b) (show_octet c ∷ show_octet d ∷ [])
        (octet-show_octet b hb)
    ∙ read_octets-some b' c (show_octet c) (show_octet d ∷ []) (octet-show_octet c hc)
    ∙ read_octets-some c' d (show_octet d) [] (octet-show_octet d hd)

pub split-print_ipv4 :
    (n : ℕ)
    → split b'.' (print_ipv4 n)
      ≡ show_octet (n / 2 ^ 24)
        ∷ show_octet (n / 2 ^ 16 % 256)
        ∷ show_octet (n / 2 ^ 8 % 256)
        ∷ show_octet (n % 256)
        ∷ []
unfolding print_ipv4 split
split-print_ipv4 n =
    let a = n / 2 ^ 24 in
    let b = n / 2 ^ 16 % 256 in
    let c = n / 2 ^ 8 % 256 in
    let d = n % 256 in
    ap (λ (p : Text × List Text). p.0 ∷ p.1)
      (split-join_parts b'.' (show_octet a) (show_octet b ∷ show_octet c ∷ show_octet d ∷ [])
        (show_octet-has a) (show_octet-has b, (show_octet-has c, (show_octet-has d, tt))))

printed_parsed : (n : ℕ) → n < 2 ^ 32 → parse_ipv4 (print_ipv4 n) ≡ some n
unfolding parse_ipv4
printed_parsed n h = rw (split-print_ipv4 n) (
    read_printed (n / 2 ^ 24) (n / 2 ^ 16 % 256) (n / 2 ^ 8 % 256) (n % 256) (omega arith)
      (omega arith) (omega arith) (omega arith)
    ∙ ap some (word_whole n h))

-- A text is read as an address exactly if it is the dotted decimal form of that address, with no
-- zero before a number; so an address has one spelling.
pub parse_ipv4_iff :
    (s : Text) (n : ℕ) → (parse_ipv4 s ≡ some n) ↔ ((n < 2 ^ 32) × (s ≡ print_ipv4 n))
parse_ipv4_iff s n = (
  (λ h.
      let (small, whole) =
        parsed_parts (split_parts b'.' s).0 (split_parts b'.' s).1 n
          (unfold parse_ipv4 split in h) in
      (small, sym (join_parts-split b'.' s) ∙ whole)),
  (λ h. rw h.1 (printed_parsed n h.0)),
)

show_octet_size : (n : ℕ) → (1 ≤ length (show_octet n)) × (length (show_octet n) ≤ 3)
unfolding show_octet
show_octet_size n = ground arith

length-join_parts :
    (c : ℕ) (p q : Text) (qs : List Text)
    → length (join_parts c p (q ∷ qs)) ≡ length p + 1 + length (join_parts c q qs)
unfolding join_parts
length-join_parts c p q qs = omega (arith, length-append p (c ∷ join_parts c q qs))

pub print_ipv4_size : (n : ℕ) → (1 ≤ length (print_ipv4 n)) × (length (print_ipv4 n) ≤ 15)
unfolding print_ipv4
print_ipv4_size n =
    let a = show_octet (n / 2 ^ 24) in
    let b = show_octet (n / 2 ^ 16 % 256) in
    let c = show_octet (n / 2 ^ 8 % 256) in
    let d = show_octet (n % 256) in
    omega (
      arith,
      length-join_parts b'.' a b (c ∷ d ∷ []),
      length-join_parts b'.' b c (d ∷ []),
      length-join_parts b'.' c d [],
      show_octet_size (n / 2 ^ 24),
      show_octet_size (n / 2 ^ 16 % 256),
      show_octet_size (n / 2 ^ 8 % 256),
      show_octet_size (n % 256),
    )

pub print_ipv4_matches : (n : ℕ) → n < 2 ^ 32 → matches_ipv4 (print_ipv4 n) ≡ true
print_ipv4_matches n h =
    matches_ipv4-parse_ipv4 (print_ipv4 n)
    ∙ ap is_some ((parse_ipv4_iff (print_ipv4 n) n).1 (h, refl))
