-- ===== src/Edge/Cookies.antt =====
-- packages/vestibulum/src/lambda/shared-distribution/edge/responses.ts: `extractTokenFromCookies`.
use saas_foundation.Prelude.{
  ℕ, ◌≡◌, refl, ap, ◌∙◌, ◌⊎◌, inl, inr, Bool, true, false, not, ◌&&◌, Option, none, some, List, [],
  ◌∷◌, ◌++◌, arith, ◌==◌, if◌then◌else◌, all, same_numbers,
}
use mathlib.Core.List.{append-nil}
use saas_foundation.Text.{
  Text, text_of, split, split_parts, cut, strip_last, trim, trim_start, trim_end, is_space, has,
}
use saas_foundation.Edge.Tenant.{is_empty}

abbrev pub id_token_cookie : Text
id_token_cookie = text_of "vestibulum_id_token"

unfoldable pub ends_with : ℕ → Text → Bool
ends_with c [] = false
ends_with c (x ∷ []) = x == c
ends_with c (x ∷ y ∷ s) = ends_with c (y ∷ s)

-- A value of two units or more between quotes is what the quotes enclose.
unfoldable pub unquote : Text → Text
unfolding ends_with strip_last
unquote [] = []
unquote (x ∷ s) = if x == 34 && ends_with 34 s then strip_last 34 s else x ∷ s

-- One segment of a header: its value, if its name is that of the cookie.
unfoldable pub segment_value : Text → Option Text
unfolding is_empty unquote
segment_value raw =
    let segment = trim raw in
    if is_empty segment then none else elim (cut 61 segment) [
      | none ↦ none
      | some (k, v) ↦
          if is_empty k
          then none
          else if not (same_numbers (trim k) id_token_cookie)
          then none
          else some (unquote (trim v))
    ]

unfoldable pub first_value : List Text → Option Text
unfolding segment_value
first_value [] = none
first_value (raw ∷ more) =
    let rest = first_value more in elim (segment_value raw) [ none ↦ rest | some v ↦ some v ]

-- The entries of the `Cookie` header, `none` for one that has no text.
unfoldable pub first_entry : List (Option Text) → Option Text
unfolding first_value is_empty
first_entry [] = none
first_entry (none ∷ more) = first_entry more
first_entry (some raw ∷ more) =
    let rest = first_entry more in
    if is_empty raw
    then rest
    else elim (first_value (split 59 raw)) [ none ↦ rest | some v ↦ some v ]

unfoldable pub extract_token_from_cookies : Option (List (Option Text)) → Option Text
unfolding first_entry
extract_token_from_cookies none = none
extract_token_from_cookies (some entries) = first_entry entries

-- What a token is made of: no white space, no quote and no semicolon.
unfoldable pub is_token_char : ℕ → Bool
unfolding is_space
is_token_char c = not (is_space c) && not (c == 34) && not (c == 59)

token_char_facts :
    (c : ℕ) → is_token_char c ≡ true → (is_space c ≡ false) × (c == 34 ≡ false) × (c == 59 ≡ false)
unfolding is_token_char
token_char_facts c h = grind arith

trim_start_token : (s : Text) → all is_token_char s ≡ true → trim_start s ≡ s
unfolding trim_start
trim_start_token [] h = refl
trim_start_token (x ∷ s) h = ground (arith, token_char_facts x)

trim_end_token : (s : Text) → all is_token_char s ≡ true → trim_end s ≡ s
unfolding trim_end
trim_end_token [] h = refl
trim_end_token (x ∷ []) h = ground (arith, token_char_facts x)
trim_end_token (x ∷ y ∷ s) h = ground (arith, trim_end_token (y ∷ s))

trim_token : (s : Text) → all is_token_char s ≡ true → trim s ≡ s
unfolding trim
trim_token s h = ap trim_end (trim_start_token s h) ∙ trim_end_token s h

unquote_token : (s : Text) → all is_token_char s ≡ true → unquote s ≡ s
unfolding unquote
unquote_token [] h = refl
unquote_token (x ∷ s) h = ground (arith, token_char_facts x)

all-append : (p : ℕ → Bool) (a b : Text) → all p a ≡ true → all p b ≡ true → all p (a ++ b) ≡ true
all-append p [] b ha hb = hb
all-append p (x ∷ a) b ha hb = ground (arith, all-append p a b)

cut-append : (c : ℕ) (a b : Text) → has c a ≡ false → cut c (a ++ c ∷ b) ≡ some (a, b)
unfolding cut has
cut-append c [] b h = ground arith
cut-append c (x ∷ a) b h = ground (arith, cut-append c a b)

split-append : (c : ℕ) (a b : Text) → split c (a ++ c ∷ b) ≡ split c a ++ split c b
unfolding split split_parts
split-append c [] b = ground arith
split-append c (x ∷ a) b = ground (arith, split-append c a b)

split_token : (s : Text) → all is_token_char s ≡ true → split 59 s ≡ s ∷ []
unfolding split split_parts
split_token [] h = refl
split_token (x ∷ s) h = ground (arith, token_char_facts x, split_token s)

name_token :
    (token : Text)
    → all is_token_char token ≡ true
    → all is_token_char (id_token_cookie ++ 61 ∷ token) ≡ true
unfolding is_token_char is_space
name_token token h = h

trim_name : trim id_token_cookie ≡ id_token_cookie
unfolding is_token_char is_space
trim_name = trim_token id_token_cookie refl

cut_name : (token : Text) → cut 61 (id_token_cookie ++ 61 ∷ token) ≡ some (id_token_cookie, token)
unfolding has
cut_name token = cut-append 61 id_token_cookie token refl

-- The segment of the cookie's name and a token gives the token.
segment_token :
    (token : Text)
    → all is_token_char token ≡ true
    → segment_value (id_token_cookie ++ 61 ∷ token) ≡ some token
unfolding segment_value is_empty same_numbers
segment_token token h = rw (
  trim_token (id_token_cookie ++ 61 ∷ token) (name_token token h),
  cut_name token,
  trim_name,
  trim_token token h,
  unquote_token token h,
)

first_value-append : (a b : List Text) → first_value a ≡ none → first_value (a ++ b) ≡ first_value b
unfolding first_value
first_value-append [] b h = refl
first_value-append (x ∷ a) b h = ground (arith, first_value-append a b)

first_entry-append :
    (a b : List (Option Text)) → first_entry a ≡ none → first_entry (a ++ b) ≡ first_entry b
unfolding first_entry
first_entry-append [] b h = refl
first_entry-append (none ∷ a) b h = first_entry-append a b h
first_entry-append (some raw ∷ a) b h = ground (arith, first_entry-append a b)

first_value-cons :
    (s : Text) (more : List Text) (v : Text)
    → segment_value s ≡ some v
    → first_value (s ∷ more) ≡ some v
unfolding first_value
first_value-cons s more v h = ground arith

-- The cookie's segment at the start of a text that ends after it, or goes on with a semicolon.
first_value_here :
    (token rest : Text)
    → all is_token_char token ≡ true
    → (rest ≡ []) ⊎ ((after : Text) × (rest ≡ 59 ∷ after))
    → first_value (split 59 ((id_token_cookie ++ 61 ∷ token) ++ rest)) ≡ some token
first_value_here token rest h (inl end) =
    let segment : Text = id_token_cookie ++ 61 ∷ token in
    ap (λ (t : Text). first_value (split 59 t))
      (ap (λ (r : Text). segment ++ r) end ∙ append-nil segment)
    ∙ ap first_value (split_token segment (name_token token h))
    ∙ first_value-cons segment [] token (segment_token token h)
first_value_here token rest h (inr (after, goes_on)) =
    let segment : Text = id_token_cookie ++ 61 ∷ token in
    ap (λ (r : Text). first_value (split 59 (segment ++ r))) goes_on
    ∙ ap first_value (
        split-append 59 segment after
        ∙ ap (λ l. l ++ split 59 after) (split_token segment (name_token token h)))
    ∙ first_value-cons segment (split 59 after) token (segment_token token h)

append-ne-nil : (a b : Text) (c : ℕ) → is_empty (a ++ c ∷ b) ≡ false
unfolding is_empty
append-ne-nil [] b c = refl
append-ne-nil (x ∷ a) b c = refl

first_entry-cons :
    (raw v : Text) (more : List (Option Text))
    → is_empty raw ≡ false
    → first_value (split 59 raw) ≡ some v
    → first_entry (some raw ∷ more) ≡ some v
unfolding first_entry
first_entry-cons raw v more full h = ground arith

-- The token is found in whichever header and segment it stands, after headers and segments that do
-- not name the cookie, whatever follows it, and exactly as it was set.
pub extract_token_from_cookies_finds :
    (earlier more : List (Option Text)) (before token rest : Text)
    → first_entry earlier ≡ none
    → first_value (split 59 before) ≡ none
    → all is_token_char token ≡ true
    → (rest ≡ []) ⊎ ((after : Text) × (rest ≡ 59 ∷ after))
    → extract_token_from_cookies
        (some (earlier ++ some (before ++ (59 ∷ ((id_token_cookie ++ 61 ∷ token) ++ rest))) ∷ more))
      ≡ some token
unfolding extract_token_from_cookies
extract_token_from_cookies_finds earlier more before token rest passed other good ends =
    let segment : Text = (id_token_cookie ++ 61 ∷ token) ++ rest in
    let raw : Text = before ++ (59 ∷ segment) in
    let found : first_value (split 59 raw) ≡ some token =
      ap first_value (split-append 59 before segment)
      ∙ first_value-append (split 59 before) (split 59 segment) other
      ∙ first_value_here token rest good ends in
    first_entry-append earlier (some raw ∷ more) passed
    ∙ first_entry-cons raw token more (append-ne-nil before segment 59) found
