-- ===== src/SignIn/AllowList.antt =====
-- packages/vestibulum/src/lambda/shared/allow-list.ts: who may sign in, and the adapter that asks the
-- Cognito user pool.
use saas_foundation.Prelude.{
  ℕ, String, ◌≡◌, refl, inl, inr, Bool, true, false, not, ◌&&◌, ◌||◌, Option, none, some, List, [],
  ◌∷◌, ◌++◌, arith, str_eq, ◌==◌, if◌then◌else◌, Bool-cases,
}
use saas_foundation.Text.{Text, text_of}

pub record Eligibility : Type 0 where
  pub subject : String
  pub active : Bool

-- `AllowListResult<Eligibility | null>`
pub data Answer : Type 0 where
  value : Option Eligibility → Answer
  unavailable : Answer

unfoldable pub eligible : Option Eligibility → Bool
eligible none = false
eligible (some e) = e.active

-- A user of the pool as the SDK returns it; a field that is absent is `none`.
pub record PoolUser : Type 0 where
  pub username : Option String
  pub enabled : Option Bool
  pub attributes : Option (List (String × Option String))

-- What a call of the SDK ends in: the users or the user, a missing user, or any other error.
pub data Reply (A : Type 0) : Type 0 where
  ok : A → Reply A
  user_not_found failed : Reply A

-- `attrs?.find((a) => a.Name === name)?.Value`
unfoldable pub find_attr : List (String × Option String) → String → Option String
find_attr [] name = none
find_attr ((n, v) ∷ rest) name = if str_eq n name then v else find_attr rest name

unfoldable pub attr : Option (List (String × Option String)) → String → Option String
unfolding find_attr
attr none name = none
attr (some attrs) name = find_attr attrs name

-- `x === value`, where `x` may be undefined
unfoldable pub is_text : Option String → String → Bool
is_text none wanted = false
is_text (some s) wanted = str_eq s wanted

unfoldable pub is_true : Option Bool → Bool
is_true none = false
is_true (some b) = b

unfoldable pub is_verified : Option (List (String × Option String)) → Bool
unfolding attr is_text
is_verified attrs = is_text (attr attrs "email_verified") "true"

-- `users.length === 1 ? users[0] : undefined`
unfoldable pub only_user : List PoolUser → Option PoolUser
only_user (u ∷ []) = some u
only_user _ = none

unfoldable pub user_eligibility : PoolUser → Option Eligibility
unfolding is_verified is_true
user_eligibility u = elim u.username [
  | none ↦ none
  | some name ↦
      if str_eq name "" || not (is_verified u.attributes)
      then none
      else some (record { subject = name; active = is_true u.enabled })
]

unfoldable pub answer_for : Reply (List PoolUser) → Answer
unfolding only_user user_eligibility
answer_for (ok users) = elim (only_user users) [
  | none ↦ value none
  | some u ↦ value (user_eligibility u)
]
answer_for _ = unavailable

-- `replace(/c/g, …)`, which puts a backslash before each `c`
unfoldable pub put_before : ℕ → Text → Text
put_before c [] = []
put_before c (x ∷ s) = let rest = put_before c s in if x == c then 92 ∷ x ∷ rest else x ∷ rest

-- First the backslashes, then the double quotes.
unfoldable pub escape_filter_value : Text → Text
unfolding put_before
escape_filter_value s = put_before 34 (put_before 92 s)

unfoldable pub filter_of : Text → Text
unfolding escape_filter_value
filter_of address = text_of "email = " ++ (34 ∷ (escape_filter_value address ++ 34 ∷ []))

-- How the service reads a text literal of a filter after its opening quote, as it is documented: a
-- quote ends the literal, a backslash before a quote or a backslash stands for the latter, and any
-- other character for itself. The result is the text and what is behind the literal.
pub record LiteralReader : Type 0 where
  pub read : Text → Option (Text × Text)
  pub ends : (rest : Text) → read (34 ∷ rest) ≡ some ([], rest)
  pub escaped :
      (y : ℕ) (s t rest : Text)
      → (y == 34 || y == 92) ≡ true
      → read s ≡ some (t, rest)
      → read (92 ∷ y ∷ s) ≡ some (y ∷ t, rest)
  pub plain :
      (x : ℕ) (s t rest : Text)
      → (x == 34) ≡ false
      → (x == 92) ≡ false
      → read s ≡ some (t, rest)
      → read (x ∷ s) ≡ some (x ∷ t, rest)

escape-empty : escape_filter_value [] ≡ []
unfolding escape_filter_value put_before
escape-empty = refl

escape-backslash : (s : Text) → escape_filter_value (92 ∷ s) ≡ 92 ∷ 92 ∷ escape_filter_value s
unfolding escape_filter_value put_before
escape-backslash s = refl

escape-quote : (s : Text) → escape_filter_value (34 ∷ s) ≡ 92 ∷ 34 ∷ escape_filter_value s
unfolding escape_filter_value put_before
escape-quote s = refl

escape-other :
    (x : ℕ) (s : Text)
    → (x == 92) ≡ false
    → (x == 34) ≡ false
    → escape_filter_value (x ∷ s) ≡ x ∷ escape_filter_value s
unfolding escape_filter_value put_before
escape-other x s no_slash no_quote = rw (no_slash, put_before, no_quote)

module _ (service : LiteralReader) where
  open service use {read}

  escape-read :
      (address rest : Text) → read (escape_filter_value address ++ 34 ∷ rest) ≡ some (address, rest)
  escape-read [] rest = rw escape-empty (service.ends rest)
  escape-read (x ∷ s) rest =
      let tail = escape_filter_value s ++ 34 ∷ rest in
      let step = escape-read s rest in
      elim (Bool-cases (x == 92)) [
        | inl slash ↦
            let is_slash : x ≡ 92 = ground arith in
            rw (is_slash, escape-backslash s) (service.escaped 92 tail s rest refl step)
        | inr no_slash ↦ elim (Bool-cases (x == 34)) [
          | inl quote ↦
              let is_quote : x ≡ 34 = ground arith in
              rw (is_quote, escape-quote s) (service.escaped 34 tail s rest refl step)
          | inr no_quote ↦
              rw (escape-other x s no_slash no_quote)
                (service.plain x tail s rest no_quote no_slash step)
        ]
      ]

  -- Whatever the address, the filter is `email = ` and one literal, which a service that reads
  -- literals as documented reads as the address, with nothing behind it: no character of an address
  -- can end the literal or change the filter.
  pub filter_reads_back :
      (address : Text)
      → (literal : Text) × (filter_of address ≡ text_of "email = " ++ 34 ∷ literal)
        × (read literal ≡ some (address, []))
  unfolding filter_of
  filter_reads_back address = (escape_filter_value address ++ 34 ∷ [], refl, escape-read address [])

-- The adapter. `normalize` is `normalizeEmail`, `list_users` the pool's users that meet a
-- filter, two at most, and `admin_get_user` the user of a subject.
module _ (normalize : String → Option String) (list_users : Text → Reply (List PoolUser))
    (admin_get_user : String → Reply PoolUser) where
  unfoldable pub lookup : String → Answer
  unfolding answer_for
  lookup email = elim (normalize email) [
    | none ↦ value none
    | some address ↦ answer_for (list_users (filter_of (text_of address)))
  ]

  unfoldable pub get : String → Answer
  unfolding is_true is_verified
  get subject = elim (admin_get_user subject) [
    | ok u ↦ value (
        some (record { subject = subject; active = is_true u.enabled && is_verified u.attributes }))
    | user_not_found ↦ value none
    | failed ↦ unavailable
  ]
