-- ===== src/SignIn/Define.antt =====
-- packages/vestibulum/src/lambda/handlers/define-auth-challenge/index.ts: the state machine of one
-- sign-in session.
use saas_foundation.Prelude.{
  String, ◌≡◌, refl, ap, ◌≢◌, ◌↔◌, ◌⊎◌, inr, Bool, true, false, ◌&&◌, Option, none, some, List, [],
  ◌∷◌, arith, str_eq, eq_iff, if◌then◌else◌,
}

-- A round of the session as the trigger sees it; a field is `none` where the event has no text or
-- no boolean there.
pub record Round : Type 0 where
  pub challenge_name : Option String
  pub challenge_result : Option Bool

-- The `session` of an event: a list whose entries may be malformed, or no list at all.
pub data Session : Type 0 where
  rounds : List (Option Round) → Session
  malformed : Session

-- The response; a field that the handler leaves alone is `none`.
pub record DefineResponse : Type 0 where
  pub challenge_name : Option String
  pub issue_tokens : Option Bool
  pub fail_authentication : Option Bool

-- `only?.challengeName === "CUSTOM_CHALLENGE" && only?.challengeResult === true`
unfoldable pub is_custom : Option String → Bool
is_custom none = false
is_custom (some s) = str_eq s "CUSTOM_CHALLENGE"

unfoldable pub is_yes : Option Bool → Bool
is_yes none = false
is_yes (some b) = b

unfoldable pub answered_correctly : Option Round → Bool
unfolding is_custom is_yes
answered_correctly none = false
answered_correctly (some r) = is_custom r.challenge_name && is_yes r.challenge_result

unfoldable pub issue : DefineResponse → DefineResponse
issue r = record r { issue_tokens = some true; fail_authentication = some false }

unfoldable pub refuse : DefineResponse → DefineResponse
refuse r = record r { issue_tokens = some false; fail_authentication = some true }

-- The handler, over the response that the event came with.
unfoldable pub define_auth_challenge : Session → DefineResponse → DefineResponse
unfolding issue refuse
define_auth_challenge malformed r = refuse r
define_auth_challenge (rounds []) r = record {
  challenge_name = some "CUSTOM_CHALLENGE";
  issue_tokens = some false;
  fail_authentication = some false;
}
define_auth_challenge (rounds (only ∷ [])) r = if answered_correctly only then issue r else refuse r
define_auth_challenge (rounds (first ∷ second ∷ more)) r = refuse r

-- The only session that is given tokens: one round, the custom challenge, answered correctly.
abbrev pub winning_round : Round
winning_round = record { challenge_name = some "CUSTOM_CHALLENGE"; challenge_result = some true }

abbrev pub winning : Session
winning = rounds (some winning_round ∷ [])

answered_correctly_fields :
    (name : Option String) (result : Option Bool)
    → is_custom name && is_yes result ≡ true
    → (name ≡ some "CUSTOM_CHALLENGE") × (result ≡ some true)
unfolding is_custom is_yes
answered_correctly_fields none result h = cc
answered_correctly_fields (some s) none h = ground arith
answered_correctly_fields (some s) (some b) h = ground (arith, eq_iff s "CUSTOM_CHALLENGE")

answered_correctly-eq-winning :
    (o : Option Round) → answered_correctly o ≡ true → o ≡ some winning_round
unfolding answered_correctly
answered_correctly-eq-winning none h = cc
answered_correctly-eq-winning (some r) h =
    let (name, result) = answered_correctly_fields r.challenge_name r.challenge_result h in
    ap some (λ i. record { challenge_name = name i; challenge_result = result i })

wrong-ne-winning : (o : Option Round) → answered_correctly o ≡ false → o ≢ some winning_round
unfolding answered_correctly
wrong-ne-winning none h e = cc
wrong-ne-winning (some r) h e = cc (h, ap answered_correctly e)

-- The challenge that a response names: the custom one for the empty session, and else the one that
-- the response came with.
abbrev pub named_challenge : Session → Option String → Option String
named_challenge (rounds []) given = some "CUSTOM_CHALLENGE"
named_challenge (rounds (first ∷ more)) given = given
named_challenge malformed given = given

-- Tokens are issued exactly for the session of one correctly answered custom round. The response
-- does not fail exactly there and for the empty session. The empty session is sent the custom
-- challenge, and for any other session the name of the challenge is left as it was.
pub define_auth_challenge_decides :
    (s : Session) (r : DefineResponse)
    → (((define_auth_challenge s r).issue_tokens ≡ some true) ↔ (s ≡ winning))
      × (((define_auth_challenge s r).fail_authentication ≡ some false)
          ↔ ((s ≡ winning) ⊎ (s ≡ rounds [])))
      × ((define_auth_challenge s r).challenge_name ≡ named_challenge s r.challenge_name)
unfolding define_auth_challenge
define_auth_challenge_decides malformed r =
    (((λ h. cc), λ h. cc), ((λ h. cc), λ h. ground arith), refl)
define_auth_challenge_decides (rounds []) r =
    (((λ h. cc), λ h. cc), ((λ h. inr refl), λ h. refl), refl)
define_auth_challenge_decides (rounds (o ∷ [])) r =
    grind (arith, answered_correctly-eq-winning o, wrong-ne-winning o)
define_auth_challenge_decides (rounds (first ∷ second ∷ more)) r = grind arith
