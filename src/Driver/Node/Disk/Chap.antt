-- ===== src/Driver/Node/Disk/Chap.antt =====
-- What parseSessionSecret and parseDiscoverySecret make of a secret.
use mathlib.Core.Path.{subst}
use qnap_csi.Base.{
  ◌≡◌, ◌≢◌, ◌⊎◌, refl, inl, inr, Option, none, some, List, [], ◌∷◌, ◌++◌, Text, lit, Result, ok,
  err,
}
use qnap_csi.Qnap.Session.{◌>>=◌}
use qnap_csi.Driver.Node.Disk.{
  Fields, Secrets, no_secrets, lookup, required, parse_secrets, parse_session_secret,
  parse_discovery_secret,
}

-- A chain holds what each of its ends holds.
pub bind_rule :
    {A B : Type 0} (P : Result B → Type 0) (r : Result A) (k : A → Result B)
    → ((a : A) → r ≡ ok a → P (k a))
    → ((e : Text) → r ≡ err e → P (err e))
    → P (r >>= k)
bind_rule P (ok a) k good bad = good a refl
bind_rule P (err e) k good bad = bad e refl

-- One of the keys is not in the map.
abbrev pub LacksOne : Fields → List Text → Type 0
LacksOne m [] = ⊥
LacksOne m (k ∷ ks) = (lookup k m ≡ none) ⊎ LacksOne m ks

-- No secret at all, or the four texts under the keys.
abbrev pub IsSecretOf : Text → Text → Text → Text → Fields → Secrets → Type 0
IsSecretOf user pass user_in pass_in m s =
    ((m ≡ []) × (s ≡ no_secrets))
    ⊎ ((s.secrets_type ≡ lit "chap")
        × (lookup user m ≡ some s.user_name)
        × (lookup pass m ≡ some s.password)
        × (lookup user_in m ≡ some s.user_name_in)
        × (lookup pass_in m ≡ some s.password_in))

-- What `required` gives.
abbrev Required : Fields → Text → Result Text → Type 0
Required m key (ok v) = lookup key m ≡ some v
Required m key (err e) = lookup key m ≡ none

required-Required : (m : Fields) (key : Text) → Required m key (required m key)
unfolding required
required-Required m key = go (lookup key m) refl
  where
    go :
        (r : Option Text)
        → lookup key m ≡ r
        → Required m key (elim r [ none ↦ err (key ++ lit " not found in secret") | some v ↦ ok v ])
    go none h = h
    go (some v) h = h

required-rule :
    {B : Type 0} (P : Result B → Type 0) (m : Fields) (key : Text) (k : Text → Result B)
    → ((v : Text) → lookup key m ≡ some v → P (k v))
    → ((e : Text) → lookup key m ≡ none → P (err e))
    → P (required m key >>= k)
required-rule P m key k found missing =
    bind_rule P (required m key) k
      (λ v e. found v (subst (Required m key) e (required-Required m key)))
      (λ e h. missing e (subst (Required m key) h (required-Required m key)))

module _ (user pass user_in pass_in : Text) where
  -- What parseSessionSecret and parseDiscoverySecret give.
  abbrev pub SecretRead : Fields → Result Secrets → Type 0
  SecretRead m (ok s) = IsSecretOf user pass user_in pass_in m s
  SecretRead m (err e) = (m ≢ []) × LacksOne m (user ∷ pass ∷ user_in ∷ pass_in ∷ [])

  parse_secrets-SecretRead : (m : Fields) → SecretRead m (parse_secrets user pass user_in pass_in m)
  unfolding parse_secrets
  parse_secrets-SecretRead [] = inl (refl, refl)
  parse_secrets-SecretRead (f ∷ fs) =
      required-rule (SecretRead (f ∷ fs)) (f ∷ fs) user _
        (λ a ha.
          required-rule (SecretRead (f ∷ fs)) (f ∷ fs) pass _
            (λ b hb.
              required-rule (SecretRead (f ∷ fs)) (f ∷ fs) user_in _
                (λ c hc.
                  required-rule (SecretRead (f ∷ fs)) (f ∷ fs) pass_in _
                    (λ d hd. inr (refl, ha, hb, hc, hd))
                    (λ e hd. (some_field, inr (inr (inr (inl hd))))))
                (λ e hc. (some_field, inr (inr (inl hc)))))
            (λ e hb. (some_field, inr (inl hb))))
        (λ e ha. (some_field, inl ha))
    where
      some_field : (f ∷ fs) ≢ []
      some_field e = cc

-- Of the session, with the fields of the context's secret.
abbrev pub SessionRead : Fields → Result Secrets → Type 0
SessionRead =
    SecretRead (lit "node.session.auth.username") (lit "node.session.auth.password")
      (lit "node.session.auth.username_in") (lit "node.session.auth.password_in")

-- Of the discovery.
abbrev pub DiscoveryRead : Fields → Result Secrets → Type 0
DiscoveryRead =
    SecretRead (lit "node.sendtargets.auth.username") (lit "node.sendtargets.auth.password")
      (lit "node.sendtargets.auth.username_in") (lit "node.sendtargets.auth.password_in")

pub parse_session_secret-SessionRead : (m : Fields) → SessionRead m (parse_session_secret m)
unfolding parse_session_secret
parse_session_secret-SessionRead m = parse_secrets-SecretRead _ _ _ _ m

pub parse_discovery_secret-DiscoveryRead : (m : Fields) → DiscoveryRead m (parse_discovery_secret m)
unfolding parse_discovery_secret
parse_discovery_secret-DiscoveryRead m = parse_secrets-SecretRead _ _ _ _ m
