-- ===== src/Sessions/Family.antt =====
-- Reuse of a refresh token revokes its whole family.
use tool_messager.Prelude.{
  Bool, Bool-cases, List, Text, [], any, arith, err, false, find_first, inl, inr, is_some, none,
  refl, some, true, update_where, ℕ, ◌&&◌, ◌<◌, ◌∷◌, ◌≡◌,
}
use tool_messager.Store.{is_none}
use tool_messager.Sessions.Tokens.{
  AuthDb, AuthEnv, RefreshToken, TokenPayload, condemn, in_family, is_condemned, is_open_row,
  reuse_revoked, revoke, revoke_compromised_family, token_by_hash,
}
use tool_messager.Sessions.Rotation.{refresh, refresh_stored}

abbrev is_live_in : (user : ℕ) → Text → RefreshToken → Bool
is_live_in user family t = in_family user family t && is_none t.revoked_at

-- No token of the family can be refreshed any more.
pub IsRevokedFamily : (user : ℕ) → Text → AuthDb → Type 0
IsRevokedFamily user family s = any (is_live_in user family) s.tokens ≡ false

condemned_rows :
    (now user : ℕ) (family : Text) (ts : List RefreshToken)
    → any (is_live_in user family) (update_where (in_family user family) (condemn now) ts) ≡ false
unfolding update_where
condemned_rows now user family [] = refl
condemned_rows now user family (t ∷ ts) = elim (Bool-cases (in_family user family t)) [
  | inl inside ↦ grind (arith, condemned_rows now user family ts, inside)
  | inr outside ↦ grind (arith, condemned_rows now user family ts, outside)
]

revoke_compromised_family-IsRevoked :
    (now user : ℕ) (family : Text) (s : AuthDb)
    → IsRevokedFamily user family (revoke_compromised_family now user family s)
unfolding IsRevokedFamily revoke_compromised_family
revoke_compromised_family-IsRevoked now user family s = condemned_rows now user family s.tokens

refresh-revoked :
    (env : AuthEnv) (now : ℕ) (token : Text) (s : AuthDb) {p : TokenPayload} {t : RefreshToken}
    → env.verify token ≡ some p
    → p.is_refresh ≡ true
    → token_by_hash s (env.hash_token token) ≡ some t
    → is_some t.revoked_at ≡ true
    → refresh env now token s
      ≡ (err reuse_revoked, revoke_compromised_family now t.user_id t.family_id s)
unfolding refresh refresh_stored
refresh-revoked env now token s h r f v = ground (arith, h, r, f, v)

-- Presenting a refresh token that was used or revoked is refused as reuse, and leaves no token of
-- its family that can be refreshed.
pub reuse-IsRevokedFamily :
    (env : AuthEnv) (now : ℕ) (token : Text) (s : AuthDb) {p : TokenPayload} {t : RefreshToken}
    → env.verify token ≡ some p
    → p.is_refresh ≡ true
    → token_by_hash s (env.hash_token token) ≡ some t
    → is_some t.revoked_at ≡ true
    → ((refresh env now token s).0 ≡ err reuse_revoked)
      × IsRevokedFamily t.user_id t.family_id (refresh env now token s).1
reuse-IsRevokedFamily env now token s {p} {t} h r f v =
    rw (refresh-revoked env now token s h r f v)
      (refl, revoke_compromised_family-IsRevoked now t.user_id t.family_id s)

pub find_first-update_where_at :
    (p q : RefreshToken → Bool) (f : RefreshToken → RefreshToken)
    → ((x : RefreshToken) → p (f x) ≡ p x)
    → (xs : List RefreshToken) {x : RefreshToken} → find_first p xs ≡ some x
    → q x ≡ true
    → find_first p (update_where q f xs) ≡ some (f x)
unfolding find_first update_where
find_first-update_where_at p q f keep [] e h = absurd (cc)
find_first-update_where_at p q f keep (y ∷ ys) {x} e h = elim (Bool-cases (p y)) [
  | inl fits ↦ grind (arith, keep y, h, e, fits)
  | inr not_fits ↦ elim (Bool-cases (q y)) [
    | inl u ↦ grind (arith, keep y, u, not_fits, find_first-update_where_at p q f keep ys {x = x})
    | inr u ↦ grind (arith, keep y, u, not_fits, find_first-update_where_at p q f keep ys {x = x})
  ]
]

-- What a refresh that succeeds has found: an open token of a family that no reuse was seen in.
pub record IsFresh (env : AuthEnv) (now : ℕ) (token : Text) (s : AuthDb) (t : RefreshToken)
    : Type 0 where
  pub stored : token_by_hash s (env.hash_token token) ≡ some t
  pub open_row : t.revoked_at ≡ none
  pub not_compromised : any (is_condemned t.user_id t.family_id) s.tokens ≡ false
  pub not_expired : now < t.expires_at

abbrev revoked_row : (now id : ℕ) → AuthDb → AuthDb
revoked_row now id s = record s { tokens = update_where (is_open_row id) (revoke now) s.tokens }
