-- ===== src/Auth/SingleUse.antt =====
-- internal/core/service/auth.go: refresh tokens that are presented again.
use billpiggy.Base.{
  ◌≡◌, Bool, true, false, inl, inr, String, List, ◌∷◌, none, some, string_eq, ◌==◌, equals_iff,
  arith, if◌then◌else◌,
}
use billpiggy.Base.Act.{unauthorized, ok, err, modify, ◌>>◌}
use billpiggy.Base.Returns.{
  Returns, Returns-pure, Returns-found, Returns-read, Returns-guard, Returns-require,
}
use billpiggy.Base.Refuses.{read_refuses, guard_refuses}
use billpiggy.Base.Assoc.{lookup}
use billpiggy.Clock.{Time}
use billpiggy.Identity.{AppUser, RefreshToken}
use billpiggy.Identity.Repository.{IdentityRepository, get_refresh_token_by_hash}
use billpiggy.Identity.Tokens.{rotate_refresh_token, create_refresh_token}
use billpiggy.Identity.Values.{empty_refresh_token}
use billpiggy.Identity.Writes.{unchanged}
use billpiggy.Identity.WellFormed.{WellFormed, Writes-WellFormed}
use billpiggy.Identity.Spent.{via_cases, Spent-via}
use billpiggy.Identity.SingleUse.{SpentToken, rotate_closes, Writes-SpentToken}
use billpiggy.Auth.{Ports, AuthService, AuthState, Session, on_repository}
use billpiggy.Auth.Sessions.{SessionDraw, usable, issue_session, refresh}
use billpiggy.Auth.Calls.{Call, refresh_call, after_calls, FreshIds}
use billpiggy.Auth.Effects.{Returns-on_repository}
use billpiggy.Auth.Effects.Sessions.{refresh-Reached}
use billpiggy.Auth.Calls.Effects.{after_calls-Writes}

rotated :
    (hash : String) (now : Time) (id : String) (replacement : RefreshToken) {r : IdentityRepository}
    → lookup hash r.refresh_id_by_hash ≡ some id
    → lookup replacement.id r.refresh_by_id ≡ none
    → Returns (SpentToken hash) (rotate_refresh_token now id replacement) r
unfolding rotate_refresh_token ◌>>◌ modify
rotated hash now id replacement {r} indexed fresh = Returns-read _ _ _ λ old found.
    Returns-guard _ _ _ λ _. Returns-require _ _ _ λ absent. record {
      result = λ _ _. rotate_closes hash now id old replacement r indexed found absent fresh;
    }

stored_by :
    (ports : Ports) (service : AuthService) (hash : String) (now : Time) (id : String)
    (replacement : RefreshToken) {s : AuthState} (b : Bool)
    → b ≡ false
    → lookup hash s.repository.refresh_id_by_hash ≡ some id
    → lookup replacement.id s.repository.refresh_by_id ≡ none
    → Returns
        (λ t. SpentToken hash t.repository)
        (if b
          then on_repository (create_refresh_token replacement)
          else on_repository (rotate_refresh_token now id replacement))
        s
stored_by ports service hash now id replacement true h indexed fresh = cc
stored_by ports service hash now id replacement false h indexed fresh =
    Returns-on_repository _ (rotated hash now id replacement indexed fresh)

-- The row of a usable token is filed under its own id, which the index holds.
own_id :
    (now : Time) (hash : String) (token : RefreshToken) (r : IdentityRepository)
    → WellFormed r
    → lookup "" r.refresh_by_id ≡ none
    → get_refresh_token_by_hash hash r ≡ some token
    → usable now token ≡ true
    → (lookup hash r.refresh_id_by_hash ≡ some token.id) × ((token.id == "") ≡ false)
own_id now hash token r h no_empty found good =
    let cases =
      via_cases empty_refresh_token hash r.refresh_id_by_hash r.refresh_by_id token found in
    elim cases.2 [
      | inl row ↦
          let named = h.tokens_named.row cases.0 token row in
          (
            grind (arith, named, cases.1),
            grind (arith, equals_iff token.id "", named, row, no_empty),
          )
      | inr zero ↦ ground (arith, zero, good)
    ]

module _ (ports : Ports) (service : AuthService) where
  session_issued :
      (hash : String) (draw : SessionDraw) (now : Time) (user : AppUser) (id : String)
      {s : AuthState}
      → (id == "") ≡ false
      → lookup hash s.repository.refresh_id_by_hash ≡ some id
      → lookup draw.token_id s.repository.refresh_by_id ≡ none
      → Returns (λ t. SpentToken hash t.repository) (issue_session ports service draw now user id) s
  unfolding issue_session ◌>>◌
  session_issued hash draw now user id named indexed fresh = Returns-found _ _ _ λ _ _.
      Returns-found _ _ _ λ raw _.
        Returns-pure _ _ (stored_by ports service hash now id _ (id == "") named indexed fresh)

  -- A refresh that succeeds spends its token.
  pub refresh-SpentToken :
      (draw : SessionDraw) (now : Time) (raw_token : String) {s : AuthState}
      → WellFormed s.repository
      → lookup "" s.repository.refresh_by_id ≡ none
      → lookup draw.token_id s.repository.refresh_by_id ≡ none
      → Returns
          (λ t. SpentToken (ports.token_hash raw_token) t.repository)
          (refresh ports service draw now raw_token)
          s
  unfolding refresh ◌>>◌
  refresh-SpentToken draw now raw_token {s} h no_empty fresh = Returns-read _ _ _ λ token found.
      Returns-guard _ _ _ λ good. Returns-read _ _ _ λ user _. Returns-guard _ _ _ λ _.
        let own =
          own_id now (ports.token_hash raw_token) token s.repository h no_empty found good in
        session_issued (ports.token_hash raw_token) draw now user token.id own.1 own.0 fresh

  -- A token that is spent is refused.
  pub refresh_refused :
      (draw : SessionDraw) (now : Time) (raw_token : String) (s : AuthState)
      → SpentToken (ports.token_hash raw_token) s.repository
      → (refresh ports service draw now raw_token s).0 ≡ err unauthorized
  unfolding refresh ◌>>◌
  refresh_refused draw now raw_token s spent = read_refuses _ _ _ λ token found.
      guard_refuses _ _ _ _ (
        let dead =
          Spent-via (λ row. row.revoked_at) empty_refresh_token token (ports.token_hash raw_token)
            s.repository.refresh_id_by_hash s.repository.refresh_by_id spent found in
        ground (arith, dead))

  -- A refresh token that Refresh exchanged for a session is refused as unauthorized by a later
  -- Refresh, at any time and after any calls of the service. The repository is well-formed, no
  -- token is filed under the empty id, and the ids that the calls draw are not in use.
  pub refresh_once :
      (draw later_draw : SessionDraw) (now later : Time) (raw_token : String) (session : Session)
      (calls : List Call) (s : AuthState)
      → WellFormed s.repository
      → lookup "" s.repository.refresh_by_id ≡ none
      → FreshIds ports service (refresh_call draw now raw_token ∷ calls) s
      → (refresh ports service draw now raw_token s).0 ≡ ok session
      → (refresh ports service later_draw later raw_token
          (after_calls ports service calls (refresh ports service draw now raw_token s).1)).0
        ≡ err unauthorized
  refresh_once draw later_draw now later raw_token session calls s h no_empty fresh returned =
      let hash = ports.token_hash raw_token in
      let t = (refresh ports service draw now raw_token s).1 in
      let first = (refresh-Reached ports service draw now raw_token unchanged fresh.0).holds in
      let rest = after_calls-Writes ports service calls t (Writes-WellFormed h first) fresh.1 in
      refresh_refused later_draw later raw_token (after_calls ports service calls t) (
        Writes-SpentToken hash
          ((refresh-SpentToken draw now raw_token h no_empty fresh.0).result session returned) rest)
