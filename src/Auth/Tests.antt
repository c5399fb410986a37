-- ===== src/Auth/Tests.antt =====
-- Concrete runs of the token and access checks.
use open_im_server.Base.{
  ℕ, List, true, contains, ◌≡◌, ◌↔◌, refl, dec_true, Bytes, bytes_discrete, codes, [], ◌∷◌, Map,
  lookup, some, if◌then◌else◌, err_token_invalid, ok, err,
}
use open_im_server.Auth.Access.{Config}
use open_im_server.Auth.Token.{Claims, Services, create_token, parse_token, UserTokenResp}
use open_im_server.Auth.Token.Stale.{IsStale, DeletesThenAdds, create_token_ok}
use open_im_server.Auth.Token.Laws.{parse_token_iff}

abbrev config : Config
config = record { manager = codes "admin" ∷ []; im_admin = codes "im" ∷ []; secret = codes "s" }

abbrev claims : Claims
claims = record { user_id = codes "u"; platform_id = 1; expires_at = 7 }

abbrev flags : Map Bytes ℕ
flags = (codes "old", 1) ∷ (codes "t", 0) ∷ []

-- The token "t" verifies, and no other.
abbrev sv : Services
sv = record {
  normal_token = 0;
  kicked_token = 1;
  get_claim = λ token secret.
      if dec_true (bytes_discrete token (codes "t")) then ok claims else err err_token_invalid;
  sign = λ user_id platform_id expire secret. ok (codes "new");
  get_tokens = λ user_id platform_id. ok flags;
  delete_answer = ok tt;
  add_answer = ok tt;
  get_user_info = λ user_id. ok tt;
}

create_token_ok_example :
    (sv.sign (codes "u") 1 90 (codes "a") ≡ ok (codes "new"))
    × ((stale : List Bytes) × DeletesThenAdds sv
          (codes "u")
          1
          (codes "new")
          stale
          (create_token sv (codes "s") (codes "a") 90 (codes "u") 1).0
        × ((t : Bytes) → (contains bytes_discrete t stale ≡ true) ↔ IsStale sv (codes "s") flags t))
unfolding create_token bytes_discrete lookup
create_token_ok_example =
    create_token_ok sv (codes "s") (codes "a") 90 (codes "u") 1 flags refl (refl, (refl, tt)) refl

parse_token_iff_example : (parse_token sv (codes "s") (codes "t") ≡ ok claims) ↔ (
    (sv.get_claim (codes "t") (codes "s") ≡ ok claims)
    × ((m : Map Bytes ℕ) × (sv.get_tokens claims.user_id claims.platform_id ≡ ok m)
        × (lookup bytes_discrete (codes "t") m ≡ some sv.normal_token)))
parse_token_iff_example = parse_token_iff sv (codes "s") (codes "t") claims

abbrev response : UserTokenResp
response = record { token = codes "new"; expire_time_seconds = 7776000 }
