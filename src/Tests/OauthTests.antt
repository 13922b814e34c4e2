-- ===== src/Tests/OauthTests.antt =====
-- crates/tinymcp/src/registry/oauth/pending.rs: the store of sign-ins at a concrete history.
use tinymcp.Common.{◌≡◌, refl, [], ◌∷◌, none, some, lookup, insert}
use tinymcp.Oauth.Pending.{PendingAuthorization, park, take, pruned, retain}
use tinymcp.Oauth.Pending.Calls.{parking, taking, counting, calls, any_parks, all_leave, take_once}

abbrev sign_in : PendingAuthorization
sign_in = record {
  server_id = "srv";
  code_verifier = "v";
  client_id = "c";
  client_secret = none;
  token_endpoint = "https://a.example/token";
  redirect_uri = "http://localhost/cb";
  started_at = 1000;
}

take_once_example :
    let taken =
      take "s" 1500
        (calls (parking "t" sign_in 1200 ∷ taking "t" 1300 ∷ []) (park "s" sign_in 1000 [])) in
    (taken.0 ≡ some sign_in) × ((take "s" 1501 (calls (counting 1500 ∷ []) taken.1)).0 ≡ none)
unfolding all_leave any_parks
take_once_example =
    take_once "s" sign_in [] (parking "t" sign_in 1200 ∷ taking "t" 1300 ∷ []) (counting 1500 ∷ [])
      1000 1500 1501 refl refl refl

expired_is_gone : (take "s" 1601 (park "s" sign_in 1000 [])).0 ≡ none
unfolding take park pruned retain lookup insert
expired_is_gone = refl
