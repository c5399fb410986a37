-- ===== src/Auth/Access/Laws.antt =====
-- What the permission checks of pkg/authverify/token.go decide.
use open_im_server.Base.{
  ◌≡◌, refl, ◌⊎◌, ◌↔◌, true, ◌||◌, Bytes, bytes_discrete, List, [], ◌∷◌, contains, if◌then◌else◌,
  err_no_permission, ok, err, arith,
}
use open_im_server.Auth.Access.{
  Config, is_manager, check_access_v3, is_app_manager_uid, check_admin, check_im_admin,
  is_manager_user_id,
}

-- The empty list needs no test of its own.
is_manager-contains : (id : Bytes) (l : List Bytes) → is_manager id l ≡ contains bytes_discrete id l
is_manager-contains id [] = refl
is_manager-contains id (m ∷ ms) = refl

-- `CheckAdmin`, `CheckIMAdmin`, `IsAppManagerUid` and `IsManagerUserID` are one decision: the user
-- is among the managers or among the IM admins. The two checks fail with the same error.
admin_checks_agree :
    (config : Config) (id : Bytes)
    → (check_admin config id ≡ (
        if contains bytes_discrete id config.manager || contains bytes_discrete id config.im_admin
        then ok tt
        else err err_no_permission))
      × (check_im_admin config id ≡ check_admin config id)
      × (is_app_manager_uid config id
          ≡ contains bytes_discrete id config.manager || contains bytes_discrete id config.im_admin)
      × (is_manager_user_id config id ≡ is_app_manager_uid config id)
unfolding check_admin check_im_admin is_app_manager_uid is_manager_user_id
admin_checks_agree config id = ground (arith, is_manager-contains id config.manager)

-- `CheckAccessV3` lets through exactly the app managers and the owner.
pub check_access_v3_iff :
    (config : Config) (id owner : Bytes)
    → (check_access_v3 config id owner ≡ ok tt)
      ↔ ((is_app_manager_uid config id ≡ true) ⊎ (id ≡ owner))
unfolding check_access_v3 is_app_manager_uid
check_access_v3_iff config id owner = ground arith
