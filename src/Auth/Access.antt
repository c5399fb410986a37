-- ===== src/Auth/Access.antt =====
-- The permission checks of pkg/authverify/token.go. `op_user_id` is mcontext.GetOpUserID(ctx).
pub mod Laws
use open_im_server.Base.{
  ℕ, Bool, true, false, not, ◌&&◌, ◌||◌, Bytes, bytes_discrete, List, [], ◌∷◌, contains, dec_true,
  if◌then◌else◌, Error, err_no_permission, Result, ok, err,
}

-- The part of config.GlobalConfig that the checks read.
pub record Config : Type 0 where
  pub manager : List Bytes
  pub im_admin : List Bytes
  pub secret : Bytes

-- `len(config.Manager.UserID) > 0 && utils.IsContain(id, config.Manager.UserID)`
abbrev pub is_manager : Bytes → List Bytes → Bool
is_manager id [] = false
is_manager id (m ∷ ms) = contains bytes_discrete id (m ∷ ms)

unfoldable pub check_access_v3 : Config → Bytes → Bytes → Result (Unit {0})
check_access_v3 config op_user_id owner_user_id =
    if is_manager op_user_id config.manager
    then ok tt
    else if contains bytes_discrete op_user_id config.im_admin
    then ok tt
    else if dec_true (bytes_discrete op_user_id owner_user_id)
    then ok tt
    else err err_no_permission

unfoldable pub is_app_manager_uid : Config → Bytes → Bool
is_app_manager_uid config op_user_id =
    is_manager op_user_id config.manager || contains bytes_discrete op_user_id config.im_admin

unfoldable pub check_admin : Config → Bytes → Result (Unit {0})
check_admin config op_user_id =
    if is_manager op_user_id config.manager
    then ok tt
    else if contains bytes_discrete op_user_id config.im_admin
    then ok tt
    else err err_no_permission

unfoldable pub check_im_admin : Config → Bytes → Result (Unit {0})
check_im_admin config op_user_id =
    if contains bytes_discrete op_user_id config.im_admin
    then ok tt
    else if is_manager op_user_id config.manager
    then ok tt
    else err err_no_permission

unfoldable pub is_manager_user_id : Config → Bytes → Bool
is_manager_user_id config op_user_id =
    is_manager op_user_id config.manager || contains bytes_discrete op_user_id config.im_admin
