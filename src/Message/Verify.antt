-- ===== src/Message/Verify.antt =====
-- Whether a message may be sent (internal/rpc/msg/verify.go, `messageVerification`).
pub mod Laws
use open_im_server.Base.{
  ℕ, ◌==◌, ltb, leb, Bool, true, false, not, ◌&&◌, ◌||◌, Bytes, bytes_discrete, List, Option, none,
  some, contains, if◌then◌else◌, Error, err_blocked_by_peer, err_not_peers_friend,
  err_dismissed_already, err_not_in_group_yet, err_muted_in_group, err_muted_group,
  is_record_not_found, Result, ok, err, ◌>>=◌, ◌>>◌,
}
use open_im_server.Auth.Access.{is_manager}
use open_im_server.Processor.Conversation.{SessionType, single_chat_type, super_group_chat_type}
use open_im_server.Message.Model.{Constants, MsgConfig, MsgData}

pub record GroupInfo : Type 0 where
  pub status : ℕ
  pub group_type : ℕ

pub record GroupMember : Type 0 where
  pub role_level : ℕ
  pub mute_end_time : ℕ

-- The caches that the check reads, and the clock in milliseconds.
pub record Caches : Type 0 where
  pub is_black : Bytes → Bytes → Result Bool
  pub is_friend : Bytes → Bytes → Result Bool
  pub get_group_info : Bytes → Result GroupInfo
  pub get_group_member_id_map : Bytes → Result (List Bytes)
  pub get_group_member : Bytes → Bytes → Result GroupMember
  pub now : ℕ

abbrev pub is_app_manager : MsgConfig → Bytes → Bool
is_app_manager config id =
    is_manager id config.access.manager || contains bytes_discrete id config.access.im_admin

abbrev pub is_notification_content : Constants → ℕ → Bool
is_notification_content k t = leb t k.notification_end && leb k.notification_begin t

-- `FriendVerify != nil && *FriendVerify`
abbrev pub wants_friend : Option Bool → Bool
wants_friend none = false
wants_friend (some b) = b

unfoldable pub verify_friend : MsgConfig → Caches → MsgData → Result (Unit {0})
verify_friend config cs m =
    if wants_friend config.friend_verify
    then (do
      friend ← cs.is_friend m.send_id m.recv_id
      if not friend then err err_not_peers_friend else ok tt)
    else ok tt

unfoldable pub verify_single : Constants → MsgConfig → Caches → MsgData → Result (Unit {0})
unfolding verify_friend
verify_single k config cs m =
    if is_app_manager config m.send_id
    then ok tt
    else if is_notification_content k m.content_type
    then ok tt
    else do
      black ← cs.is_black m.send_id m.recv_id
      if black then err err_blocked_by_peer else verify_friend config cs m

-- A member that is not found is not in the group.
abbrev pub or_not_in_group : Result GroupMember → Result GroupMember
or_not_in_group (ok g) = ok g
or_not_in_group (err e) = if is_record_not_found e then err err_not_in_group_yet else err e

unfoldable pub verify_role : Constants → Caches → GroupInfo → GroupMember → Result (Unit {0})
verify_role k cs g member =
    if member.role_level == k.group_owner
    then ok tt
    else if leb cs.now member.mute_end_time
    then err err_muted_in_group
    else if g.status == k.group_status_muted && not (member.role_level == k.group_admin)
    then err err_muted_group
    else ok tt

unfoldable pub verify_member : Constants → Caches → GroupInfo → MsgData → Result (Unit {0})
unfolding verify_role
verify_member k cs g m = do
  member_ids ← cs.get_group_member_id_map m.group_id
  if not (contains bytes_discrete m.send_id member_ids) then err err_not_in_group_yet else do
    member ← or_not_in_group (cs.get_group_member m.group_id m.send_id)
    verify_role k cs g member

unfoldable pub verify_group : Constants → MsgConfig → Caches → MsgData → Result (Unit {0})
unfolding verify_member
verify_group k config cs m = do
  g ← cs.get_group_info m.group_id
  if g.status == k.group_status_dismissed && not (m.content_type == k.group_dismissed_notification)
      then err err_dismissed_already
      else if g.group_type == k.super_group
      then ok tt
      else if is_app_manager config m.send_id
      then ok tt
      else if is_notification_content k m.content_type
      then ok tt
      else verify_member k cs g m

abbrev pub verify_session :
    SessionType → Constants → MsgConfig → Caches → MsgData → Result (Unit {0})
verify_session single_chat_type k config cs m = verify_single k config cs m
verify_session super_group_chat_type k config cs m = verify_group k config cs m
verify_session _ k config cs m = ok tt

unfoldable pub message_verification : Constants → MsgConfig → Caches → MsgData → Result (Unit {0})
unfolding verify_single verify_group
message_verification k config cs m = verify_session m.session_type k config cs m
