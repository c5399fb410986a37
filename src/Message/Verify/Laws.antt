-- ===== src/Message/Verify/Laws.antt =====
-- Which messages internal/rpc/msg/verify.go lets through.
use open_im_server.Base.{
  ◌≡◌, ◌≢◌, ◌<◌, ◌⊎◌, inl, inr, ◌↔◌, true, false, Bytes, bytes_discrete, List, contains, Result, ok,
  err, >>=-eq-ok, arith, Bool-cases,
}
use open_im_server.Processor.Conversation.{single_chat_type, super_group_chat_type}
use open_im_server.Message.Model.{Constants, MsgConfig, MsgData}
use open_im_server.Message.Verify.{
  Caches, GroupInfo, GroupMember, is_app_manager, is_notification_content, wants_friend,
  or_not_in_group, verify_role, verify_member, message_verification,
}

-- A plain message: its sender is no admin of the app and its content is no notification.
pub record IsPlain (k : Constants) (config : MsgConfig) (m : MsgData) : Type 0 where
  pub sender : is_app_manager config m.send_id ≡ false
  pub content : is_notification_content k m.content_type ≡ false

-- What lets a member speak: it owns the group, or is not muted, and in a muted group is an admin.
abbrev pub MaySpeak : Constants → Caches → GroupInfo → GroupMember → Type 0
MaySpeak k cs g member =
    (member.role_level ≡ k.group_owner)
    ⊎ ((member.mute_end_time < cs.now)
        × ((g.status ≢ k.group_status_muted) ⊎ (member.role_level ≡ k.group_admin)))

verify_role_iff :
    (k : Constants) (cs : Caches) (g : GroupInfo) (member : GroupMember)
    → (verify_role k cs g member ≡ ok tt) ↔ MaySpeak k cs g member
unfolding verify_role
verify_role_iff k cs g member = (λ h. ground arith, λ h. ground arith)

or_not_in_group-ok :
    (r : Result GroupMember) (g : GroupMember) → or_not_in_group r ≡ ok g → r ≡ ok g
or_not_in_group-ok (ok h) g e = e
or_not_in_group-ok (err x) g e = absurd (ground arith)

-- What the membership check needs: the reads succeed and the member may speak.
abbrev pub IsSpeaker : Constants → Caches → GroupInfo → MsgData → Type 0
IsSpeaker k cs g m =
    (ids : List Bytes) × (member : GroupMember) × (cs.get_group_member_id_map m.group_id ≡ ok ids)
    × (contains bytes_discrete m.send_id ids ≡ true)
    × (cs.get_group_member m.group_id m.send_id ≡ ok member)
    × MaySpeak k cs g member

verify_member_inv :
    (k : Constants) (cs : Caches) (g : GroupInfo) (m : MsgData)
    → verify_member k cs g m ≡ ok tt
    → IsSpeaker k cs g m
unfolding verify_member
verify_member_inv k cs g m h =
    let (ids, read, rest) = >>=-eq-ok (cs.get_group_member_id_map m.group_id) _ h in
    elim (Bool-cases (contains bytes_discrete m.send_id ids)) [
      | inl here ↦
          let (member, found, role) =
            >>=-eq-ok (or_not_in_group (cs.get_group_member m.group_id m.send_id)) _
              (rw here at rest) in
          (
            ids,
            member,
            read,
            here,
            or_not_in_group-ok (cs.get_group_member m.group_id m.send_id) member found,
            (verify_role_iff k cs g member).0 role,
          )
      | inr gone ↦ absurd (cc (rw gone at rest))
    ]

verify_member-IsSpeaker :
    (k : Constants) (cs : Caches) (g : GroupInfo) (m : MsgData)
    → IsSpeaker k cs g m
    → verify_member k cs g m ≡ ok tt
unfolding verify_member
verify_member-IsSpeaker k cs g m (ids, member, read, here, found, speaks) =
    rw (read, here, found) ((verify_role_iff k cs g member).1 speaks)

-- A plain message into a group whose type is not the super group passes exactly when the group is
-- not dismissed (or the message says so), the sender is among the members, and its membership lets
-- it speak (it owns the group, or is not muted and is an admin if the group is muted).
pub group_message_iff :
    (k : Constants) (config : MsgConfig) (cs : Caches) (m : MsgData) (g : GroupInfo)
    → m.session_type ≡ super_group_chat_type
    → IsPlain k config m
    → cs.get_group_info m.group_id ≡ ok g
    → g.group_type ≢ k.super_group
    → (message_verification k config cs m ≡ ok tt) ↔ (
        ((g.status ≢ k.group_status_dismissed) ⊎ (m.content_type ≡ k.group_dismissed_notification))
        × IsSpeaker k cs g m)
unfolding message_verification
group_message_iff k config cs m g t plain info type = (
  λ h. (
    ground (arith, plain.sender, plain.content),
    verify_member_inv k cs g m (ground (arith, plain.sender, plain.content)),
  ),
  λ h. ground (arith, plain.sender, plain.content, verify_member-IsSpeaker k cs g m h.1),
)

-- A plain message to a user passes exactly when the black list can be read and has no entry, and,
-- if the configuration asks for friendship, the sender is a friend.
pub single_message_iff :
    (k : Constants) (config : MsgConfig) (cs : Caches) (m : MsgData)
    → m.session_type ≡ single_chat_type
    → IsPlain k config m
    → (message_verification k config cs m ≡ ok tt) ↔ (
        (cs.is_black m.send_id m.recv_id ≡ ok false)
        × ((wants_friend config.friend_verify ≡ false)
            ⊎ (cs.is_friend m.send_id m.recv_id ≡ ok true)))
unfolding message_verification
single_message_iff k config cs m t plain = (
  λ h. ground (arith, plain.sender, plain.content),
  λ h. ground (arith, plain.sender, plain.content),
)
