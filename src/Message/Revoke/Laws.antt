-- ===== src/Message/Revoke/Laws.antt =====
-- Who can revoke which message (internal/rpc/msg/revoke.go).
use open_im_server.Base.{
  ℕ, ◌≡◌, ◌≢◌, ◌⊎◌, inl, inr, refl, ap, ◌∙◌, true, Bytes, bytes_discrete, List, [], ◌∷◌, Option,
  none, some, Map, lookup, Result, ok, >>=-eq-ok, arith, Bool-cases, Option-cases, Result-cases,
}
use open_im_server.Auth.Access.{Config, check_access_v3, is_app_manager_uid}
use open_im_server.Auth.Access.Laws.{check_access_v3_iff}
use open_im_server.Processor.Conversation.{
  SessionType, single_chat_type, group_chat_type, super_group_chat_type, notification_chat_type,
  other_session_type,
}
use open_im_server.Message.Model.{Constants, MsgData}
use open_im_server.Message.Verify.{GroupMember}
use open_im_server.Message.Revoke.{
  RevokeReq, RevokeServices, RevokeEffect, UserInfo, get_group_member_info_map, check_roles,
  group_role, session_role, revoke_role, authorize, authorize_found, revoke_msg, check_revoke_args,
}

-- The map holds for each listed user what the service answers.
lookup-get_group_member_info_map :
    (get : Bytes → Bytes → Result GroupMember) (g : Bytes) (ids : List Bytes)
    (m : Map Bytes GroupMember) (id : Bytes) (member : GroupMember)
    → get_group_member_info_map get g ids ≡ ok m
    → lookup bytes_discrete id m ≡ some member
    → get g id ≡ ok member
unfolding get_group_member_info_map lookup
lookup-get_group_member_info_map get g [] m id member h l = ground arith
lookup-get_group_member_info_map get g (j ∷ ids) m id member h l = elim (Result-cases (get g j)) [
  | inl (mj, e) ↦ elim (Result-cases (get_group_member_info_map get g ids)) [
    | inl (rest, e') ↦ ground (arith, lookup-get_group_member_info_map get g ids rest id member)
    | inr q ↦ ground (arith)
  ]
  | inr q ↦ ground (arith, lookup-get_group_member_info_map get g ids m id member)
]

-- Who may revoke a group message of somebody else: the owner, and an admin if the sender is an
-- ordinary member.
abbrev pub OutRanks : Constants → RevokeServices → RevokeReq → MsgData → Type 0
OutRanks k sv req m =
    (mine : GroupMember) × (sv.get_group_member m.group_id req.user_id ≡ ok mine)
    × ((mine.role_level ≡ k.group_owner)
        ⊎ ((mine.role_level ≡ k.group_admin)
            × ((theirs : GroupMember) × (sv.get_group_member m.group_id m.send_id ≡ ok theirs)
                × (theirs.role_level ≡ k.group_ordinary_users))))

-- What entitles to revoke a message: to be an app manager, or to act for oneself and to have sent the
-- message, or to outrank its sender in the group.
abbrev pub MayRevoke : Constants → Config → RevokeServices → Bytes → RevokeReq → MsgData → Type 0
MayRevoke k config sv op_user_id req m =
    (is_app_manager_uid config op_user_id ≡ true)
    ⊎ ((op_user_id ≡ req.user_id)
        × ((op_user_id ≡ m.send_id)
            ⊎ ((m.session_type ≡ super_group_chat_type) × OutRanks k sv req m)))

check_roles-OutRanks :
    (k : Constants) (sv : RevokeServices) (req : RevokeReq) (m : MsgData) (ids : List Bytes)
    (members : Map Bytes GroupMember)
    → get_group_member_info_map sv.get_group_member m.group_id ids ≡ ok members
    → check_roles k members req.user_id m.send_id ≡ ok tt
    → OutRanks k sv req m
unfolding check_roles
check_roles-OutRanks k sv req m ids members read h =
    elim (Option-cases (lookup bytes_discrete req.user_id members)) [
      | inl none_eq ↦ ground arith
      | inr (mine, e) ↦ elim (Option-cases (lookup bytes_discrete m.send_id members)) [
        | inl e' ↦ ground (
          arith,
          lookup-get_group_member_info_map sv.get_group_member m.group_id ids members req.user_id
              mine read e,
        )
        | inr (theirs, e') ↦ ground (
          arith,
          lookup-get_group_member_info_map sv.get_group_member m.group_id ids members req.user_id
              mine read e,
          lookup-get_group_member_info_map sv.get_group_member m.group_id ids members m.send_id
              theirs read e',
        )
      ]
    ]

group_role-OutRanks :
    (k : Constants) (sv : RevokeServices) (req : RevokeReq) (m : MsgData) (role : ℕ)
    → group_role k sv req m ≡ ok role
    → (req.user_id ≡ m.send_id) ⊎ OutRanks k sv req m
unfolding group_role
group_role-OutRanks k sv req m role h = elim (bytes_discrete req.user_id m.send_id) [
  | yes e ↦ inl e
  | no n ↦
      let (members, read, h2) =
        >>=-eq-ok
          (get_group_member_info_map sv.get_group_member m.group_id
            (sv.distinct (req.user_id ∷ m.send_id ∷ [])))
          _ h in
      elim (Result-cases (check_roles k members req.user_id m.send_id)) [
        | inl (u, e) ↦ inr (check_roles-OutRanks k sv req m _ members read e)
        | inr (x, e) ↦ ground (arith, h2, e, n)
      ]
]

session_role-MayRevoke :
    (t : SessionType) (k : Constants) (config : Config) (sv : RevokeServices) (op_user_id : Bytes)
    (req : RevokeReq) (user : UserInfo) (m : MsgData) (role : ℕ)
    → m.session_type ≡ t
    → check_access_v3 config op_user_id req.user_id ≡ ok tt
    → session_role t k config sv op_user_id req user m ≡ ok role
    → MayRevoke k config sv op_user_id req m
session_role-MayRevoke single_chat_type k config sv op req user m role t own h =
    elim (Result-cases (check_access_v3 config op m.send_id)) [
      | inl (u, e) ↦ elim ((check_access_v3_iff config op m.send_id).0 e) [
        | inl a ↦ inl a
        | inr e' ↦ elim ((check_access_v3_iff config op req.user_id).0 own) [
          | inl a ↦ inl a
          | inr e'' ↦ inr (e'', inl e')
        ]
      ]
      | inr (x, e) ↦ ground (arith)
    ]
session_role-MayRevoke super_group_chat_type k config sv op req user m role t own h =
    elim ((check_access_v3_iff config op req.user_id).0 own) [
      | inl a ↦ inl a
      | inr e ↦ elim (group_role-OutRanks k sv req m role h) [
        | inl e' ↦ inr (e, inl (e ∙ e'))
        | inr r ↦ inr (e, inr (t, r))
      ]
    ]
session_role-MayRevoke group_chat_type k config sv op req user m role t own h = cc
session_role-MayRevoke notification_chat_type k config sv op req user m role t own h = cc
session_role-MayRevoke (other_session_type x) k config sv op req user m role t own h = cc

session_MayRevoke-role :
    (k : Constants) (config : Config) (sv : RevokeServices) (op_user_id : Bytes) (req : RevokeReq)
    (user : UserInfo) (m : MsgData) (role : ℕ)
    → check_access_v3 config op_user_id req.user_id ≡ ok tt
    → revoke_role k config sv op_user_id req user m ≡ ok role
    → MayRevoke k config sv op_user_id req m
unfolding revoke_role
session_MayRevoke-role k config sv op req user m role own h =
    elim (Bool-cases (is_app_manager_uid config op)) [
      | inl a ↦ inl a
      | inr n ↦
          session_role-MayRevoke m.session_type k config sv op req user m role refl own (rw n at h)
    ]

authorize_found-MayRevoke :
    (k : Constants) (config : Config) (sv : RevokeServices) (op_user_id : Bytes) (req : RevokeReq)
    (user user' : UserInfo) (found : Option MsgData) (m : MsgData) (role : ℕ)
    → check_access_v3 config op_user_id req.user_id ≡ ok tt
    → authorize_found k config sv op_user_id req user found ≡ ok (user', m, role)
    → (found ≡ some m)
      × (m.content_type ≢ k.msg_revoke_notification)
      × MayRevoke k config sv op_user_id req m
unfolding authorize_found
authorize_found-MayRevoke k config sv op req user user' none m role own h = cc
authorize_found-MayRevoke k config sv op req user user' (some m') m role own h =
    elim (Result-cases (revoke_role k config sv op req user m')) [
      | inl (r, e) ↦
          let may = session_MayRevoke-role k config sv op req user m' r own e in
          let same : m' ≡ m = ground (arith) in
          (ap some same, rw (← same) (ground (arith)), rw (← same) may)
      | inr (x, e) ↦ ground (arith)
    ]

authorize-MayRevoke :
    (k : Constants) (config : Config) (sv : RevokeServices) (op_user_id : Bytes) (req : RevokeReq)
    (user : UserInfo) (m : MsgData) (role : ℕ)
    → authorize k config sv op_user_id req ≡ ok (user, m, role)
    → (sv.get_msg_by_seq req.user_id req.conversation_id req.seq ≡ ok (some m))
      × (m.content_type ≢ k.msg_revoke_notification)
      × MayRevoke k config sv op_user_id req m
unfolding authorize
authorize-MayRevoke k config sv op req user m role h =
    let (u1, checked, h1) = >>=-eq-ok (check_revoke_args req) _ h in
    let (u2, own, h2) = >>=-eq-ok (check_access_v3 config op req.user_id) _ h1 in
    let (user', got, h3) = >>=-eq-ok (sv.get_user_info req.user_id) _ h2 in
    let (found, e, h4) =
      >>=-eq-ok (sv.get_msg_by_seq req.user_id req.conversation_id req.seq) _ h3 in
    let (same, fresh, may) =
      authorize_found-MayRevoke k config sv op req user' user found m role own h4 in
    (e ∙ ap ok same, fresh, may)

-- A change is made only to a message that is stored under the number, that is not revoked yet, and
-- that the user who acts may revoke: an app manager, or a user acting for himself who sent it or
-- outranks its sender in the group (its owner, or an admin for a message of an ordinary member).
pub revoke_msg_authorized :
    (k : Constants) (config : Config) (sv : RevokeServices) (op_user_id : Bytes) (req : RevokeReq)
    (e : RevokeEffect) (es : List RevokeEffect)
    → (revoke_msg k config sv op_user_id req).0 ≡ e ∷ es
    → (m : MsgData) × (sv.get_msg_by_seq req.user_id req.conversation_id req.seq ≡ ok (some m))
      × (m.content_type ≢ k.msg_revoke_notification)
      × MayRevoke k config sv op_user_id req m
unfolding revoke_msg
revoke_msg_authorized k config sv op req e es h =
    elim (Result-cases (authorize k config sv op req)) [
      | inl ((user, m, role), a) ↦
          let (stored, fresh, may) = authorize-MayRevoke k config sv op req user m role a in
          (m, stored, fresh, may)
      | inr (x, a) ↦ ground (arith)
    ]
