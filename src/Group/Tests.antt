-- ===== src/Group/Tests.antt =====
-- Concrete calls of the group service.
use open_im_server.Base.{
  ◌+◌, ◌≡◌, ◌≢◌, refl, ap, length, Bytes, bytes_discrete, codes, List, [], ◌∷◌, some, arith,
}
use open_im_server.Auth.Access.{is_app_manager_uid}
use open_im_server.Group.Model.{Db, GroupMemberModel, GroupServices}
use open_im_server.Group.Sample.{
  k, sv_of, group_of, member, db_with, db, sv_of-TableLaws, db-IsGood, k-DistinctRoles,
}
use open_im_server.Group.Db.Laws.{member_row}
use open_im_server.Group.Valid.{owners}
use open_im_server.Group.Rooted.{IsGood}
use open_im_server.Group.Leave.{KickReq, kick_group_member}
use open_im_server.Group.Leave.Owner.{kick_keeps_owner}
use open_im_server.Group.Join.{JoinReq, join_group}
use open_im_server.Group.Join.Laws.{LeavesRoles}
use open_im_server.Group.Join.Entry.{JoinDone, join_group-JoinDone}
use open_im_server.Group.Invite.{InviteReq, invite_user_to_group}
use open_im_server.Group.Answer.{ApplicationReq, group_application_response}
use open_im_server.Group.Answer.Once.{
  AnswerDone, group_application_response-AnswerDone, answered_once,
}
use open_im_server.Group.Rule.{TransferReq, transfer_group_owner, mute_group, cancel_mute_group}
use open_im_server.Group.Rule.Transfer.{transfer_keeps_owners, transfer_adds_owner}
use open_im_server.Group.People.{check_group_admin}
use open_im_server.Group.Rule.Status.{HasStatus, status_overwritten}
use open_im_server.Group.Edit.{set_group_member_info}
use open_im_server.Group.Edit.Laws.{LeavesSetRoles}
use open_im_server.Group.Edit.Promote.{promotion, promoted}
use open_im_server.Group.Create.{CreateReq, create_group}
use open_im_server.Group.Create.Entry.{CreateDone, create_group-CreateDone}
use open_im_server.Group.Calls.{
  Call, ByMember, kick, invite, transfer, IsFair, after_calls, after_calls-IsGood,
}

sv_of-LeavesRoles : (op : Bytes) → LeavesRoles (sv_of op)
sv_of-LeavesRoles op m ex = refl

sv_of-LeavesSetRoles : (op : Bytes) → LeavesSetRoles (sv_of op)
sv_of-LeavesSetRoles op m = refl

abbrev a_admin : GroupServices
a_admin = sv_of (codes "a")

abbrev the_owner : GroupServices
the_owner = sv_of (codes "o")

abbrev a_manager : GroupServices
a_manager = sv_of (codes "root")

abbrev a_member : GroupServices
a_member = sv_of (codes "b")

abbrev kick_b : KickReq
kick_b = record { group_id = codes "g"; kicked_user_ids = codes "b" ∷ [] }

kick_keeps_owner_example :
    owners k (codes "g") (kick_group_member a_admin kick_b db).db ≡ owners k (codes "g") db
unfolding bytes_discrete kick_group_member is_app_manager_uid
kick_keeps_owner_example =
    kick_keeps_owner a_admin (sv_of-TableLaws (codes "a")) kick_b db (db-IsGood 0).0 refl
      (codes "g")

one_owner : owners k (codes "g") db ≡ 1
unfolding bytes_discrete
one_owner = refl

kicked_b : owners k (codes "g") (kick_group_member a_admin kick_b db).db ≡ 1
unfolding bytes_discrete kick_group_member is_app_manager_uid
kicked_b = refl

abbrev to_a : TransferReq
to_a = record { group_id = codes "g"; old_owner_user_id = codes "o"; new_owner_user_id = codes "a" }

abbrev b_to_a : TransferReq
b_to_a = record {
  group_id = codes "g";
  old_owner_user_id = codes "b";
  new_owner_user_id = codes "a";
}

transfer_keeps_owners_example :
    owners k (codes "g") (transfer_group_owner the_owner to_a db).db ≡ owners k (codes "g") db
unfolding is_app_manager_uid bytes_discrete
transfer_keeps_owners_example =
    transfer_keeps_owners the_owner (sv_of-TableLaws (codes "o")) to_a db refl (codes "g")

two_owners : owners k (codes "g") (transfer_group_owner a_manager b_to_a db).db ≡ 2
unfolding bytes_discrete is_app_manager_uid transfer_group_owner
two_owners = refl

changed_by_b_to_a : (transfer_group_owner a_manager b_to_a db).db ≢ db
changed_by_b_to_a e = ground (arith, two_owners, ap (owners k (codes "g")) e, one_owner)

transfer_adds_owner_example :
    owners k (codes "g") (transfer_group_owner a_manager b_to_a db).db ≡ owners k (codes "g") db + 1
unfolding bytes_discrete
transfer_adds_owner_example =
    transfer_adds_owner a_manager (sv_of-TableLaws (codes "root")) b_to_a db (member (codes "b") 20)
      refl (ground arith) changed_by_b_to_a

promoted_example :
    (r : GroupMemberModel) × (member_row
        (codes "g")
        (codes "b")
        (set_group_member_info a_member (promotion a_member (codes "g") ∷ []) db).db
      ≡ some r)
    × (r.role_level ≡ 60)
unfolding is_app_manager_uid bytes_discrete
promoted_example =
    promoted a_member (sv_of-TableLaws (codes "b")) (codes "g") db _ (member (codes "b") 20)
      k-DistinctRoles (ground arith) refl refl refl refl refl refl

abbrev accept_c : ApplicationReq
accept_c = record { group_id = codes "g"; from_user_id = codes "c"; handle_result = 1 }

abbrev refuse_c : ApplicationReq
refuse_c = record { group_id = codes "g"; from_user_id = codes "c"; handle_result = 7 }

accepted_c : length (group_application_response a_admin accept_c db).db.members ≡ 4
unfolding bytes_discrete is_app_manager_uid group_application_response
accepted_c = refl

changed_by_accept_c : (group_application_response a_admin accept_c db).db ≢ db
changed_by_accept_c e = ground (arith, accepted_c, ap (λ d. length d.members) e)

group_application_response-AnswerDone_example :
    AnswerDone a_admin accept_c db (group_application_response a_admin accept_c db).db
group_application_response-AnswerDone_example =
    group_application_response-AnswerDone a_admin (sv_of-TableLaws (codes "a")) accept_c db
      (sv_of-LeavesRoles (codes "a"))

answered_once_example :
    (group_application_response the_owner refuse_c
      (group_application_response a_admin accept_c db).db).db
    ≡ (group_application_response a_admin accept_c db).db
answered_once_example =
    answered_once a_admin the_owner (sv_of-TableLaws (codes "a")) (sv_of-TableLaws (codes "o"))
      accept_c refuse_c db (sv_of-LeavesRoles (codes "a")) (sv_of-LeavesRoles (codes "o"))
      (omega arith, omega arith) (refl, refl) changed_by_accept_c

abbrev new_group : CreateReq
new_group = record {
  member_user_ids = codes "b" ∷ [];
  admin_user_ids = codes "a" ∷ [];
  owner_user_id = codes "o";
  group_info = group_of [] 0;
}

create_group-CreateDone_example :
    CreateDone the_owner db (create_group the_owner new_group db).db
    × IsGood k (create_group the_owner new_group db).db
create_group-CreateDone_example =
    create_group-CreateDone the_owner (sv_of-TableLaws (codes "o")) new_group db k-DistinctRoles
      (sv_of-LeavesRoles (codes "o")) (db-IsGood 0)

created_owner : owners k (codes "new") (create_group the_owner new_group db).db ≡ 1
unfolding bytes_discrete is_app_manager_uid create_group
created_owner = refl

abbrev join_d : JoinReq
join_d = record {
  group_id = codes "g";
  req_message = [];
  join_source = 3;
  inviter_user_id = codes "d";
  ex = [];
}

joined_directly : length (join_group (sv_of (codes "d")) join_d (db_with 2)).db.members ≡ 4
unfolding bytes_discrete join_group
joined_directly = refl

join_group-JoinDone_example :
    JoinDone
      (sv_of (codes "d"))
      join_d
      (db_with 2)
      (join_group (sv_of (codes "d")) join_d (db_with 2)).db
join_group-JoinDone_example =
    join_group-JoinDone (sv_of (codes "d")) (sv_of-TableLaws (codes "d")) join_d (db_with 2)
      (sv_of-LeavesRoles (codes "d"))

abbrev invite_e : InviteReq
invite_e = record { group_id = codes "g"; invited_user_ids = codes "e" ∷ [] }

invited_by_member : length (invite_user_to_group a_member invite_e (db_with 1)).db.requests ≡ 2
unfolding bytes_discrete is_app_manager_uid invite_user_to_group
invited_by_member = refl

-- The group, dismissed.
abbrev dismissed : Db
dismissed = record db { groups = record (group_of (codes "g") 0) { status = 2 } ∷ [] }

status_overwritten_example :
    HasStatus (codes "g") 3 dismissed (mute_group a_admin (codes "g") dismissed).db
    × HasStatus (codes "g") 0 dismissed (cancel_mute_group a_admin (codes "g") dismissed).db
unfolding bytes_discrete is_app_manager_uid check_group_admin
status_overwritten_example =
    status_overwritten a_admin (sv_of-TableLaws (codes "a")) (codes "g") dismissed _ refl refl
      λ status. (_, refl)

sv_of-IsFair : (op : Bytes) (c : Call) → ByMember (sv_of op) c → IsFair k (sv_of op, c)
sv_of-IsFair op c h = record {
  same_constants = refl;
  tables = sv_of-TableLaws op;
  leaves_roles = sv_of-LeavesRoles op;
  leaves_set_roles = sv_of-LeavesSetRoles op;
  by_member = h;
}

abbrev three_calls : List (GroupServices × Call)
three_calls = (a_admin, kick kick_b) ∷ (the_owner, transfer to_a) ∷ (a_member, invite invite_e) ∷ []

after_calls-IsGood_example : IsGood k (after_calls three_calls db)
unfolding is_app_manager_uid bytes_discrete
after_calls-IsGood_example =
    after_calls-IsGood k three_calls db k-DistinctRoles
      (
        sv_of-IsFair (codes "a") (kick kick_b) tt,
        (
          sv_of-IsFair (codes "o") (transfer to_a) refl,
          (sv_of-IsFair (codes "b") (invite invite_e) tt, tt),
        ),
      )
      (db-IsGood 0)
