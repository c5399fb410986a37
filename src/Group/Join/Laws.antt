-- ===== src/Group/Join/Laws.antt =====
-- Who enters a group by JoinGroup, and the invariants through it.
use open_im_server.Base.{
  ℕ, ◌≡◌, ◌≢◌, refl, ap, ◌==◌, true, false, not, Bytes, List, [], ◌∷◌, Option, none, some,
  is_record_not_found, Error, err_record_not_found, err_dismissed_already, Result, ok, err, OnOk,
  >>=-OnOk, >>=-OnOk_of, require, require-OnOk, if-cases, arith,
}
use open_im_server.Group.Driver.{first}
use open_im_server.Group.Driver.Laws.{first-passes}
use open_im_server.Group.Model.{
  GroupModel, GroupMemberModel, GroupRequestModel, UserInfo, JoinReply, Db, GroupServices,
  GroupConstants, is_group,
}
use open_im_server.Group.Rows.{with_requests}
use open_im_server.Group.Db.{
  take_group, take_group_member, delete_group_requests, create_group_request,
}
use open_im_server.Group.Db.Laws.{TableLaws, member_row}
use open_im_server.Group.People.{get_user_info, with_reply, callback_join}
use open_im_server.Group.Join.{JoinReq, check_not_member, check_join_req}

-- The roles that the service tells from an owner.
pub record DistinctRoles (k : GroupConstants) : Type 0 where
  pub admin_no_owner : k.group_admin ≢ k.group_owner
  pub ordinary_no_owner : k.group_ordinary_users ≢ k.group_owner

-- The webhook replaces no role.
abbrev pub LeavesRoles : GroupServices → Type 0
LeavesRoles sv =
    (m : GroupMemberModel) (ex : Bytes)
    → OnOk (λ r. (with_reply r m).role_level ≡ m.role_level)
        (sv.callback_before_member_join_group m ex)

-- The member that the webhook gives is that of its group and user, with its role.
abbrev pub SameMember : GroupMemberModel → GroupMemberModel → Type 0
SameMember m n = (n.group_id ≡ m.group_id) × (n.user_id ≡ m.user_id) × (n.role_level ≡ m.role_level)

with_reply-SameMember :
    (r : Option JoinReply) (m : GroupMemberModel)
    → (with_reply r m).role_level ≡ m.role_level
    → SameMember m (with_reply r m)
with_reply-SameMember none m h = (refl, refl, refl)
with_reply-SameMember (some r) m h = (refl, refl, h)

pub callback_join-SameMember :
    (sv : GroupServices) (ex : Bytes) (m : GroupMemberModel)
    → LeavesRoles sv
    → OnOk (SameMember m) (callback_join sv ex m)
callback_join-SameMember sv ex m h =
    >>=-OnOk_of _ (SameMember m) (sv.callback_before_member_join_group m ex) _ (h m ex)
      λ r same. with_reply-SameMember r m same

-- What the checks of a join have found.
abbrev pub JoinChecked : GroupServices → JoinReq → Db → UserInfo × GroupModel → Type 0
JoinChecked sv req db found =
    (first (is_group req.group_id) db.groups ≡ some found.1)
    × ((found.1.status == sv.k.group_status_dismissed) ≡ false)
    × (member_row req.group_id req.inviter_user_id db ≡ none)

pub is_record_not_found-eq : (e : Error) → is_record_not_found e ≡ true → e ≡ err_record_not_found
is_record_not_found-eq err_record_not_found h = refl
is_record_not_found-eq _ h = ground arith

pub not_found-OnOk :
    {P : Type 0} (r : Result GroupMemberModel)
    → (r ≡ err err_record_not_found → P)
    → OnOk (λ u. P) (check_not_member r)
not_found-OnOk (ok m) h = tt
not_found-OnOk {P = P} (err e) h =
    if-cases (OnOk (λ u. P)) (is_record_not_found e)
      (λ t. h (ap (λ x. err x) (is_record_not_found-eq e t))) (λ t. tt)

not_member_absent :
    (sv : GroupServices) (laws : TableLaws sv) (group_id user_id : Bytes) (db : Db)
    → OnOk
        (λ u. member_row group_id user_id db ≡ none)
        (check_not_member (take_group_member sv group_id user_id db))
not_member_absent sv laws group_id user_id db =
    not_found-OnOk (take_group_member sv group_id user_id db)
      λ h. laws.member_laws.find_one-absent _ db.members h

pub check_join_req-JoinChecked :
    (sv : GroupServices) (laws : TableLaws sv) (req : JoinReq) (db : Db)
    → OnOk (JoinChecked sv req db) (check_join_req sv req db)
unfolding check_join_req
check_join_req-JoinChecked sv laws req db =
    let P = JoinChecked sv req db in
    >>=-OnOk P (get_user_info sv req.inviter_user_id) _ λ user u.
      >>=-OnOk P (take_group sv req.group_id db) _ λ group g.
        >>=-OnOk_of _ P
          (require (not (group.status == sv.k.group_status_dismissed)) err_dismissed_already) _
          (require-OnOk _ (not (group.status == sv.k.group_status_dismissed)) _ (λ t. t))
          λ w t. >>=-OnOk P sv.callback_apply_join_group_before _ λ c d.
            >>=-OnOk_of _ P
              (check_not_member (take_group_member sv req.group_id req.inviter_user_id db)) _
              (not_member_absent sv laws req.group_id req.inviter_user_id db)
              λ n absent. (laws.group_laws.find_one-ok _ db.groups group g, ground arith, absent)

-- The user is the one that the user service gives.
pub check_join_req-user :
    (sv : GroupServices) (req : JoinReq) (db : Db)
    → OnOk (λ found. get_user_info sv req.inviter_user_id ≡ ok found.0) (check_join_req sv req db)
unfolding check_join_req
check_join_req-user sv req db =
    let P = λ (found : UserInfo × GroupModel). get_user_info sv req.inviter_user_id ≡ ok found.0 in
    >>=-OnOk P (get_user_info sv req.inviter_user_id) _ λ user u.
      >>=-OnOk P (take_group sv req.group_id db) _ λ group g.
        >>=-OnOk P (require (not (group.status == sv.k.group_status_dismissed)) _) _ λ w t.
          >>=-OnOk P sv.callback_apply_join_group_before _ λ c d.
            >>=-OnOk P (check_not_member (take_group_member sv req.group_id req.inviter_user_id db))
              _ λ n absent. u

pub ordinary_no_owner :
    (k : GroupConstants)
    → DistinctRoles k
    → (role : ℕ) → role ≡ k.group_ordinary_users
    → (role == k.group_owner) ≡ false
ordinary_no_owner k distinct role h = ground (arith, distinct.ordinary_no_owner)

pub row_group :
    (g : Bytes) (db : Db) (row : GroupModel)
    → first (is_group g) db.groups ≡ some row
    → row.group_id ≡ g
row_group g db row h = ground (arith, first-passes (is_group g) db.groups row h)

pub row_exists :
    (g : Bytes) (db : Db) (row : GroupModel)
    → first (is_group g) db.groups ≡ some row
    → first (is_group g) db.groups ≢ none
row_exists g db row h n = ground arith

-- A request replaces an earlier one, and touches nothing else.
delete_group_requests-same :
    (sv : GroupServices) (rs : List GroupRequestModel) (db : Db)
    → OnOk
        (λ new. (new.members ≡ db.members) × (new.groups ≡ db.groups))
        (delete_group_requests sv rs db)
unfolding delete_group_requests
delete_group_requests-same sv [] db = (refl, refl)
delete_group_requests-same sv (r ∷ rs) db =
    >>=-OnOk _ (sv.requests.delete_one _ db.requests) _
      λ rows h. delete_group_requests-same sv rs (with_requests db rows)

pub create_group_request-same :
    (sv : GroupServices) (rs : List GroupRequestModel) (db : Db)
    → OnOk
        (λ new. (new.members ≡ db.members) × (new.groups ≡ db.groups))
        (create_group_request sv rs db)
unfolding create_group_request
create_group_request-same sv rs db =
    >>=-OnOk_of _ _ (delete_group_requests sv rs db) _ (delete_group_requests-same sv rs db)
      λ cleared same. >>=-OnOk _ (sv.requests.insert_many rs cleared.requests) _ λ rows h. same
