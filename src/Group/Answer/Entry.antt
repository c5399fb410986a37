-- ===== src/Group/Answer/Entry.antt =====
-- The invariants through an answer.
use open_im_server.Base.{◌≡◌, ◌≢◌, refl, [], ◌∷◌, Option, none, some, ok, >>=-eq-ok, OnOk-ok, arith}
use open_im_server.Group.Driver.{first}
use open_im_server.Group.Model.{GroupMemberModel, Db, GroupServices, is_group, is_request}
use open_im_server.Group.Rows.{with_requests, set_handled}
use open_im_server.Group.Db.{create_member, handler_group_request}
use open_im_server.Group.Db.Laws.{TableLaws}
use open_im_server.Group.Rooted.{IsGood, create_members-IsGood, same_tables-IsGood}
use open_im_server.Group.Outcome.{guarded-keeps, committed-keeps}
use open_im_server.Group.Join.Laws.{DistinctRoles, LeavesRoles, ordinary_no_owner, row_exists}
use open_im_server.Group.Answer.{
  ApplicationReq, Application, check_application, member_to_add, group_application_response,
}
use open_im_server.Group.Answer.Laws.{ApplicationChecked, check_application-ApplicationChecked}
use open_im_server.Group.Answer.Once.{Added, member_to_add-Added}

create_member-IsGood :
    (sv : GroupServices) (laws : TableLaws sv) (req : ApplicationReq)
    (member : Option GroupMemberModel) (old db new : Db)
    → DistinctRoles sv.k
    → Added sv req old member
    → first (is_group req.group_id) db.groups ≢ none
    → create_member sv member db ≡ ok new
    → IsGood sv.k db
    → IsGood sv.k new
create_member-IsGood sv laws req none old db new d added exists h v =
    same_tables-IsGood sv.k db new (ground arith, ground arith) v
create_member-IsGood sv laws req (some m) old db new d added exists h v =
    create_members-IsGood sv laws req.group_id (m ∷ []) db new
      (ordinary_no_owner sv.k d m.role_level added.4, tt) (added.2, tt) exists h v

handled-IsGood :
    (sv : GroupServices) (laws : TableLaws sv) (req : ApplicationReq) (app : Application)
    (member : Option GroupMemberModel) (db new : Db)
    → DistinctRoles sv.k
    → ApplicationChecked sv req db app
    → Added sv req db member
    → handler_group_request sv req.group_id req.from_user_id req.handle_result member db ≡ ok new
    → IsGood sv.k db
    → IsGood sv.k new
unfolding handler_group_request
handled-IsGood sv laws req app member db new d checked added made v =
    let p = is_request (req.group_id, req.from_user_id) in
    let (rs, e, made') =
      >>=-eq-ok (sv.requests.update_one p (set_handled req.handle_result) db.requests)
        (λ rs. create_member sv member (with_requests db rs)) made in
    create_member-IsGood sv laws req member db (with_requests db rs) new d added
      (row_exists req.group_id db app.group checked.1) made'
      (same_tables-IsGood sv.k db (with_requests db rs) (refl, refl) v)

pub group_application_response-IsGood :
    (sv : GroupServices) (laws : TableLaws sv) (req : ApplicationReq) (db : Db)
    → DistinctRoles sv.k
    → LeavesRoles sv
    → IsGood sv.k db
    → IsGood sv.k (group_application_response sv req db).db
unfolding group_application_response handler_group_request
group_application_response-IsGood sv laws req db d leaves v =
    let P = IsGood sv.k in
    guarded-keeps P db (check_application sv req db) _ v λ app h.
      guarded-keeps P db (member_to_add sv req app) _ v λ member m.
        committed-keeps P db (handler_group_request sv _ _ _ member db) _ v λ new made.
          let checked = OnOk-ok _ h (check_application-ApplicationChecked sv laws req db) in
          let added = OnOk-ok _ m (member_to_add-Added sv req db app leaves checked.5) in
          handled-IsGood sv laws req app member db new d checked added made v
