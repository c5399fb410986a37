-- ===== src/Group/Answer/Laws.antt =====
-- Who answers a join request.
use open_im_server.Base.{
  ◌≡◌, refl, ap, ◌∙◌, ◌⊎◌, inl, inr, ◌==◌, Bool, true, false, none, Result, ok, err,
  is_record_not_found, ◌||◌, Bytes, some, err_args, err_group_request_handled, OnOk, >>=-OnOk,
  >>=-OnOk_of, require, require-OnOk, if-cases, arith,
}
use open_im_server.Group.Driver.{first}
use open_im_server.Group.Model.{GroupMemberModel, Db, GroupServices, is_group, is_request}
use open_im_server.Group.Db.{take_group, take_group_member, take_group_request}
use open_im_server.Group.Db.Laws.{TableLaws, member_row}
use open_im_server.Group.People.{is_manager_op, is_owner_or_admin, check_group_admin}
use open_im_server.Group.Join.Laws.{is_record_not_found-eq}
use open_im_server.Group.Answer.{ApplicationReq, Application, member_exists, check_application}

-- The one who acts is an app manager, or owns or administers the group.
abbrev pub IsAdmin : GroupServices → Bytes → Db → Type 0
IsAdmin sv group_id db =
    (is_manager_op sv ≡ true)
    ⊎ ((m : GroupMemberModel) × (member_row group_id sv.op_user_id db ≡ some m)
        × (is_owner_or_admin sv.k m.role_level ≡ true))

pub check_group_admin-IsAdmin :
    (sv : GroupServices) (laws : TableLaws sv) (group_id : Bytes) (db : Db)
    → OnOk (λ u. IsAdmin sv group_id db) (check_group_admin sv group_id db)
unfolding check_group_admin
check_group_admin-IsAdmin sv laws group_id db =
    let P = λ (u : Unit {0}). IsAdmin sv group_id db in
    if-cases (OnOk P) (is_manager_op sv) (λ e. inl e)
      λ n. >>=-OnOk P (take_group_member sv group_id sv.op_user_id db) _ λ m h.
        if-cases (OnOk P) (is_owner_or_admin sv.k m.role_level)
          (λ t. inr (m, laws.member_laws.find_one-ok _ db.members m h, t)) (λ f. tt)

-- Whether the table has a row for the user who applied.
abbrev pub InGroup : ApplicationReq → Db → Bool → Type 0
InGroup req db false = member_row req.group_id req.from_user_id db ≡ none
InGroup req db true =
    (m : GroupMemberModel) × (member_row req.group_id req.from_user_id db ≡ some m)

-- What the checks of an answer have found.
abbrev pub ApplicationChecked : GroupServices → ApplicationReq → Db → Application → Type 0
ApplicationChecked sv req db app =
    IsAdmin sv req.group_id db
    × (first (is_group req.group_id) db.groups ≡ some app.group)
    × (first (is_request (req.group_id, req.from_user_id)) db.requests ≡ some app.request)
    × (app.request.handle_result ≡ 0)
    × (req.handle_result ≡ sv.k.group_response_agree
        ⊎ req.handle_result ≡ sv.k.group_response_refuse)
    × InGroup req db app.in_group

member_exists-InGroup :
    (sv : GroupServices) (laws : TableLaws sv) (req : ApplicationReq) (db : Db)
    → OnOk (InGroup req db) (member_exists (take_group_member sv req.group_id req.from_user_id db))
member_exists-InGroup sv laws req db =
    go (take_group_member sv req.group_id req.from_user_id db) refl
  where
    go :
        (r : Result GroupMemberModel)
        → take_group_member sv req.group_id req.from_user_id db ≡ r
        → OnOk (InGroup req db) (member_exists r)
    go (ok m) e = (m, laws.member_laws.find_one-ok _ db.members m e)
    go (err x) e =
        if-cases (OnOk (InGroup req db)) (is_record_not_found x)
          (λ t.
            laws.member_laws.find_one-absent _ db.members
              (e ∙ ap (λ y. err y) (is_record_not_found-eq x t)))
          (λ t. tt)

pub check_application-ApplicationChecked :
    (sv : GroupServices) (laws : TableLaws sv) (req : ApplicationReq) (db : Db)
    → OnOk (ApplicationChecked sv req db) (check_application sv req db)
unfolding check_application
check_application-ApplicationChecked sv laws req db =
    let P = ApplicationChecked sv req db in
    let known =
      req.handle_result == sv.k.group_response_agree
      || req.handle_result == sv.k.group_response_refuse in
    >>=-OnOk_of _ P (require known err_args) _ (require-OnOk _ known err_args (λ t. t))
      λ a is_known.
        >>=-OnOk_of _ P (check_group_admin sv req.group_id db) _
          (check_group_admin-IsAdmin sv laws req.group_id db)
          λ b admin. >>=-OnOk P (take_group sv req.group_id db) _ λ group g.
            >>=-OnOk P (take_group_request sv req.group_id req.from_user_id db) _ λ request r.
              >>=-OnOk_of _ P (require (request.handle_result == 0) err_group_request_handled) _
                (require-OnOk _ (request.handle_result == 0) err_group_request_handled (λ t. t))
                λ c pending.
                  >>=-OnOk_of _ P
                    (member_exists (take_group_member sv req.group_id req.from_user_id db)) _
                    (member_exists-InGroup sv laws req db)
                    λ p present. >>=-OnOk P (sv.get_public_user_info req.from_user_id) _ λ user u. (
                      admin,
                      laws.group_laws.find_one-ok _ db.groups group g,
                      laws.request_laws.find_one-ok _ db.requests request r,
                      ground arith,
                      ground arith,
                      present,
                    )
