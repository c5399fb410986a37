-- ===== src/Group/Answer/Once.antt =====
-- What an answer to a join request leaves, and a second answer to it.
use open_im_server.Base.{
  ℕ, true, false, ◌≡◌, ◌≢◌, ◌⊎◌, inl, inr, refl, ap, sym, ◌∙◌, ◌==◌, Bool, not, ◌&&◌, List, [], ◌∷◌,
  ◌++◌, Option, none, some, OnOk, OnOk-ok, OnOk-of, >>=-OnOk, >>=-OnOk_of, OnOk-weaken, if-cases,
  arith,
}
use mathlib.Core.Option.{some-injective}
use open_im_server.Group.Driver.{first, set_first}
use open_im_server.Group.Model.{GroupMemberModel, Db, GroupServices, is_request}
use open_im_server.Group.Rows.{with_members, with_requests, set_handled}
use open_im_server.Group.Db.{create_member, create_members, handler_group_request}
use open_im_server.Group.Db.Laws.{TableLaws, member_row, create_members-ok}
use open_im_server.Group.Outcome.{guarded-keeps, committed-keeps}
use open_im_server.Group.People.{callback_join}
use open_im_server.Group.Join.Laws.{LeavesRoles, callback_join-SameMember}
use open_im_server.Group.Answer.{
  ApplicationReq, Application, check_application, accepted_member, member_to_add,
  group_application_response,
}
use open_im_server.Group.Answer.Laws.{
  InGroup, ApplicationChecked, check_application-ApplicationChecked,
}

-- The tables with the request answered.
abbrev pub answered : ApplicationReq → Db → Db
answered req db = with_requests db (
    set_first (is_request (req.group_id, req.from_user_id)) (set_handled req.handle_result)
      db.requests)

-- The member that an answer adds: the one who applied, with the ordinary role, if he is accepted and had no row;
-- and none if he is refused or had one.
abbrev pub Added : GroupServices → ApplicationReq → Db → Option GroupMemberModel → Type 0
Added sv req db none =
    (req.handle_result ≢ sv.k.group_response_agree)
    ⊎ ((m : GroupMemberModel) × (member_row req.group_id req.from_user_id db ≡ some m))
Added sv req db (some m) =
    (req.handle_result ≡ sv.k.group_response_agree)
    × (member_row req.group_id req.from_user_id db ≡ none)
    × (m.group_id ≡ req.group_id)
    × (m.user_id ≡ req.from_user_id)
    × (m.role_level ≡ sv.k.group_ordinary_users)

abbrev pub with_member : Db → Option GroupMemberModel → Db
with_member db none = db
with_member db (some m) = with_members db (db.members ++ m ∷ [])

may_add :
    (req : ApplicationReq) (db : Db) (in_group : Bool) (agree : ℕ)
    → InGroup req db in_group
    → (not in_group && req.handle_result == agree) ≡ true
    → (req.handle_result ≡ agree) × (member_row req.group_id req.from_user_id db ≡ none)
may_add req db true agree present t = absurd (cc t)
may_add req db false agree present t = (ground (arith, t), present)

may_not_add :
    (req : ApplicationReq) (db : Db) (in_group : Bool) (agree : ℕ)
    → InGroup req db in_group
    → (not in_group && req.handle_result == agree) ≡ false
    → (req.handle_result ≢ agree)
      ⊎ ((m : GroupMemberModel) × (member_row req.group_id req.from_user_id db ≡ some m))
may_not_add req db true agree present f = inr present
may_not_add req db false agree present f = inl λ e. ground (arith, f, e)

pub member_to_add-Added :
    (sv : GroupServices) (req : ApplicationReq) (db : Db) (app : Application)
    → LeavesRoles sv
    → InGroup req db app.in_group
    → OnOk (Added sv req db) (member_to_add sv req app)
member_to_add-Added sv req db app leaves present =
    let P = Added sv req db in
    let m = accepted_member sv req app.request in
    if-cases (OnOk P) (not app.in_group && req.handle_result == sv.k.group_response_agree)
      (λ t.
        let (agree, absent) = may_add req db app.in_group sv.k.group_response_agree present t in
        >>=-OnOk_of _ P (callback_join sv app.group.ex m) _
          (callback_join-SameMember sv app.group.ex m leaves)
          λ n same. (agree, absent, same.0, same.1, same.2))
      (λ f. may_not_add req db app.in_group sv.k.group_response_agree present f)

create_member-ok :
    (sv : GroupServices) (laws : TableLaws sv) (member : Option GroupMemberModel) (db : Db)
    → OnOk (λ new. new ≡ with_member db member) (create_member sv member db)
create_member-ok sv laws none db = refl
create_member-ok sv laws (some m) db =
    OnOk-of _ (create_members sv (m ∷ []) db)
      λ new h. (create_members-ok sv laws (m ∷ []) db new h).0

handler_group_request-ok :
    (sv : GroupServices) (laws : TableLaws sv) (req : ApplicationReq)
    (member : Option GroupMemberModel) (db : Db)
    → OnOk
        (λ new. new ≡ with_member (answered req db) member)
        (handler_group_request sv req.group_id req.from_user_id req.handle_result member db)
unfolding handler_group_request
handler_group_request-ok sv laws req member db =
    let P = λ (new : Db). new ≡ with_member (answered req db) member in
    let p = is_request (req.group_id, req.from_user_id) in
    >>=-OnOk P (sv.requests.update_one p (set_handled req.handle_result) db.requests) _ λ rs h.
      let rows = (laws.request_laws.update_one-ok p _ db.requests rs h).0 in
      OnOk-weaken _ P (create_member sv member (with_requests db rs))
        (λ new e. e ∙ ap (λ r. with_member (with_requests db r) member) rows)
        (create_member-ok sv laws member (with_requests db rs))

-- What an answer leaves: the tables as they were, or the request, which was not answered, with its answer, from an
-- app manager, the owner or an admin, and the member that the answer adds.
abbrev pub AnswerDone : GroupServices → ApplicationReq → Db → Db → Type 0
AnswerDone sv req db new =
    (new ≡ db)
    ⊎ ((app : Application) × (member : Option GroupMemberModel) × ApplicationChecked sv req db app
        × Added sv req db member
        × (new ≡ with_member (answered req db) member))

-- `GroupApplicationResponse` changes nothing, or records the answer to a request that had none,
-- from an app manager, the owner or an admin. It then adds exactly one member, the one who
-- applied, in the group of the request and with the ordinary role, if the answer accepts him and
-- he had no row in the group, and none if it does not accept him or he had one. The webhooks
-- replace no role.
pub group_application_response-AnswerDone :
    (sv : GroupServices) (laws : TableLaws sv) (req : ApplicationReq) (db : Db)
    → LeavesRoles sv
    → AnswerDone sv req db (group_application_response sv req db).db
unfolding group_application_response
group_application_response-AnswerDone sv laws req db leaves =
    let P = AnswerDone sv req db in
    guarded-keeps P db (check_application sv req db) _ (inl refl) λ app h.
      guarded-keeps P db (member_to_add sv req app) _ (inl refl) λ member m.
        committed-keeps P db (handler_group_request sv _ _ _ member db) _ (inl refl) λ new made.
          let checked = OnOk-ok _ h (check_application-ApplicationChecked sv laws req db) in
          inr (
            app,
            member,
            checked,
            OnOk-ok _ m (member_to_add-Added sv req db app leaves checked.5),
            OnOk-ok _ made (handler_group_request-ok sv laws req member db),
          )

pub first-set_first :
    {D : Type 0} (p : D → Bool) (f : D → D) (xs : List D) (d : D)
    → ((x : D) → p (f x) ≡ p x)
    → first p xs ≡ some d
    → first p (set_first p f xs) ≡ some (f d)
first-set_first p f [] d same h = ground arith
first-set_first p f (x ∷ xs) d same h = ground (arith, first-set_first p f xs d same, same x)

requests-with_member :
    (db : Db) (member : Option GroupMemberModel) → (with_member db member).requests ≡ db.requests
requests-with_member db none = refl
requests-with_member db (some m) = refl

-- The answered request in the new tables.
answered_row :
    (sv : GroupServices) (req : ApplicationReq) (db new : Db) (app : Application)
    (member : Option GroupMemberModel)
    → ApplicationChecked sv req db app
    → new ≡ with_member (answered req db) member
    → first (is_request (req.group_id, req.from_user_id)) new.requests
      ≡ some (set_handled req.handle_result app.request)
answered_row sv req db new app member checked e =
    let p = is_request (req.group_id, req.from_user_id) in
    ap (λ d. first p d.requests) e
    ∙ ap (first p) (requests-with_member (answered req db) member)
    ∙ first-set_first p (set_handled req.handle_result) db.requests app.request (λ x. refl)
        checked.2

not_pending :
    (sv sv' : GroupServices) (req req' : ApplicationReq) (db new : Db) (app app' : Application)
    → (sv.k.group_response_agree ≢ 0) × (sv.k.group_response_refuse ≢ 0)
    → (req'.group_id ≡ req.group_id) × (req'.from_user_id ≡ req.from_user_id)
    → ApplicationChecked sv req db app
    → ApplicationChecked sv' req' new app'
    → first (is_request (req.group_id, req.from_user_id)) new.requests
      ≡ some (set_handled req.handle_result app.request)
    → ⊥
not_pending sv sv' req req' db new app app' k same checked checked' row =
    let row' =
      sym (
        ap (λ g. first (is_request (g, req'.from_user_id)) new.requests) same.0
        ∙ ap (λ u. first (is_request (req.group_id, u)) new.requests) same.1)
      ∙ checked'.2 in
    let eq = ap (λ r. r.handle_result) (some-injective _ _ (sym row ∙ row')) in
    elim checked.4 [
      | inl agree ↦ k.0 (sym agree ∙ eq ∙ checked'.3)
      | inr refuse ↦ k.1 (sym refuse ∙ eq ∙ checked'.3)
    ]

-- Once an answer to a join request has changed the tables, no later answer to it, of whoever and
-- with whatever result, changes them again, if the numbers of the two results are not 0 and the
-- webhooks replace no role.
pub answered_once :
    (sv sv' : GroupServices) (laws : TableLaws sv) (laws' : TableLaws sv')
    (req req' : ApplicationReq) (db : Db)
    → LeavesRoles sv
    → LeavesRoles sv'
    → (sv.k.group_response_agree ≢ 0) × (sv.k.group_response_refuse ≢ 0)
    → (req'.group_id ≡ req.group_id) × (req'.from_user_id ≡ req.from_user_id)
    → (group_application_response sv req db).db ≢ db
    → let new = (group_application_response sv req db).db in
      (group_application_response sv' req' new).db ≡ new
answered_once sv sv' laws laws' req req' db leaves leaves' k same changed =
    let new = (group_application_response sv req db).db in
    elim (group_application_response-AnswerDone sv laws req db leaves) [
      | inl e ↦ elim (changed e) [ ]
      | inr (app, member, checked, added, e) ↦
          elim (group_application_response-AnswerDone sv' laws' req' new leaves') [
            | inl e' ↦ e'
            | inr (app', member', checked', added', e') ↦
                elim (not_pending sv sv' req req' db new app app' k same checked checked'
                  (answered_row sv req db new app member checked e)) [ ]
          ]
    ]
