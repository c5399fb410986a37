-- ===== src/Group/Calls.antt =====
-- Any sequence of the calls of the group service that change its tables, each with its own caller, clock and answers
-- of the other services.
use open_im_server.Base.{◌≡◌, sym, false, Bytes, List, [], ◌∷◌, All}
use mathlib.Core.Path.{subst}
use open_im_server.Group.Model.{
  SetGroupMemberInfo, GroupInfoForSet, Db, GroupServices, GroupConstants,
}
use open_im_server.Group.Db.Laws.{TableLaws}
use open_im_server.Group.Rooted.{IsGood}
use open_im_server.Group.People.{is_manager_op}
use open_im_server.Group.Leave.{KickReq, QuitReq, kick_group_member, quit_group}
use open_im_server.Group.Leave.Entry.{kick_group_member-IsGood, quit_group-IsGood}
use open_im_server.Group.Join.{JoinReq, join_group}
use open_im_server.Group.Join.Laws.{DistinctRoles, LeavesRoles}
use open_im_server.Group.Join.Entry.{join_group-IsGood}
use open_im_server.Group.Invite.{InviteReq, invite_user_to_group}
use open_im_server.Group.Invite.Entry.{invite_user_to_group-IsGood}
use open_im_server.Group.Answer.{ApplicationReq, group_application_response}
use open_im_server.Group.Answer.Entry.{group_application_response-IsGood}
use open_im_server.Group.Rule.{
  TransferReq, DismissReq, MuteReq, transfer_group_owner, dismiss_group, mute_group_member,
  cancel_mute_group_member, mute_group, cancel_mute_group,
}
use open_im_server.Group.Rule.Kept.{transfer_group_owner-IsGood}
use open_im_server.Group.Rule.Mute.{mute_group_member-IsGood, cancel_mute_group_member-IsGood}
use open_im_server.Group.Rule.Status.{
  mute_group-IsGood, cancel_mute_group-IsGood, dismiss_group-IsGood,
}
use open_im_server.Group.Edit.{set_group_member_info}
use open_im_server.Group.Edit.Laws.{LeavesSetRoles, set_group_member_info-IsGood}
use open_im_server.Group.Info.{set_group_info}
use open_im_server.Group.Info.Laws.{set_group_info-IsGood}
use open_im_server.Group.Create.{CreateReq, create_group}
use open_im_server.Group.Create.Entry.{create_group-CreateDone}

pub data Call : Type 0 where
  create : CreateReq → Call
  join : JoinReq → Call
  invite : InviteReq → Call
  answer : ApplicationReq → Call
  kick : KickReq → Call
  quit : QuitReq → Call
  transfer : TransferReq → Call
  dismiss : DismissReq → Call
  mute_member : MuteReq → Call
  cancel_mute_member : Bytes → Bytes → Call
  mute : Bytes → Call
  cancel_mute : Bytes → Call
  set_members : List SetGroupMemberInfo → Call
  set_info : GroupInfoForSet → Call

-- The tables after a call.
abbrev pub after_call : GroupServices → Call → Db → Db
after_call sv (create req) db = (create_group sv req db).db
after_call sv (join req) db = (join_group sv req db).db
after_call sv (invite req) db = (invite_user_to_group sv req db).db
after_call sv (answer req) db = (group_application_response sv req db).db
after_call sv (kick req) db = (kick_group_member sv req db).db
after_call sv (quit req) db = (quit_group sv req db).db
after_call sv (transfer req) db = (transfer_group_owner sv req db).db
after_call sv (dismiss req) db = (dismiss_group sv req db).db
after_call sv (mute_member req) db = (mute_group_member sv req db).db
after_call sv (cancel_mute_member g u) db = (cancel_mute_group_member sv g u db).db
after_call sv (mute g) db = (mute_group sv g db).db
after_call sv (cancel_mute g) db = (cancel_mute_group sv g db).db
after_call sv (set_members reqs) db = (set_group_member_info sv reqs db).db
after_call sv (set_info req) db = (set_group_info sv req db).db

abbrev pub after_calls : List (GroupServices × Call) → Db → Db
after_calls [] db = db
after_calls ((sv, c) ∷ cs) db = after_calls cs (after_call sv c db)

-- An app manager may transfer from one who is no owner.
abbrev pub ByMember : GroupServices → Call → Type 0
ByMember sv (transfer req) = is_manager_op sv ≡ false
ByMember sv _ = Unit

-- What a call relies on: tables that behave, webhooks that leave the roles, and a transfer that is no app manager's.
pub record IsFair (k : GroupConstants) (call : GroupServices × Call) : Type 0 where
  pub same_constants : call.0.k ≡ k
  pub tables : TableLaws call.0
  pub leaves_roles : LeavesRoles call.0
  pub leaves_set_roles : LeavesSetRoles call.0
  pub by_member : ByMember call.0 call.1

after_call-IsGood :
    (sv : GroupServices) (c : Call) (db : Db)
    → DistinctRoles sv.k
    → IsFair sv.k (sv, c)
    → IsGood sv.k db
    → IsGood sv.k (after_call sv c db)
after_call-IsGood sv (create req) db d f v =
    (create_group-CreateDone sv f.tables req db d f.leaves_roles v).1
after_call-IsGood sv (join req) db d f v = join_group-IsGood sv f.tables req db d f.leaves_roles v
after_call-IsGood sv (invite req) db d f v =
    invite_user_to_group-IsGood sv f.tables req db d f.leaves_roles v
after_call-IsGood sv (answer req) db d f v =
    group_application_response-IsGood sv f.tables req db d f.leaves_roles v
after_call-IsGood sv (kick req) db d f v = kick_group_member-IsGood sv f.tables req db v
after_call-IsGood sv (quit req) db d f v = quit_group-IsGood sv f.tables req db v
after_call-IsGood sv (transfer req) db d f v =
    transfer_group_owner-IsGood sv f.tables req db f.by_member v
after_call-IsGood sv (dismiss req) db d f v = dismiss_group-IsGood sv f.tables req db v
after_call-IsGood sv (mute_member req) db d f v = mute_group_member-IsGood sv f.tables req db v
after_call-IsGood sv (cancel_mute_member g u) db d f v =
    cancel_mute_group_member-IsGood sv f.tables g u db v
after_call-IsGood sv (mute g) db d f v = mute_group-IsGood sv f.tables g db v
after_call-IsGood sv (cancel_mute g) db d f v = cancel_mute_group-IsGood sv f.tables g db v
after_call-IsGood sv (set_members reqs) db d f v =
    set_group_member_info-IsGood sv f.tables reqs db f.leaves_set_roles v
after_call-IsGood sv (set_info req) db d f v = set_group_info-IsGood sv f.tables req db v

-- Whatever sequence of calls creates, joins, invites, answers, removes, quits, transfers,
-- dismisses, mutes, edits members or sets a group: a user stands once in a group, a group has one
-- owner at most, and a member's group exists, if this was so before. It relies on collections that
-- keep their unique index, on roles that differ, on webhooks that replace no role, and on
-- transfers that no app manager makes.
pub after_calls-IsGood :
    (k : GroupConstants) (calls : List (GroupServices × Call)) (db : Db)
    → DistinctRoles k
    → All (IsFair k) calls
    → IsGood k db
    → IsGood k (after_calls calls db)
after_calls-IsGood k [] db d f v = v
after_calls-IsGood k ((sv, c) ∷ cs) db d f v =
    let e = f.0.same_constants in
    let back = sym e in
    let here = subst (λ x. IsFair x (sv, c)) back f.0 in
    let good =
      after_call-IsGood sv c db (subst DistinctRoles back d) here
        (subst (λ x. IsGood x db) back v) in
    after_calls-IsGood k cs (after_call sv c db) d f.1
      (subst (λ x. IsGood x (after_call sv c db)) e good)
