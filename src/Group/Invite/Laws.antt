-- ===== src/Group/Invite/Laws.antt =====
-- Who may add users by InviteUserToGroup, and the invariants through it.
use open_im_server.Base.{
  ℕ, ◌≡◌, refl, ap, ◌∙◌, ◌==◌, true, false, not, Bytes, List, [], ◌∷◌, map, Option, none, some,
  OnOk, >>=-OnOk, >>=-OnOk_of, require, require-OnOk, if-cases, length, err_args,
  err_record_not_found, err_dismissed_already, arith,
}
use open_im_server.Group.Driver.{first, count}
use open_im_server.Group.Model.{
  GroupModel, GroupMemberModel, Db, GroupServices, GroupConstants, is_group, has_role,
}
use open_im_server.Group.Db.{take_group, take_group_member}
use open_im_server.Group.Db.Laws.{TableLaws, member_row}
use open_im_server.Group.Valid.{NoOwner}
use open_im_server.Group.Rooted.{AllIn}
use open_im_server.Group.People.{
  is_manager_op, get_users_info, populate_group_member, key_set, no_ids, callback_join,
}
use open_im_server.Group.Join.Laws.{
  DistinctRoles, LeavesRoles, SameMember, callback_join-SameMember, ordinary_no_owner,
}
use open_im_server.Group.Invite.{
  InviteReq, inviter, check_invite_req, invited_member, callback_joins,
}

-- Two lists of the same members, one by one.
abbrev pub SameMembers : List GroupMemberModel → List GroupMemberModel → Type 0
SameMembers [] [] = Unit
SameMembers (m ∷ ms) (n ∷ ns) = SameMember m n × SameMembers ms ns
SameMembers _ _ = ⊥

pub callback_joins-SameMembers :
    (sv : GroupServices) (ex : Bytes) (ms : List GroupMemberModel)
    → LeavesRoles sv
    → OnOk (SameMembers ms) (callback_joins sv ex ms)
callback_joins-SameMembers sv ex [] h = tt
callback_joins-SameMembers sv ex (m ∷ ms) h =
    let P = SameMembers (m ∷ ms) in
    >>=-OnOk_of _ P (callback_join sv ex m) _ (callback_join-SameMember sv ex m h) λ n same.
      >>=-OnOk_of _ P (callback_joins sv ex ms) _ (callback_joins-SameMembers sv ex ms h)
        λ ns rest. (same, rest)

pub SameMembers-count :
    (k : GroupConstants) (g : Bytes) (ms ns : List GroupMemberModel)
    → SameMembers ms ns
    → count (has_role g k.group_owner) ns ≡ count (has_role g k.group_owner) ms
SameMembers-count k g [] [] h = refl
SameMembers-count k g [] (n ∷ ns) h = elim h [ ]
SameMembers-count k g (m ∷ ms) [] h = elim h [ ]
SameMembers-count k g (m ∷ ms) (n ∷ ns) h = ground (arith, SameMembers-count k g ms ns h.1)

pub SameMembers-AllIn :
    (g : Bytes) (ms ns : List GroupMemberModel) → SameMembers ms ns → AllIn g ms → AllIn g ns
SameMembers-AllIn g [] [] h a = tt
SameMembers-AllIn g [] (n ∷ ns) h a = elim h [ ]
SameMembers-AllIn g (m ∷ ms) [] h a = elim h [ ]
SameMembers-AllIn g (m ∷ ms) (n ∷ ns) h a = (h.0.0 ∙ a.0, SameMembers-AllIn g ms ns h.1 a.1)

pub SameMembers-NoOwner :
    (k : GroupConstants) (ms ns : List GroupMemberModel)
    → SameMembers ms ns
    → NoOwner k ms
    → NoOwner k ns
SameMembers-NoOwner k [] [] h a = tt
SameMembers-NoOwner k [] (n ∷ ns) h a = elim h [ ]
SameMembers-NoOwner k (m ∷ ms) [] h a = elim h [ ]
SameMembers-NoOwner k (m ∷ ms) (n ∷ ns) h a =
    (ap (λ r. r == k.group_owner) h.0.2 ∙ a.0, SameMembers-NoOwner k ms ns h.1 a.1)

pub invited-rows :
    (sv : GroupServices) (group_id op : Bytes) (ids : List Bytes)
    → DistinctRoles sv.k
    → NoOwner sv.k (map (invited_member sv group_id op) ids)
      × AllIn group_id (map (invited_member sv group_id op) ids)
invited-rows sv group_id op [] d = (tt, tt)
invited-rows sv group_id op (id ∷ ids) d =
    let rest = invited-rows sv group_id op ids d in
    ((ordinary_no_owner sv.k d sv.k.group_ordinary_users refl, rest.0), (refl, rest.1))

-- The one who invites: an app manager without a role, or a member with its role.
abbrev pub IsInviter : GroupServices → Bytes → Db → Option ℕ → Type 0
IsInviter sv group_id db none = is_manager_op sv ≡ true
IsInviter sv group_id db (some role) =
    (m : GroupMemberModel) × (member_row group_id sv.op_user_id db ≡ some m) × (m.role_level ≡ role)

inviter-IsInviter :
    (sv : GroupServices) (laws : TableLaws sv) (group_id : Bytes) (db : Db)
    → OnOk (λ op. IsInviter sv group_id db op.1) (inviter sv group_id db)
inviter-IsInviter sv laws group_id db =
    let P = λ (op : Bytes × Option ℕ). IsInviter sv group_id db op.1 in
    if-cases (OnOk P) (is_manager_op sv) (λ e. e)
      λ n. >>=-OnOk P (take_group_member sv group_id sv.op_user_id db) _ λ m h.
        >>=-OnOk P (populate_group_member sv (m ∷ [])) _
          λ populated e. (m, laws.member_laws.find_one-ok _ db.members m h, refl)

abbrev pub InviteChecked : GroupServices → InviteReq → Db → GroupModel × Bytes × Option ℕ → Type 0
InviteChecked sv req db found =
    (first (is_group req.group_id) db.groups ≡ some found.0)
    × ((found.0.status == sv.k.group_status_dismissed) ≡ false)
    × IsInviter sv req.group_id db found.2

pub check_invite_req-InviteChecked :
    (sv : GroupServices) (laws : TableLaws sv) (req : InviteReq) (db : Db)
    → OnOk (InviteChecked sv req db) (check_invite_req sv req db)
unfolding check_invite_req
check_invite_req-InviteChecked sv laws req db =
    let P = InviteChecked sv req db in
    >>=-OnOk P (require (not (no_ids req.invited_user_ids)) err_args) _ λ a1 e1.
      >>=-OnOk P (require (not (sv.duplicate req.invited_user_ids)) err_args) _ λ a2 e2.
        >>=-OnOk P (take_group sv req.group_id db) _ λ group g.
          >>=-OnOk_of _ P
            (require (not (group.status == sv.k.group_status_dismissed)) err_dismissed_already) _
            (require-OnOk _ (not (group.status == sv.k.group_status_dismissed)) _ (λ t. t))
            λ w t. >>=-OnOk P (get_users_info sv req.invited_user_ids) _ λ users u.
              >>=-OnOk P
                (require
                  (length (key_set (map (λ x. x.user_id) users)) == length req.invited_user_ids)
                  err_record_not_found)
                _
                λ a3 e3.
                  >>=-OnOk_of _ P (inviter sv req.group_id db) _
                    (inviter-IsInviter sv laws req.group_id db)
                    λ op is_op.
                      >>=-OnOk P sv.callback_before_invite_user_to_group _ λ c d.
                        (laws.group_laws.find_one-ok _ db.groups group g, ground arith, is_op)
