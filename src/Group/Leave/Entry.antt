-- ===== src/Group/Leave/Entry.antt =====
-- What QuitGroup leaves of the tables, and the invariants through leaving.
use open_im_server.Base.{
  ◌≡◌, ◌⊎◌, inl, inr, refl, ap, sym, ◌∙◌, ◌==◌, true, false, not, Bytes, List, [], ◌∷◌, some, keep,
  if◌then◌else◌, err_no_permission, ok, OnOk, OnOk-ok, OnOk-of, >>=-OnOk, >>=-OnOk_of, require,
  require-OnOk, Bool-cases, arith,
}
use mathlib.Core.Option.{some-injective}
use open_im_server.Auth.Access.{check_access_v3}
use open_im_server.Group.Driver.{first}
use open_im_server.Group.Driver.Laws.{All-weaken, count-keep-All, unique_is_first}
use open_im_server.Group.Model.{GroupMemberModel, Db, GroupServices, is_member, has_role}
use open_im_server.Group.Rows.{with_members}
use open_im_server.Group.Db.{take_group_member, delete_filter, delete_group_member}
use open_im_server.Group.Db.Laws.{
  TableLaws, member_row, key_of, is_member-key_of, delete_group_member-ok,
}
use open_im_server.Group.Valid.{owners, IsValid}
use open_im_server.Group.Rooted.{IsGood, delete_group_member-IsGood}
use open_im_server.Group.Outcome.{guarded-keeps, committed-keeps}
use open_im_server.Group.People.{is_empty, populate_group_member}
use open_im_server.Group.Leave.{
  KickReq, QuitReq, check_kick_req, kick_group_member, quitting_user, check_quit_req, quit_group,
}

pub kick_group_member-IsGood :
    (sv : GroupServices) (laws : TableLaws sv) (req : KickReq) (db : Db)
    → IsGood sv.k db
    → IsGood sv.k (kick_group_member sv req db).db
unfolding kick_group_member
kick_group_member-IsGood sv laws req db v =
    let P = IsGood sv.k in
    guarded-keeps P db (check_kick_req sv req db) _ v λ u h.
      committed-keeps P db (delete_group_member sv req.group_id req.kicked_user_ids db) _ v
        λ new made.
          delete_group_member-IsGood sv laws req.group_id req.kicked_user_ids db new made v

pub quit_group-IsGood :
    (sv : GroupServices) (laws : TableLaws sv) (req : QuitReq) (db : Db)
    → IsGood sv.k db
    → IsGood sv.k (quit_group sv req db).db
unfolding quit_group
quit_group-IsGood sv laws req db v =
    let P = IsGood sv.k in
    let ids = quitting_user sv req ∷ [] in
    guarded-keeps P db (check_quit_req sv req db) _ v λ u h.
      committed-keeps P db (delete_group_member sv req.group_id ids db) _ v
        λ new made. delete_group_member-IsGood sv laws req.group_id ids db new made v

-- The user who quits has a row, and it is no owner's.
abbrev pub QuitChecked : GroupServices → QuitReq → Db → Type 0
QuitChecked sv req db =
    (m : GroupMemberModel) × (member_row req.group_id (quitting_user sv req) db ≡ some m)
    × ((m.role_level == sv.k.group_owner) ≡ false)

check_quit_req-QuitChecked :
    (sv : GroupServices) (laws : TableLaws sv) (req : QuitReq) (db : Db)
    → OnOk (λ ms. QuitChecked sv req db) (check_quit_req sv req db)
unfolding check_quit_req
check_quit_req-QuitChecked sv laws req db =
    let P : List GroupMemberModel → Type 0 = λ ms. QuitChecked sv req db in
    let user_id = quitting_user sv req in
    >>=-OnOk P
      (if is_empty req.user_id then ok tt else check_access_v3 sv.config sv.op_user_id req.user_id)
      _
      λ a b. >>=-OnOk P (take_group_member sv req.group_id user_id db) _ λ m h.
        >>=-OnOk_of _ P (require (not (m.role_level == sv.k.group_owner)) err_no_permission) _
          (require-OnOk _ (not (m.role_level == sv.k.group_owner)) _ (λ t. t))
          λ c t.
            OnOk-of P (populate_group_member sv (m ∷ []))
              λ ms d. (m, laws.member_laws.find_one-ok _ db.members m h, ground arith)

quit_group-QuitDone :
    (sv : GroupServices) (laws : TableLaws sv) (req : QuitReq) (db : Db)
    → ((quit_group sv req db).db ≡ db)
      ⊎ (QuitChecked sv req db
          × ((quit_group sv req db).db
              ≡ with_members db (
                  keep
                    (λ m. not (delete_filter req.group_id (quitting_user sv req ∷ []) m))
                    db.members)))
unfolding quit_group
quit_group-QuitDone sv laws req db =
    let ids = quitting_user sv req ∷ [] in
    let P : Db → Type 0 = λ new.
      (new ≡ db)
      ⊎ (QuitChecked sv req db
          × (new
              ≡ with_members db (keep (λ m. not (delete_filter req.group_id ids m)) db.members))) in
    guarded-keeps P db (check_quit_req sv req db) _ (inl refl) λ ms h.
      committed-keeps P db (delete_group_member sv req.group_id ids db) _ (inl refl) λ new made.
        inr (
          OnOk-ok _ h (check_quit_req-QuitChecked sv laws req db),
          delete_group_member-ok sv laws req.group_id ids db new made,
        )

deleted_one :
    (g id : Bytes) (a : GroupMemberModel)
    → delete_filter g (id ∷ []) a ≡ true
    → (g ≡ a.group_id) × (id ≡ a.user_id)
deleted_one g id a h = ground arith

quitter_no_owner :
    (sv : GroupServices) (req : QuitReq) (db : Db) (g : Bytes) (a : GroupMemberModel)
    → QuitChecked sv req db
    → first (is_member (key_of a)) db.members ≡ some a
    → has_role g sv.k.group_owner a ≡ true
    → not (delete_filter req.group_id (quitting_user sv req ∷ []) a) ≡ true
quitter_no_owner sv req db g a (m, row, plain) own owns =
    elim (Bool-cases (delete_filter req.group_id (quitting_user sv req ∷ []) a)) [
      | inr f ↦ ground arith
      | inl t ↦
          let isin : (req.group_id ≡ a.group_id) × (quitting_user sv req ≡ a.user_id) =
            deleted_one req.group_id (quitting_user sv req) a t in
          let same = some-injective _ _ (
            sym row
            ∙ ap (λ x. member_row x (quitting_user sv req) db) isin.0
            ∙ ap (λ x. member_row a.group_id x db) isin.1
            ∙ own) in
          ground (arith, same)
    ]

-- Not even an app manager takes the owner out by QuitGroup.
pub quit_keeps_owner :
    (sv : GroupServices) (laws : TableLaws sv) (req : QuitReq) (db : Db)
    → IsValid sv.k db
    → (g : Bytes) → owners sv.k g (quit_group sv req db).db ≡ owners sv.k g db
quit_keeps_owner sv laws req db v g = elim (quit_group-QuitDone sv laws req db) [
  | inl e ↦ ap (owners sv.k g) e
  | inr (checked, e) ↦
      let own_rows = unique_is_first is_member key_of db.members v.0 is_member-key_of in
      let stays =
        All-weaken db.members (λ a row owns. quitter_no_owner sv req db g a checked row owns)
          own_rows in
      ap (owners sv.k g) e ∙ count-keep-All (has_role g sv.k.group_owner) _ db.members stays
]
