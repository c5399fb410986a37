-- ===== src/Group/Leave/Rows.antt =====
-- The members that a handler reads and fills in, as rows of the table.
use open_im_server.Base.{
  ◌≡◌, refl, Bytes, bytes_discrete, List, [], ◌∷◌, map, Option, none, some, All, dec_true,
  if◌then◌else◌, OnOk, >>=-OnOk, if-cases, if_dec-cases,
}
use open_im_server.Group.Driver.Laws.{All-weaken}
use open_im_server.Group.Model.{GroupMemberModel, UserInfo, Db, GroupServices}
use open_im_server.Group.Db.Laws.{member_row, IsRow}
use open_im_server.Group.People.{
  no_ids, populate_group_member, get_users_info, fill_in, user_of, empty_user_ids,
}
use open_im_server.Group.Leave.{last_or, member_of}

-- The member that a handler reads is a row, but for its name and picture.
abbrev pub HasRow : Bytes → Db → GroupMemberModel → Type 0
HasRow group_id db m =
    (r : GroupMemberModel) × (member_row group_id m.user_id db ≡ some r)
    × (r.role_level ≡ m.role_level)

fill_in-HasRow :
    (group_id : Bytes) (db : Db) (u : Option UserInfo) (m : GroupMemberModel)
    → IsRow group_id db m
    → HasRow group_id db (fill_in u m)
fill_in-HasRow group_id db none m h = (m, h, refl)
fill_in-HasRow group_id db (some u) m h = (m, h, refl)

own_row :
    (group_id : Bytes) (db : Db) (m : GroupMemberModel) → IsRow group_id db m → HasRow group_id db m
own_row group_id db m h = (m, h, refl)

filled-HasRow :
    (group_id : Bytes) (db : Db) (users : List UserInfo) (ms : List GroupMemberModel)
    → All (IsRow group_id db) ms
    → All (HasRow group_id db) (map (λ m. fill_in (user_of m.user_id users) m) ms)
filled-HasRow group_id db users [] h = tt
filled-HasRow group_id db users (m ∷ ms) h = (
  fill_in-HasRow group_id db (user_of m.user_id users) m h.0,
  filled-HasRow group_id db users ms h.1,
)

pub populate_group_member-HasRow :
    (sv : GroupServices) (group_id : Bytes) (db : Db) (ms : List GroupMemberModel)
    → All (IsRow group_id db) ms
    → OnOk (All (HasRow group_id db)) (populate_group_member sv ms)
unfolding populate_group_member
populate_group_member-HasRow sv group_id db ms rows =
    let P = All (HasRow group_id db) in
    if-cases (OnOk P) (no_ids (empty_user_ids ms)) (λ e. All-weaken ms (own_row group_id db) rows)
      (λ e.
        >>=-OnOk P (get_users_info sv (empty_user_ids ms)) _
          (λ users h. filled-HasRow group_id db users ms rows))

-- What a lookup gives, if it gives something.
abbrev pub Found : (GroupMemberModel → Type 0) → Bytes → Option GroupMemberModel → Type 0
Found P id none = Unit
Found P id (some m) = P m × (m.user_id ≡ id)

last_or-Found :
    (P : GroupMemberModel → Type 0) (id : Bytes) (m : GroupMemberModel)
    (o : Option GroupMemberModel)
    → Found P id o
    → P m
    → Found P id (last_or o (if dec_true (bytes_discrete m.user_id id) then some m else none))
last_or-Found P id m (some n) f p = f
last_or-Found P id m none f p =
    if_dec-cases (Found P id) (bytes_discrete m.user_id id) (λ e. (p, e)) tt

pub member_of-Found :
    (P : GroupMemberModel → Type 0) (id : Bytes) (ms : List GroupMemberModel)
    → All P ms
    → Found P id (member_of id ms)
member_of-Found P id [] a = tt
member_of-Found P id (x ∷ ms) a =
    last_or-Found P id x (member_of id ms) (member_of-Found P id ms a.1) a.0
