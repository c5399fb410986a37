-- ===== src/Group/Create/Laws.antt =====
-- The owner and the identifier of a new group.
use open_im_server.Base.{
  ℕ, zero, suc, ◌+◌, ◌≡◌, ◌≢◌, refl, ap, Bytes, List, [], ◌∷◌, ◌++◌, map, none, is_record_not_found,
  err_record_not_found, Result, ok, err, OnOk, if-cases, arith,
}
use open_im_server.Group.Driver.{first, count}
use open_im_server.Group.Driver.Laws.{count-append}
use open_im_server.Group.Model.{GroupModel, GroupMemberModel, Db, GroupServices, is_group, has_role}
use open_im_server.Group.Db.{take_group}
use open_im_server.Group.Db.Laws.{TableLaws}
use open_im_server.Group.Rooted.{AllIn}
use open_im_server.Group.People.{is_empty}
use open_im_server.Group.Join.Laws.{DistinctRoles, is_record_not_found-eq}
use open_im_server.Group.Create.{
  CreateReq, free_id, free_or, try_ids, gen_group_id, first_row, first_rows,
}

-- No group has this identifier.
abbrev pub IsFree : Db → Bytes → Type 0
IsFree db group_id = first (is_group group_id) db.groups ≡ none

free_id-OnOk :
    (db : Db) (id : Bytes) (r : Result GroupModel)
    → (r ≡ err err_record_not_found → IsFree db id)
    → OnOk (IsFree db) (free_id id r)
free_id-OnOk db id (ok g) h = tt
free_id-OnOk db id (err e) h =
    if-cases (OnOk (IsFree db)) (is_record_not_found e)
      (λ t. h (ap (λ x. err x) (is_record_not_found-eq e t))) (λ t. tt)

free_or-OnOk :
    (db : Db) (id : Bytes) (r : Result GroupModel) (rest : Result Bytes)
    → (r ≡ err err_record_not_found → IsFree db id)
    → OnOk (IsFree db) rest
    → OnOk (IsFree db) (free_or id r rest)
free_or-OnOk db id (ok g) rest h hs = hs
free_or-OnOk db id (err e) rest h hs =
    if-cases (OnOk (IsFree db)) (is_record_not_found e)
      (λ t. h (ap (λ x. err x) (is_record_not_found-eq e t))) (λ t. tt)

try_ids-IsFree :
    (sv : GroupServices) (laws : TableLaws sv) (db : Db) (i n : ℕ)
    → OnOk (IsFree db) (try_ids sv db i n)
unfolding try_ids
try_ids-IsFree sv laws db i zero = tt
try_ids-IsFree sv laws db i (suc n) =
    let id = sv.random_group_id i in
    free_or-OnOk db id (take_group sv id db) (try_ids sv db (i + 1) n)
      (λ h. laws.group_laws.find_one-absent (is_group id) db.groups h)
      (try_ids-IsFree sv laws db (i + 1) n)

-- The identifier of a new group is no group's, given or made up.
pub gen_group_id-IsFree :
    (sv : GroupServices) (laws : TableLaws sv) (group_id : Bytes) (db : Db)
    → OnOk (IsFree db) (gen_group_id sv group_id db)
unfolding gen_group_id
gen_group_id-IsFree sv laws group_id db =
    if-cases (OnOk (IsFree db)) (is_empty group_id) (λ e. try_ids-IsFree sv laws db 0 10)
      (λ e.
        free_id-OnOk db group_id (take_group sv group_id db)
          (λ h. laws.group_laws.find_one-absent (is_group group_id) db.groups h))

-- The rows of a new group: all in it, and one owner.
rows_in_group :
    (sv : GroupServices) (group_id : Bytes) (role : ℕ) (ids : List Bytes)
    (rest : List GroupMemberModel)
    → AllIn group_id rest
    → AllIn group_id (map (first_row sv group_id role) ids ++ rest)
rows_in_group sv group_id role [] rest h = h
rows_in_group sv group_id role (id ∷ ids) rest h = (refl, rows_in_group sv group_id role ids rest h)

rows_plain :
    (sv : GroupServices) (group_id : Bytes) (role : ℕ) (ids : List Bytes)
    → AllIn group_id (map (first_row sv group_id role) ids)
rows_plain sv group_id role [] = tt
rows_plain sv group_id role (id ∷ ids) = (refl, rows_plain sv group_id role ids)

rows_no_owner :
    (sv : GroupServices) (group_id : Bytes) (role : ℕ) (ids : List Bytes)
    → role ≢ sv.k.group_owner
    → count (has_role group_id sv.k.group_owner) (map (first_row sv group_id role) ids) ≡ 0
rows_no_owner sv group_id role [] n = refl
rows_no_owner sv group_id role (id ∷ ids) n = ground (arith, rows_no_owner sv group_id role ids n)

pub first_rows-AllIn :
    (sv : GroupServices) (req : CreateReq) (group_id : Bytes)
    → AllIn group_id (first_rows sv req group_id)
first_rows-AllIn sv req group_id = (
  refl,
  rows_in_group sv group_id sv.k.group_admin req.admin_user_ids _
      (rows_plain sv group_id sv.k.group_ordinary_users req.member_user_ids),
)

pub first_rows-owner :
    (sv : GroupServices) (req : CreateReq) (group_id : Bytes)
    → DistinctRoles sv.k
    → count (has_role group_id sv.k.group_owner) (first_rows sv req group_id) ≡ 1
first_rows-owner sv req group_id d =
    let p = has_role group_id sv.k.group_owner in
    ground (
      arith,
      count-append p (map (first_row sv group_id sv.k.group_admin) req.admin_user_ids)
          (map (first_row sv group_id sv.k.group_ordinary_users) req.member_user_ids),
      rows_no_owner sv group_id sv.k.group_admin req.admin_user_ids d.admin_no_owner,
      rows_no_owner sv group_id sv.k.group_ordinary_users req.member_user_ids d.ordinary_no_owner,
    )
