-- ===== src/Session/Levels.antt =====
-- The levels of the users (`daemon_userlevel` of source_codes/stardictd/src/daemon.cpp).
use stardictd.Base.{
  ℕ, ◌≤◌, Bool, true, false, not, List, [], ◌∷◌, ◌++◌, ◌||◌, ◌≡◌, ◌≢◌, refl, sym, ap, ◌∙◌, subst,
  some, Bytes, arith, codes, eqb, eqb_iff, get_elem?,
}
use stardictd.Base.Int.{ℤ, pos, negsuc, eqb_ℤ}
use stardictd.Base.Decimal.{atoi, print_int, print_nat, put_digits}
use stardictd.Command.{c_str}
use stardictd.Db.{Conn, Row}
use stardictd.Db
use stardictd.Session.{
  Server, Session, goes, M, Done, ◌>>=◌, ◌>>◌, refuse_if, daemon_printf, first_row, column, log,
  log_account, reply, bare, code_ok, code_denied,
}
use stardictd.Session.Auth.{root}
use stardictd.Session.Database.{connect_or_refuse, query_or_refuse, ask_result, quoted}
use stardictd.Session.Requests.{userlevel}
use stardictd.Session.Dispatch.{execute}
use stardictd.Session.Account.{wrong_level, check_level, daemon_userlevel}
use stardictd.Session.Completed.{
  goes-injective, >>=-goes, refuse_if-goes, first_row-goes, column-goes, query_or_refuse-goes,
  ask_result-goes, connect_or_refuse-goes,
}

-- A level is a number from 0 to 5.
abbrev pub IsLevel : Bytes → ℕ → Type 0
IsLevel text n = (atoi text ≡ pos n) × (n ≤ 5)

eqb_ℤ→eq : (i j : ℤ) → eqb_ℤ i j ≡ true → i ≡ j
eqb_ℤ→eq (pos m) (pos n) e = let same : m ≡ n = ground (arith, e) in ap pos same
eqb_ℤ→eq (pos m) (negsuc n) e = absurd (ground (arith, e))
eqb_ℤ→eq (negsuc m) (pos n) e = absurd (ground (arith, e))
eqb_ℤ→eq (negsuc m) (negsuc n) e = let same : m ≡ n = ground (arith, e) in ap negsuc same

eqb_ℤ-self : (i : ℤ) → eqb_ℤ i i ≡ true
eqb_ℤ-self (pos m) = ground arith
eqb_ℤ-self (negsuc m) = ground arith

module _ {D L : Type 0} (server : Server D L) where
  level_lem : (text : Bytes) → wrong_level server text ≡ false → (n : ℕ) × IsLevel text n
  level_lem text h = by_value (atoi text) refl
    where
      by_value : (i : ℤ) → atoi text ≡ i → (n : ℕ) × IsLevel text n
      by_value (negsuc n) e = absurd (ground (arith, h, e))
      by_value (pos n) e = (n, (e, ground (arith, h, e)))

  -- The database answers a statement by a first row, whose first column is a text.
  abbrev pub Answered : Bytes → Conn D → Bytes → Conn D → Type 0
  Answered sql before text after =
      (c : Conn D) × (row : Row) × (rows : List Row) × (Db.query server.mysql sql before
        ≡ (false, c))
      × (Db.get_result server.mysql c ≡ (some (row ∷ rows), after))
      × (get_elem? row 0 ≡ some (some text))

  abbrev level_query : Bytes → Bytes
  level_query name = codes "SELECT level FROM stardict_users WHERE username=" ++ name

  abbrev compare_levels : Bytes → Bytes → M D L Done
  compare_levels fromlevel clevel =
      refuse_if (not (eqb_ℤ (atoi clevel) (atoi fromlevel)))
        (reply code_denied (codes "current level is " ++ print_int (atoi clevel) ++ codes "."))

  abbrev read_level : Bytes → Row → M D L Done
  read_level fromlevel row = do clevel ← column 0 row; compare_levels fromlevel clevel

  abbrev read_row : Bytes → List Row → M D L Done
  read_row fromlevel rows = do
    row ← first_row rows (reply code_denied (codes "user doesn't exist."))
    read_level fromlevel row

  abbrev read_answer : Bytes → M D L Done
  read_answer fromlevel = do
    rows ← ask_result server (reply code_denied (codes "Get result failed!"))
    read_row fromlevel rows

  abbrev with_conn : Conn D → Session D L → Session D L
  with_conn c s = record s { conn = c }

  check_level-goes :
      (name fromlevel : Bytes) (s : Session D L) (a : Done) (t : Session D L)
      → check_level server name fromlevel s ≡ goes a t
      → (clevel : Bytes) × (c : Conn D) × Answered (level_query name) s.conn clevel c
        × (atoi clevel ≡ atoi fromlevel)
        × (t ≡ record s { conn = c })
  unfolding check_level
  check_level-goes name fromlevel s a t e =
      let (x1, s1, e1, k1) =
        >>=-goes
          (query_or_refuse server (level_query name)
            (reply code_denied (codes "query user level failed")))
          (λ _. read_answer fromlevel) s a t e in
      let (c1, asked, same1) = query_or_refuse-goes server _ _ s x1 s1 e1 in
      let (rows, s2, e2, k2) =
        >>=-goes (ask_result server (reply code_denied (codes "Get result failed!")))
          (read_row fromlevel) s1 a t k1 in
      let (c2, stored, same2) = ask_result-goes server _ s1 rows s2 e2 in
      let (row, s3, e3, k3) =
        >>=-goes (first_row rows (reply code_denied (codes "user doesn't exist.")))
          (read_level fromlevel) s2 a t k2 in
      let (rest, first, same3) = first_row-goes rows _ s2 row s3 e3 in
      let (clevel, s4, e4, k4) = >>=-goes (column 0 row) (compare_levels fromlevel) s3 a t k3 in
      let (cell, same4) = column-goes 0 row s3 clevel s4 e4 in
      let (fine, same5) = refuse_if-goes _ _ s4 a t k4 in
      let equal : eqb_ℤ (atoi clevel) (atoi fromlevel) ≡ true = ground (arith, fine) in
      let result : Db.get_result server.mysql c1 ≡ (some (row ∷ rest), c2) =
        ap (λ v. Db.get_result server.mysql v.conn) (sym same1)
        ∙ stored
        ∙ ap (λ r. (some r, c2)) first in
      (
        clevel,
        c2,
        (c1, row, rest, asked, result, cell),
        eqb_ℤ→eq _ _ equal,
        same5 ∙ same4 ∙ same3 ∙ same2 ∙ ap (with_conn c2) same1,
      )

  abbrev level_statement : Bytes → Bytes → Bytes
  level_statement tolevel name =
      codes "UPDATE stardict_users SET level="
      ++ print_int (atoi tolevel)
      ++ codes " WHERE username="
      ++ name

  abbrev log_and_tell : Bytes → Bytes → Bytes → M D L Done
  log_and_tell user fromlevel tolevel = do
    log log_account (codes "Set user level: " ++ user ++ 32 ∷ fromlevel ++ 32 ∷ tolevel)
    daemon_printf (bare code_ok)

  abbrev update_level : Bytes → Bytes → Bytes → M D L Done
  update_level user fromlevel tolevel = do
    name ← quoted server user
    query_or_refuse server (level_statement tolevel name) (reply code_denied (codes "query failed"))
    log_and_tell user fromlevel tolevel

  abbrev compare_and_update : Bytes → Bytes → Bytes → M D L Done
  compare_and_update user fromlevel tolevel = do
    name ← quoted server user
    check_level server name fromlevel
    update_level user fromlevel tolevel

  abbrev connect_first : Bytes → Bytes → Bytes → M D L Done
  connect_first user fromlevel tolevel = do
    connect_or_refuse server
    compare_and_update user fromlevel tolevel

  abbrev check_tolevel : Bytes → Bytes → Bytes → M D L Done
  check_tolevel user fromlevel tolevel = do
    refuse_if (wrong_level server tolevel || eqb_ℤ (atoi tolevel) (atoi fromlevel))
        (reply code_denied (codes "wrong to-level"))
    connect_first user fromlevel tolevel

  abbrev check_fromlevel : Bytes → Bytes → Bytes → M D L Done
  check_fromlevel user fromlevel tolevel = do
    refuse_if (wrong_level server fromlevel) (reply code_denied (codes "wrong from-level"))
    check_tolevel user fromlevel tolevel

  -- The user's name as a text of SQL.
  abbrev pub name_in : Bytes → Conn D → Bytes
  name_in user c = 39 ∷ Db.escape_string server.mysql (c_str user) c ++ 39 ∷ []

  -- What a `userlevel` that is carried through has done.
  abbrev pub IsPromoted : Bytes → Bytes → Bytes → Session D L → Session D L → Type 0
  IsPromoted user fromlevel tolevel s t =
      (m : ℕ) × (n : ℕ) × (clevel : Bytes) × (before after : Conn D) × (s.auth_user ≡ root)
      × IsLevel fromlevel m
      × IsLevel tolevel n
      × (m ≢ n)
      × Answered (level_query (name_in user before)) before clevel after
      × (atoi clevel ≡ pos m)
      × (Db.query server.mysql (level_statement tolevel (name_in user after)) after
          ≡ (false, t.conn))
      × (t.sent ≡ s.sent ++ bare code_ok ∷ [])
      × (t.auth_user ≡ s.auth_user)

  told :
      (user fromlevel tolevel : Bytes) (s t : Session D L) (a : Done)
      → log_and_tell user fromlevel tolevel s ≡ goes a t
      → (t.conn ≡ s.conn) × (t.auth_user ≡ s.auth_user) × (t.sent ≡ s.sent ++ bare code_ok ∷ [])
  unfolding log daemon_printf print_nat put_digits
  told user fromlevel tolevel s t a k =
      let same = (goes-injective _ _ _ _ k).1 in
      (ap (λ v. v.conn) (sym same), ap (λ v. v.auth_user) (sym same), ap (λ v. v.sent) (sym same))

  -- From the connection on.
  changed :
      (user fromlevel tolevel : Bytes) (s : Session D L) (a : Done) (t : Session D L)
      → compare_and_update user fromlevel tolevel s ≡ goes a t
      → (clevel : Bytes) × (after : Conn D) × Answered
          (level_query (name_in user s.conn))
          s.conn
          clevel
          after
        × (atoi clevel ≡ atoi fromlevel)
        × (Db.query server.mysql (level_statement tolevel (name_in user after)) after
            ≡ (false, t.conn))
        × (t.sent ≡ s.sent ++ bare code_ok ∷ [])
        × (t.auth_user ≡ s.auth_user)
  unfolding quoted
  changed user fromlevel tolevel s a t e =
      let (x1, s1, e1, k1) =
        >>=-goes (check_level server (name_in user s.conn) fromlevel)
          (λ _. update_level user fromlevel tolevel) s a t e in
      let (clevel, c1, answered, equal, same1) = check_level-goes _ fromlevel s x1 s1 e1 in
      let (x2, s2, e2, k2) =
        >>=-goes
          (query_or_refuse server (level_statement tolevel (name_in user s1.conn))
            (reply code_denied (codes "query failed")))
          (λ _. log_and_tell user fromlevel tolevel) s1 a t k1 in
      let (c2, asked, same2) = query_or_refuse-goes server _ _ s1 x2 s2 e2 in
      let (conn, auth, sent) = told user fromlevel tolevel s2 t a k2 in
      let asked_of : Conn D → Type 0 =
        λ c. Db.query server.mysql (level_statement tolevel (name_in user c)) c ≡ (false, c2) in
      (
        clevel,
        c1,
        answered,
        equal,
        subst asked_of (ap (λ v. v.conn) same1) asked
            ∙ ap (λ c. (false, c)) (sym (conn ∙ ap (λ v. v.conn) same2)),
        sent
            ∙ ap (λ v. v.sent ++ bare code_ok ∷ []) (same2)
            ∙ ap (λ v. v.sent ++ bare code_ok ∷ []) same1,
        auth ∙ ap (λ v. v.auth_user) same2 ∙ ap (λ v. v.auth_user) same1,
      )

  -- A `userlevel` that is carried through was asked for by root, between two different levels from 0
  -- to 5; the user had the first of them in the database, which was told to store the second, and the
  -- reply is one line that says that all went well.
  pub execute-userlevel :
      (user fromlevel tolevel : Bytes) (s : Session D L) (a : Done) (t : Session D L)
      → execute server (userlevel user fromlevel tolevel) s ≡ goes a t
      → IsPromoted user fromlevel tolevel s t
  unfolding execute daemon_userlevel
  execute-userlevel user fromlevel tolevel s a t e =
      let (x1, s1, e1, k1) =
        >>=-goes
          (refuse_if (not (eqb s.auth_user root)) (reply code_denied (codes "no permission")))
          (λ _. check_fromlevel user fromlevel tolevel) s a t e in
      let (is_root, same1) = refuse_if-goes _ _ s x1 s1 e1 in
      let (x2, s2, e2, k2) =
        >>=-goes
          (refuse_if (wrong_level server fromlevel) (reply code_denied (codes "wrong from-level")))
          (λ _. check_tolevel user fromlevel tolevel) s1 a t k1 in
      let (from_fine, same2) = refuse_if-goes _ _ s1 x2 s2 e2 in
      let (x3, s3, e3, k3) =
        >>=-goes
          (refuse_if (wrong_level server tolevel || eqb_ℤ (atoi tolevel) (atoi fromlevel))
            (reply code_denied (codes "wrong to-level")))
          (λ _. connect_first user fromlevel tolevel) s2 a t k2 in
      let (to_fine, same3) = refuse_if-goes _ _ s2 x3 s3 e3 in
      let (x4, s4, e4, k4) =
        >>=-goes (connect_or_refuse server) (λ _. compare_and_update user fromlevel tolevel) s3 a t
          k3 in
      let (f4, c4, same4) = connect_or_refuse-goes server s3 x4 s4 e4 in
      let (clevel, after, answered, equal, asked, sent, auth) =
        changed user fromlevel tolevel s4 a t k4 in
      let (m, from_level) = level_lem fromlevel from_fine in
      let (to_level, other) = both_fine (wrong_level server tolevel) _ to_fine in
      let (n, tolevel_is) = level_lem tolevel to_level in
      (
        m,
        n,
        clevel,
        s4.conn,
        after,
        ground (arith, is_root, eqb_iff s.auth_user root),
        from_level,
        tolevel_is,
        differ m n from_level tolevel_is other,
        answered,
        equal ∙ from_level.0,
        asked,
        sent
            ∙ ap (λ v. v.sent ++ bare code_ok ∷ []) same4
            ∙ ap (λ v. v.sent ++ bare code_ok ∷ []) (same3 ∙ same2 ∙ same1),
        auth ∙ ap (λ v. v.auth_user) same4 ∙ ap (λ v. v.auth_user) (same3 ∙ same2 ∙ same1),
      )
    where
      both_fine : (b c : Bool) → (b || c) ≡ false → (b ≡ false) × (c ≡ false)
      both_fine false c h = (refl, h)
      both_fine true c h = absurd (cc h)

      differ :
          (m n : ℕ)
          → IsLevel fromlevel m
          → IsLevel tolevel n
          → eqb_ℤ (atoi tolevel) (atoi fromlevel) ≡ false
          → m ≢ n
      differ m n from_is to_is other same =
          let equal : atoi tolevel ≡ atoi fromlevel = to_is.0 ∙ ap pos (sym same) ∙ sym from_is.0 in
          cc
            (subst (λ i. eqb_ℤ i (atoi fromlevel) ≡ false) equal other, eqb_ℤ-self (atoi fromlevel))
