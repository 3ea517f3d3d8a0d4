-- ===== src/Session/Collates.antt =====
-- The collation that a user chooses (`daemon_setcollatefunc` of source_codes/stardictd/src/daemon.cpp).
use stardictd.Base.{
  ℕ, ◌≤◌, Bool, true, false, not, [], ◌∷◌, ◌++◌, ◌≡◌, ◌≢◌, refl, sym, ap, ◌∙◌, subst, Bytes, arith,
  codes, eqb, eqb_iff,
}
use stardictd.Base.Int.{ℤ, pos, negsuc, eqb_ℤ}
use stardictd.Base.Decimal.{atoi, print_int, print_nat, put_digits, atoi-print_nat}
use stardictd.Conf.{Conf}
use stardictd.Db.{Conn}
use stardictd.Db
use stardictd.Main.{set_server_collate_func}
use stardictd.Session.{
  Server, Session, goes, M, Done, ◌>>=◌, ◌>>◌, get, refuse_if, conf_bool, update_main,
  daemon_printf, reply, bare, code_ok, code_denied,
}
use stardictd.Session.Database.{connect_or_refuse, query_or_refuse}
use stardictd.Session.Requests.{setcollatefunc}
use stardictd.Session.Dispatch.{execute}
use stardictd.Session.Profile.{
  wrong_collate, collate_func_nums, require_user, require_enabled, require_collate,
  daemon_setcollatefunc,
}
use stardictd.Session.Completed.{
  goes-injective, >>=-goes, refuse_if-goes, query_or_refuse-goes, connect_or_refuse-goes,
}

-- The text is the number of a collation: 0, for none, or the number behind one of the 21 tables.
in_range :
    (func : Bytes)
    → wrong_collate func ≡ false
    → (n : ℕ) × (atoi func ≡ pos n) × (n ≤ collate_func_nums)
in_range func h = by_value (atoi func) refl
  where
    by_value : (i : ℤ) → atoi func ≡ i → (n : ℕ) × (atoi func ≡ pos n) × (n ≤ collate_func_nums)
    by_value (negsuc n) e = absurd (ground (arith, h, e))
    by_value (pos n) e = (n, e, ground (arith, h, e))

module _ {D L : Type 0} (server : Server D L) where
  pub require_user-goes :
      (code : ℕ) (s : Session D L) (a : Done) (t : Session D L)
      → require_user code s ≡ goes a t
      → (s.user_id ≢ []) × (t ≡ s)
  unfolding require_user
  require_user-goes code s a t e =
      let (known, same) =
        refuse_if-goes (eqb s.user_id []) (reply code (codes "unknow user id")) s a t e in
      (ground (arith, known, eqb_iff s.user_id []), same)

  conf_bool-goes :
      (b : Bool) (s u : Session D L)
      → conf_bool (codes "level-0-user/enable_collate") s ≡ goes b u
      → u ≡ record s { conf = u.conf }
  unfolding conf_bool
  conf_bool-goes b s u k =
      subst (λ v. v ≡ record s { conf = v.conf }) (goes-injective _ _ _ _ k).1 refl

  enabled-goes :
      (b : Bool) (s : Session D L) (a : Done) (t : Session D L)
      → require_enabled server b s ≡ goes a t
      → (f : Conf) × (t ≡ record s { conf = f })
  unfolding require_enabled
  enabled-goes false s a t e = (s.conf, sym (goes-injective _ _ _ _ e).1)
  enabled-goes true s a t e =
      let (enable, u, read, told) =
        >>=-goes (conf_bool (codes "level-0-user/enable_collate")) refusal s a t e in
      let (fine, same) = refuse_if-goes (not enable) line u a t told in
      (u.conf, same ∙ conf_bool-goes enable s u read)
    where
      line : Bytes
      line = reply code_denied (codes "level 0 user can't set collate function.")

      refusal : Bool → M D L Done
      refusal b =
          refuse_if (not b) (reply code_denied (codes "level 0 user can't set collate function."))

  require_collate-goes :
      (s : Session D L) (a : Done) (t : Session D L)
      → require_collate server s ≡ goes a t
      → (f : Conf) × (t ≡ record s { conf = f })
  unfolding require_collate
  require_collate-goes s a t e = enabled-goes (eqb_ℤ s.level (pos 0)) s a t e

  -- The statement that stores the collation `n` for the user `id`.
  abbrev pub collate_statement : ℕ → Bytes → Bytes
  collate_statement n id =
      codes "UPDATE user_basic SET collatefunc=" ++ print_nat n ++ codes " WHERE id=" ++ id

  abbrev set_and_tell : Bytes → M D L Done
  set_and_tell func = do
    update_main (set_server_collate_func server.dictionaries (atoi func))
    daemon_printf (bare code_ok)

  abbrev store_it : Bytes → M D L Done
  store_it func = do
    id ← get λ s. s.user_id
    query_or_refuse server
        (codes "UPDATE user_basic SET collatefunc="
          ++ print_int (atoi func)
          ++ codes " WHERE id="
          ++ id)
        (reply code_denied (codes "query failed"))
    set_and_tell func

  abbrev connect_first : Bytes → M D L Done
  connect_first func = do connect_or_refuse server; store_it func

  abbrev check_it : Bytes → M D L Done
  check_it func = do
    refuse_if (wrong_collate func) (reply code_denied (codes "wrong collate func"))
    connect_first func

  abbrev allow_first : Bytes → M D L Done
  allow_first func = do require_collate server; check_it func

  -- What a `setcollatefunc` that is carried through has done.
  abbrev pub IsChosen : Bytes → Session D L → Session D L → Type 0
  IsChosen func s t =
      (n : ℕ) × (c : Conn D) × (s.user_id ≢ [])
      × (atoi func ≡ pos n)
      × (n ≤ collate_func_nums)
      × (Db.query server.mysql (collate_statement n s.user_id) c ≡ (false, t.conn))
      × (atoi (print_nat n) ≡ pos n)
      × (t.main.servercollatefunc ≡ pos n)
      × (t.user_id ≡ s.user_id)
      × (t.sent ≡ s.sent ++ bare code_ok ∷ [])

  statement :
      (func : Bytes) (n : ℕ) (id id' : Bytes)
      → atoi func ≡ pos n
      → id ≡ id'
      → codes "UPDATE user_basic SET collatefunc="
          ++ print_int (atoi func)
          ++ codes " WHERE id="
          ++ id
        ≡ collate_statement n id'
  unfolding print_int
  statement func n id id' is same =
      ap
        (λ i. codes "UPDATE user_basic SET collatefunc=" ++ print_int i ++ codes " WHERE id=" ++ id)
        is
      ∙ ap (λ u. collate_statement n u) same

  told :
      (func : Bytes) (n : ℕ) (s t : Session D L) (a : Done)
      → atoi func ≡ pos n
      → set_and_tell func s ≡ goes a t
      → (t.main.servercollatefunc ≡ pos n)
        × (t.conn ≡ s.conn)
        × (t.user_id ≡ s.user_id)
        × (t.sent ≡ s.sent ++ bare code_ok ∷ [])
  unfolding update_main daemon_printf set_server_collate_func print_nat put_digits
  told func n s t a e k = let same = (goes-injective _ _ _ _ k).1 in ground (arith, same, e)

  -- When `setcollatefunc` is carried through, the client has an identity, and the collation is 0, for
  -- none, or the number behind one of the 21 tables; the database has taken that number, printed so
  -- that it is read back as the same, for that user, it is the collation of the session, and the
  -- reply is one line that says that all went well.
  pub execute-setcollatefunc :
      (func : Bytes) (s : Session D L) (a : Done) (t : Session D L)
      → execute server (setcollatefunc func) s ≡ goes a t
      → IsChosen func s t
  unfolding execute daemon_setcollatefunc
  execute-setcollatefunc func s a t e =
      let (x0, s0, e0, k0) = >>=-goes (require_user code_denied) (λ _. allow_first func) s a t e in
      let (known, same0) = require_user-goes code_denied s x0 s0 e0 in
      let (x1, s1, e1, k1) = >>=-goes (require_collate server) (λ _. check_it func) s0 a t k0 in
      let (f1, same1) = require_collate-goes s0 x1 s1 e1 in
      let (x2, s2, e2, k2) =
        >>=-goes (refuse_if (wrong_collate func) (reply code_denied (codes "wrong collate func")))
          (λ _. connect_first func) s1 a t k1 in
      let (fine, same2) = refuse_if-goes (wrong_collate func) _ s1 x2 s2 e2 in
      let (n, is, bound) = in_range func fine in
      let (x3, s3, e3, k3) = >>=-goes (connect_or_refuse server) (λ _. store_it func) s2 a t k2 in
      let (f3, c3, same3) = connect_or_refuse-goes server s2 x3 s3 e3 in
      let (x4, s4, e4, k4) =
        >>=-goes
          (query_or_refuse server
            (codes "UPDATE user_basic SET collatefunc="
              ++ print_int (atoi func)
              ++ codes " WHERE id="
              ++ s3.user_id)
            (reply code_denied (codes "query failed")))
          (λ _. set_and_tell func) s3 a t k3 in
      let (c4, asked, same4) = query_or_refuse-goes server _ _ s3 x4 s4 e4 in
      let (set, conn, id, sent) = told func n s4 t a is k4 in
      let user : s3.user_id ≡ s.user_id =
        ap (λ v. v.user_id) same3
        ∙ ap (λ v. v.user_id) same2
        ∙ ap (λ v. v.user_id) same1
        ∙ ap (λ v. v.user_id) same0 in
      let sent3 : s3.sent ≡ s.sent =
        ap (λ v. v.sent) same3
        ∙ ap (λ v. v.sent) same2
        ∙ ap (λ v. v.sent) same1
        ∙ ap (λ v. v.sent) same0 in
      let same_conn : t.conn ≡ c4 = conn ∙ ap (λ v. v.conn) same4 in
      (
        n,
        s3.conn,
        known,
        is,
        bound,
        ap (λ q. Db.query server.mysql q s3.conn)
              (sym (statement func n s3.user_id s.user_id is user))
            ∙ asked
            ∙ ap (λ c. (false, c)) (sym same_conn),
        atoi-print_nat n (omega (arith, bound)),
        set,
        id ∙ ap (λ v. v.user_id) same4 ∙ user,
        sent
            ∙ ap (λ v. v.sent ++ bare code_ok ∷ []) (same4)
            ∙ ap (λ v. v ++ bare code_ok ∷ []) sent3,
      )
