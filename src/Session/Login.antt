-- ===== src/Session/Login.antt =====
-- A login that is right is let in (source_codes/stardictd/src/daemon.cpp), with the key that the client
-- makes (source_codes/stardict-client/src/command.cpp).
use stardictd.Base.{true, false, [], ◌∷◌, ◌++◌, ◌≡◌, ◌≢◌, refl, arith, eqb, eqb_iff, codes}
use stardictd.Base.Decimal.{print_nat, put_digits}
use stardictd.Conf.{get_str}
use stardictd.Main.{set_dict_mask}
use stardictd.Libs.Mask.{set_server_dictmask, uid_list, mask_on}
use stardictd.Client.{login_key}
use stardictd.Session.{
  Server, Session, goes, refuse_if, conf_str, daemon_printf, stop, set_auth_user, update_main,
  reply, code_ok,
}
use stardictd.Session.Requests.{auth}
use stardictd.Session.Auth.{root, daemon_auth, auth_root, root_proof, check_key, enter}
use stardictd.Session.Authority.{value}
use stardictd.Session.Dispatch.{execute}

module _ {D L : Type 0} (server : Server D L) where
  -- When a root password is set, the key that a client makes of it and of the stamp makes the session
  -- root's: the reply says so, and whatever dictionaries were chosen, none is chosen any more.
  pub execute-login_key :
      (s : Session D L)
      → value s (codes "root-user/password") ≢ []
      → let key =
          login_key server.md5_hex true (value s (codes "root-user/password")) s.daemon_stamp in
        execute server (auth root key) s
        ≡ goes tt (record s {
          conf = (get_str s.conf (codes "root-user/password")).0;
          auth_user = root;
          main = record (s.main) { query_dictmask = []; scan_dictmask = [] };
          sent = s.sent ++ reply code_ok (codes "authenticated") ∷ [];
        })
  unfolding execute daemon_auth auth_root root_proof check_key enter refuse_if conf_str
      daemon_printf stop set_auth_user update_main print_nat put_digits set_dict_mask
      set_server_dictmask uid_list mask_on
  execute-login_key s is_set =
      let key =
        login_key server.md5_hex true (value s (codes "root-user/password")) s.daemon_stamp in
      let e1 : eqb (value s (codes "root-user/password")) [] ≡ false =
        ground (arith, is_set, eqb_iff (value s (codes "root-user/password")) []) in
      let e2 : eqb key key ≡ true = (eqb_iff key key).1 refl in ground (arith, e1, e2)
