-- ===== src/Session/Lookups.antt =====
-- The commands of source_codes/stardictd/src/daemon.cpp about words and dictionaries, which a guest
-- may give.
use stardictd.Base.{
  Bool, true, false, ◌++◌, ◌==◌, List, [], Option, none, some, Bytes, codes, eqb, length,
}
use stardictd.Base.Int.{ℤ, pos, negsuc}
use stardictd.Base.Decimal.{print_int, atoi}
use stardictd.Compare.{Ordering}
use stardictd.Main.{Main, set_dict_mask, set_server_collate_func}
use stardictd.Session.{
  Server, goes, M, Done, ◌>>=◌, ◌>>◌, give, get, set_auth_user, update_main, daemon_printf,
  net_write, net_write_str, net_writes, conf_int, conf_str, reply, bare, code_ok, code_denied,
  code_dictmask_notset,
}
use stardictd.Session.Auth.{guest}
use stardictd.Session.Profile.{dicts_list}

module _ {D L : Type 0} where
  -- The answer to a client of this version, of an older one or of a newer one.
  unfoldable pub greet : Ordering → M D L Done
  greet Ordering.eq = daemon_printf (reply code_ok (codes "OK"))
  greet Ordering.gt = daemon_printf (
      reply code_denied (
        codes
          "The protocol version is not the same! You need to change to the newest stardictd server!"))
  greet Ordering.lt = daemon_printf (
      reply code_denied
        (codes "The protocol version is not the same! You need to update the client!"))

module _ {D L : Type 0} (server : Server D L) where
  unfoldable pub dir_info : Bytes → M D L (Option Bytes)
  dir_info path s =
      let (text, libs) = server.dictionaries.get_dir_info path s.main.o_libs in
      goes text (record s { main = record (s.main) { o_libs = libs } })

  unfoldable pub dict_info : Bytes → M D L (Option Bytes)
  dict_info uid s =
      let (text, libs) = server.dictionaries.get_dict_info uid false s.main.o_libs in
      goes text (record s { main = record (s.main) { o_libs = libs } })

  unfoldable pub answer_dirinfo : Option Bytes → M D L Done
  answer_dirinfo none = daemon_printf (reply code_denied (codes "wrong path"))
  answer_dirinfo (some text) = do
    daemon_printf (bare code_ok)
    level ← get λ s. s.level
    net_write (codes "<userlevel>" ++ print_int level ++ codes "</userlevel>")
    net_write_str text

  unfoldable pub daemon_dirinfo : Bytes → M D L Done
  daemon_dirinfo path = do info_string ← dir_info path; answer_dirinfo info_string

  unfoldable pub daemon_fromto : M D L Done
  daemon_fromto = do
    info_string ← get λ s. server.dictionaries.get_fromto_info s.main.o_libs
    daemon_printf (bare code_ok)
    net_write_str info_string

  unfoldable pub answer_dictinfo : Option Bytes → M D L Done
  answer_dictinfo none = daemon_printf (reply code_denied (codes "unknow dict uid"))
  answer_dictinfo (some text) = do daemon_printf (bare code_ok); net_write_str text

  unfoldable pub daemon_dictinfo : Bytes → M D L Done
  daemon_dictinfo uid = do info_string ← dict_info uid; answer_dictinfo info_string

  unfoldable pub daemon_dictslist : Bytes → M D L Done
  daemon_dictslist dicts = do
    max_dict_count ← conf_int (codes "level-0-user/max_dict_count")
    info_string ← dicts_list server dicts max_dict_count (pos 0)
    daemon_printf (bare code_ok)
    net_write_str info_string

  unfoldable pub daemon_getadinfo : M D L Done
  daemon_getadinfo = do
    daemon_printf (bare code_ok)
    ad_info ← conf_str (codes "info/ad_info")
    net_write_str ad_info

  unfoldable pub daemon_LookupinTmpdictmask : Bytes → M D L Done
  daemon_LookupinTmpdictmask dicts = do
    daemon_printf (bare code_ok)
    set_auth_user guest
    max_dict_count ← conf_int (codes "level-0-user/max_dict_count")
    update_main (set_dict_mask server.dictionaries dicts max_dict_count (pos 0))
    update_main (set_server_collate_func server.dictionaries (pos 0))

  -- Whoever has not said who he is becomes a guest.
  unfoldable pub become_guest : M D L Done
  become_guest = do
    set_auth_user guest
    dictmask ← conf_str (codes "guest-user/dictmask")
    update_main (set_dict_mask server.dictionaries dictmask (negsuc 0) (negsuc 0))
    update_main (set_server_collate_func server.dictionaries (pos 0))

  unfoldable pub check_user : Bool → M D L Bool
  check_user true = do become_guest; give false
  check_user false = get λ s. length s.main.query_dictmask == 0

  -- Whether no dictionary is chosen.
  unfoldable pub check_dictmask : M D L Bool
  check_dictmask = do me ← get λ s. s.auth_user; check_user (eqb me [])

  -- An answer of the dictionaries.
  unfoldable pub send_answer : (Main L → List Bytes × L) → M D L Done
  send_answer f s =
      let (texts, libs) = f s.main in
      net_writes texts (record s { main = record (s.main) { o_libs = libs } })

  unfoldable pub respond : Bool → (Main L → List Bytes × L) → M D L Done
  respond true f = daemon_printf (bare code_dictmask_notset)
  respond false f = do daemon_printf (bare code_ok); send_answer f

  -- The body that the seven commands on words share.
  unfoldable pub answer_if_chosen : (Main L → List Bytes × L) → M D L Done
  answer_if_chosen f = do notset ← check_dictmask; respond notset f

  unfoldable pub daemon_lookup : Bytes → ℤ → M D L Done
  daemon_lookup word wordcount = answer_if_chosen (server.answers.lookup word wordcount)

  unfoldable pub daemon_query : Bytes → M D L Done
  daemon_query word = answer_if_chosen (server.answers.query word)

  unfoldable pub daemon_selectquery : Bytes → M D L Done
  daemon_selectquery word = answer_if_chosen (server.answers.selectquery word)

  unfoldable pub daemon_smartquery : Bytes → Bytes → M D L Done
  daemon_smartquery word begin_pos =
      answer_if_chosen (server.answers.smartquery word (atoi begin_pos))

  unfoldable pub daemon_define : Bytes → M D L Done
  daemon_define word = answer_if_chosen (server.answers.define word)

  unfoldable pub daemon_previous : Bytes → ℤ → M D L Done
  daemon_previous word wordcount = answer_if_chosen (server.answers.previous word wordcount)

  unfoldable pub daemon_next : Bytes → ℤ → M D L Done
  daemon_next word wordcount = answer_if_chosen (server.answers.next word wordcount)

  unfoldable pub daemon_client : Bytes → M D L Done
  daemon_client protocol_name = greet (server.compare_version protocol_name)
