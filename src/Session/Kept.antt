-- ===== src/Session/Kept.antt =====
-- Frames of the handlers of source_codes/stardictd/src/daemon.cpp, made of the frames of their steps.
pub mod Settings
pub mod Words
use stardictd.Base.{ℕ, Bool, true, false, List, Option, none, some, Bytes}
use stardictd.Base.Int.{ℤ}
use stardictd.Compare.{Ordering}
use stardictd.Db.{Row}
use stardictd.Main.{Main}
use stardictd.Session.{Server, Session, set_auth_user, net_writes}
use stardictd.Session.Frame.{
  IsFrame, Keeps, Keeps-bind, Keeps-call, Keeps-give, Keeps-get, Keeps-set_user_id, Keeps-set_level,
  Keeps-if, Keeps-update_main, Keeps-net_write, Keeps-net_writes, Keeps-daemon_printf, Keeps-log,
  Keeps-refuse_if, Keeps-conf_str, Keeps-conf_int, Keeps-conf_bool, Keeps-column, Keeps-first_row,
}
use stardictd.Session.Frame.Queries.{
  Keeps-quoted, Keeps-run_query, Keeps-connect_or_refuse, Keeps-query_or_refuse, Keeps-ask_result,
}
use stardictd.Session.Auth.{
  guest, root_proof, user_proof, collate_enabled, apply_collate, apply_profile, default_profile,
  load_profile, enter, profile_or_default,
}
use stardictd.Session.Account.{
  check_old_password, write_password, daemon_change_password, init_user_basic, insert_user,
  daemon_register, check_level, daemon_userlevel,
}
use stardictd.Session.Profile.{
  require_user, require_enabled, require_collate, daemon_setdictmask, daemon_setcollatefunc,
  daemon_setlanguage, daemon_setemail, ask_column, dicts_list, daemon_getdictmask,
  daemon_getcollatefunc, daemon_getlanguage, daemon_getemail, daemon_getuserlevel,
  daemon_maxdictcount,
}
use stardictd.Session.Lookups.{
  dir_info, dict_info, answer_dirinfo, answer_dictinfo, become_guest, check_user, check_dictmask,
  send_answer, respond, answer_if_chosen, daemon_client, daemon_dirinfo, daemon_dictinfo,
  daemon_fromto, daemon_dictslist, daemon_LookupinTmpdictmask, daemon_getadinfo, greet,
}

pub ruleset steps = (
  Keeps-bind, Keeps-call, Keeps-give, Keeps-get, Keeps-set_user_id, Keeps-set_level, Keeps-if,
  Keeps-update_main, Keeps-net_write, Keeps-net_writes, Keeps-daemon_printf, Keeps-log,
  Keeps-refuse_if, Keeps-conf_str, Keeps-conf_int, Keeps-conf_bool, Keeps-column, Keeps-first_row,
  Keeps-quoted, Keeps-run_query, Keeps-connect_or_refuse, Keeps-query_or_refuse, Keeps-ask_result,
)

module _ {D L : Type 0} {R : Session D L → Session D L → Type 0} (frame : IsFrame R)
    (server : Server D L) where
  pub Keeps-root_proof : Keeps R (root_proof server)
  unfolding root_proof
  Keeps-root_proof = search (steps, frame) depth 20

  pub Keeps-user_proof : (user : Bytes) → Keeps R (user_proof server user)
  unfolding user_proof
  Keeps-user_proof user = search (steps, frame) depth 20

  pub Keeps-collate_enabled : (level : ℤ) → Keeps R (collate_enabled server level)
  unfolding collate_enabled
  Keeps-collate_enabled level = search (steps, frame) depth 20

  pub Keeps-apply_collate :
      (enabled : Bool) (row : Row) → Keeps R (apply_collate server enabled row)
  unfolding apply_collate
  Keeps-apply_collate true row = search (steps, frame) depth 20
  Keeps-apply_collate false row = search (steps, frame) depth 20

  pub Keeps-apply_profile : (row : Row) → Keeps R (apply_profile server row)
  unfolding apply_profile
  Keeps-apply_profile row =
      search (steps, frame, Keeps-collate_enabled, Keeps-apply_collate) depth 20

  pub Keeps-default_profile : Keeps R (default_profile server)
  unfolding default_profile
  Keeps-default_profile = search (steps, frame) depth 20

  pub Keeps-profile_or_default : (row : Option Row) → Keeps R (profile_or_default server row)
  unfolding profile_or_default
  Keeps-profile_or_default none =
      search (steps, frame, Keeps-apply_profile, Keeps-default_profile) depth 20
  Keeps-profile_or_default (some row) =
      search (steps, frame, Keeps-apply_profile, Keeps-default_profile) depth 20

  pub Keeps-load_profile : Keeps R (load_profile server)
  unfolding load_profile
  Keeps-load_profile = search (steps, frame, Keeps-profile_or_default) depth 20

  pub Keeps-enter : (is_root : Bool) → Keeps R (enter server is_root)
  unfolding enter
  Keeps-enter true = search (steps, frame, Keeps-load_profile) depth 20
  Keeps-enter false = search (steps, frame, Keeps-load_profile) depth 20

  pub Keeps-check_old_password :
      (user : Bytes) (old_passwd : Bytes) → Keeps R (check_old_password server user old_passwd)
  unfolding check_old_password
  Keeps-check_old_password user old_passwd = search (steps, frame) depth 20

  pub Keeps-write_password :
      (user : Bytes) (new_passwd : Bytes) → Keeps R (write_password server user new_passwd)
  unfolding write_password
  Keeps-write_password user new_passwd = search (steps, frame) depth 20

  pub Keeps-daemon_change_password :
      (user : Bytes) (old_text : Bytes) (new_text : Bytes)
      → Keeps R (daemon_change_password server user old_text new_text)
  unfolding daemon_change_password
  Keeps-daemon_change_password user old_text new_text =
      search (steps, frame, Keeps-check_old_password, Keeps-write_password) depth 20

  pub Keeps-init_user_basic : (email : Bytes) → Keeps R (init_user_basic server email)
  unfolding init_user_basic
  Keeps-init_user_basic email = search (steps, frame) depth 20

  pub Keeps-insert_user :
      (user : Bytes) (password : Bytes) → Keeps R (insert_user server user password)
  unfolding insert_user
  Keeps-insert_user user password = search (steps, frame) depth 20

  pub Keeps-daemon_register :
      (user : Bytes) (text : Bytes) (email : Bytes)
      → Keeps R (daemon_register server user text email)
  unfolding daemon_register
  Keeps-daemon_register user text email =
      search (steps, frame, Keeps-init_user_basic, Keeps-insert_user) depth 20

  pub Keeps-check_level :
      (name : Bytes) (fromlevel : Bytes) → Keeps R (check_level server name fromlevel)
  unfolding check_level
  Keeps-check_level name fromlevel = search (steps, frame) depth 20

  pub Keeps-daemon_userlevel :
      (user : Bytes) (fromlevel : Bytes) (tolevel : Bytes)
      → Keeps R (daemon_userlevel server user fromlevel tolevel)
  unfolding daemon_userlevel
  Keeps-daemon_userlevel user fromlevel tolevel = search (steps, frame, Keeps-check_level) depth 20
