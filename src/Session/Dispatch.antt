-- ===== src/Session/Dispatch.antt =====
-- The commands of a connection (`_handleconn` of source_codes/stardictd/src/daemon.cpp): the table
-- of handlers, the loop over the lines that the client sends, and the banner before it. The alarms
-- that end a slow process are not modelled.
use stardictd.Base.{
  ℕ, zero, suc, ◌++◌, List, Option, none, some, Bytes, codes, if◌then◌else◌, length, take,
}
use stardictd.Base.Int.{ℤ}
use stardictd.Base.Decimal.{print_nat, print_int}
use stardictd.Net.{net_read_line}
use stardictd.Session.Requests.{
  Request, no_command, unknown_command, quit, client, auth, lookup, previous, next, query,
  selectquery, define, smartquery, register, change_password, setdictmask, setcollatefunc,
  setlanguage, setemail, getdictmask, getcollatefunc, getlanguage, getemail, getuserlevel,
  maxdictcount, dirinfo, dictinfo, dictslist, tmpdictmask, userlevel, fromto, getadinfo,
  parse_request,
}
use stardictd.Command.{args_new, c_str}
use stardictd.Session.{
  Server, exits, M, Done, set_daemon_stamp, ◌>>=◌, ◌>>◌, give, get, call, crash, daemon_printf,
  reply, code_goodbye, code_hello, code_syntax_error, code_temporarily_unavailable,
}
use stardictd.Session.Auth.{daemon_auth}
use stardictd.Session.Account.{daemon_register, daemon_change_password, daemon_userlevel}
use stardictd.Session.Profile.{
  daemon_setdictmask, daemon_setcollatefunc, daemon_setlanguage, daemon_setemail,
  daemon_getdictmask, daemon_getcollatefunc, daemon_getlanguage, daemon_getemail,
  daemon_getuserlevel, daemon_maxdictcount,
}
use stardictd.Session.Lookups.{
  daemon_client, daemon_lookup, daemon_query, daemon_selectquery, daemon_smartquery, daemon_define,
  daemon_previous, daemon_next, daemon_dirinfo, daemon_dictinfo, daemon_fromto, daemon_dictslist,
  daemon_LookupinTmpdictmask, daemon_getadinfo,
}

-- What the banner tells of the process; `public_key` is the key's text.
pub record Process : Type 0 where
  pub hostname : Bytes
  pub dict_forks : ℤ
  pub pid : ℤ
  pub public_key : Bytes

module _ {D L : Type 0} (server : Server D L) where
  unfoldable pub terminate : M D L Done
  terminate s = exits s

  unfoldable pub daemon_quit : M D L Done
  daemon_quit = do daemon_printf (reply code_goodbye (codes "bye")); terminate

  -- The handler of a request.
  unfoldable pub execute : Request → M D L Done
  execute no_command = daemon_printf (reply code_syntax_error (codes "no command"))
  execute unknown_command = daemon_printf (reply code_syntax_error (codes "unknown command"))
  execute quit = daemon_quit
  execute (client protocol) = daemon_client server protocol
  execute (auth user key) = daemon_auth server user key
  execute (lookup word n) = daemon_lookup server word n
  execute (previous word n) = daemon_previous server word n
  execute (next word n) = daemon_next server word n
  execute (query word) = daemon_query server word
  execute (selectquery word) = daemon_selectquery server word
  execute (define word) = daemon_define server word
  execute (smartquery word begin_pos) = daemon_smartquery server word begin_pos
  execute (register user password email) = daemon_register server user password email
  execute (change_password user old new) = daemon_change_password server user old new
  execute (setdictmask dictmask) = daemon_setdictmask server dictmask
  execute (setcollatefunc func) = daemon_setcollatefunc server func
  execute (setlanguage lang) = daemon_setlanguage server lang
  execute (setemail email) = daemon_setemail server email
  execute getdictmask = daemon_getdictmask server
  execute getcollatefunc = daemon_getcollatefunc server
  execute getlanguage = daemon_getlanguage server
  execute getemail = daemon_getemail server
  execute getuserlevel = daemon_getuserlevel server
  execute maxdictcount = daemon_maxdictcount server
  execute (dirinfo path) = daemon_dirinfo server path
  execute (dictinfo uid) = daemon_dictinfo server uid
  execute (dictslist dicts) = daemon_dictslist server dicts
  execute (tmpdictmask dicts) = daemon_LookupinTmpdictmask server dicts
  execute (userlevel user from to) = daemon_userlevel server user from to
  execute fromto = daemon_fromto server
  execute getadinfo = daemon_getadinfo server

  -- The words of a line: `none` is a text that ends in a lone backslash, which is not defined.
  unfoldable pub handle_words : Option (List Bytes) → M D L Done
  handle_words (some args) = call (execute (parse_request args))
  handle_words none = crash

  unfoldable pub handle_line : Bytes → M D L Done
  handle_line buf = handle_words (args_new (c_str buf))

  -- The loop of `_handleconn` over what the client sends, with fuel for the lines; the process ends
  -- with the input.
  unfoldable pub serve : ℕ → Bytes → M D L Done
  serve zero input s = exits s
  serve (suc fuel) input s =
      let (failed, buf, rest) = net_read_line input in
      let later = handle_line buf >> serve fuel rest in if failed then exits s else later s

  unfoldable pub daemon_banner : Process → M D L Done
  daemon_banner p = do
    t ← get λ s. print_nat (server.mysql.time s.conn.mysql)
    let stamp =
        codes "<"
        ++ print_int p.dict_forks
        ++ codes "."
        ++ print_int p.pid
        ++ codes "."
        ++ t
        ++ codes "@"
        ++ p.hostname
        ++ codes ">"
    set_daemon_stamp (take 255 stamp)
    daemon_printf (
        print_nat code_hello
        ++ codes " "
        ++ p.hostname
        ++ codes " stardictd-0.5 <auth> "
        ++ take 255 stamp
        ++ codes " <rsa_public_key> <"
        ++ p.public_key
        ++ codes ">\n")

  -- A connection: `error` is 0, or says that the server is too busy.
  unfoldable pub handleconn : Process → ℕ → Bytes → M D L Done
  handleconn p zero input = do daemon_banner p; serve (suc (length input)) input
  handleconn p (suc zero) input =
      daemon_printf (reply code_temporarily_unavailable (codes "server temporarily unavailable"))
  handleconn p (suc (suc n)) input = give tt
