-- ===== src/Client/Requests.antt =====
-- The server makes of each line of the client the request that the client means
-- (source_codes/stardict-client/src/command.cpp, source_codes/stardictd/src/daemon.cpp).
use stardictd.Base.{
  suc, ◌≤◌, false, List, [], ◌∷◌, ◌++◌, append_assoc, ◌≡◌, refl, some, Bytes, codes, All, length,
}
use stardictd.Base.Int.{pos}
use stardictd.Net.{net_read_line, line_limit}
use stardictd.Command.{arg_escape, args_new, c_str, newline}
use stardictd.Command.RoundTrip.{joined, IsSendable, args_new-arg_escape}
use stardictd.Session.Requests.{Request, parse_request, select_form, clamp}
use stardictd.Session.Requests
use stardictd.Client.{
  Command, client, auth, lookup, previous, next, query, select_query, define, register,
  change_passwd, set_dict_mask, set_collate_func, set_language, set_email, get_dict_mask,
  get_collate_func, get_language, get_email, max_dict_count, get_user_level, from_to, quit,
  dir_info, dict_info, dicts_list, tmp_dictmask, user_level, make_command, salted_sum, sum_if,
  login_key,
}

module _ (md5_hex encrypted : Bytes → Bytes) (daemon_stamp : Bytes) where
  -- The name of a command and the words that go with it.
  abbrev pub words_of : Command → Bytes × List Bytes
  words_of (client protocol name) = (codes "client", protocol ∷ name ∷ [])
  words_of (auth need_md5 user passwd) =
      (codes "auth", user ∷ login_key md5_hex need_md5 passwd daemon_stamp ∷ [])
  words_of (register need_md5 user passwd email) =
      (codes "register", user ∷ encrypted (sum_if md5_hex need_md5 passwd) ∷ email ∷ [])
  words_of (change_passwd need_md5 user old new) = (
    codes "change_password",
    user ∷ encrypted (salted_sum md5_hex old) ∷ encrypted (sum_if md5_hex need_md5 new) ∷ [],
  )
  words_of (lookup word) = (codes "lookup", word ∷ [])
  words_of (previous word) = (codes "previous", word ∷ [])
  words_of (next word) = (codes "next", word ∷ [])
  words_of (query word) = (codes "query", word ∷ [])
  words_of (select_query word) = (codes "selectquery", word ∷ [])
  words_of (define word) = (codes "define", word ∷ [])
  words_of (set_dict_mask dictmask) = (codes "setdictmask", dictmask ∷ [])
  words_of get_dict_mask = (codes "getdictmask", [])
  words_of (set_collate_func func) = (codes "setcollatefunc", func ∷ [])
  words_of get_collate_func = (codes "getcollatefunc", [])
  words_of (set_language lang) = (codes "setlanguage", lang ∷ [])
  words_of get_language = (codes "getlanguage", [])
  words_of (set_email email) = (codes "setemail", email ∷ [])
  words_of get_email = (codes "getemail", [])
  words_of get_user_level = (codes "getuserlevel", [])
  words_of max_dict_count = (codes "maxdictcount", [])
  words_of (dir_info path) = (codes "dirinfo", path ∷ [])
  words_of (dict_info uid) = (codes "dictinfo", uid ∷ [])
  words_of (dicts_list dicts) = (codes "dictslist", dicts ∷ [])
  words_of (user_level user from to) = (codes "userlevel", user ∷ from ∷ to ∷ [])
  words_of from_to = (codes "fromto", [])
  words_of (tmp_dictmask dicts) = (codes "tmpdictmask", dicts ∷ [])
  words_of quit = (codes "quit", [])

  -- What the client means: the counts of words are the server's own.
  abbrev pub meant : Command → Request
  meant (client protocol name) = Requests.client protocol
  meant (auth need_md5 user passwd) =
      Requests.auth user (login_key md5_hex need_md5 passwd daemon_stamp)
  meant (register need_md5 user passwd email) =
      Requests.register user (encrypted (sum_if md5_hex need_md5 passwd)) email
  meant (change_passwd need_md5 user old new) =
      Requests.change_password user (encrypted (salted_sum md5_hex old))
        (encrypted (sum_if md5_hex need_md5 new))
  meant (lookup word) = Requests.lookup word (pos 30)
  meant (previous word) = Requests.previous word (pos 15)
  meant (next word) = Requests.next word (pos 30)
  meant (query word) = Requests.query word
  meant (select_query word) = Requests.selectquery word
  meant (define word) = Requests.define word
  meant (set_dict_mask dictmask) = Requests.setdictmask dictmask
  meant get_dict_mask = Requests.getdictmask
  meant (set_collate_func func) = Requests.setcollatefunc func
  meant get_collate_func = Requests.getcollatefunc
  meant (set_language lang) = Requests.setlanguage lang
  meant get_language = Requests.getlanguage
  meant (set_email email) = Requests.setemail email
  meant get_email = Requests.getemail
  meant get_user_level = Requests.getuserlevel
  meant max_dict_count = Requests.maxdictcount
  meant (dir_info path) = Requests.dirinfo path
  meant (dict_info uid) = Requests.dictinfo uid
  meant (dicts_list dicts) = Requests.dictslist dicts
  meant (user_level user from to) = Requests.userlevel user from to
  meant from_to = Requests.fromto
  meant (tmp_dictmask dicts) = Requests.tmpdictmask dicts
  meant quit = Requests.quit

  parse_words : (c : Command) → parse_request ((words_of c).0 ∷ (words_of c).1) ≡ meant c
  unfolding parse_request select_form
  parse_words (client protocol name) = refl
  parse_words _ = refl

  -- The line without its newline.
  abbrev pub text_of : Command → Bytes
  text_of c = joined (words_of c).0 (words_of c).1

  make_command-joined :
      (c : Command) → make_command md5_hex encrypted daemon_stamp c ≡ text_of c ++ newline ∷ []
  unfolding make_command arg_escape
  make_command-joined (client protocol name) = simp append_assoc
  make_command-joined (auth need_md5 user passwd) = simp append_assoc
  make_command-joined (register need_md5 user passwd email) = simp append_assoc
  make_command-joined (change_passwd need_md5 user old new) = simp append_assoc
  make_command-joined (user_level user from to) = simp append_assoc
  make_command-joined _ = refl

  -- A command whose words hold no zero byte and no carriage return, in a line of at most 10240 bytes,
  -- reaches the server as the request that it means, whatever is sent behind it.
  pub parse_request-make_command :
      (c : Command) (more : Bytes)
      → All (All IsSendable) ((words_of c).0 ∷ (words_of c).1)
      → suc (length (text_of c)) ≤ line_limit
      → (args : List Bytes) × (net_read_line (make_command md5_hex encrypted daemon_stamp c ++ more)
          ≡ (false, text_of c, more))
        × (args_new (c_str (text_of c)) ≡ some args)
        × (parse_request args ≡ meant c)
  parse_request-make_command c more h fits =
      let (read, words) = args_new-arg_escape (words_of c).0 (words_of c).1 more h fits in
      (
        (words_of c).0 ∷ (words_of c).1,
        rw (make_command-joined c, append_assoc) read,
        words,
        parse_words c,
      )
