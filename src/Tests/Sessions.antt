-- ===== src/Tests/Sessions.antt =====
-- A session at a small server (source_codes/stardictd/src/daemon.cpp).
use stardictd.Base.{
  ℕ, suc, ◌+◌, [], ◌∷◌, ◌++◌, ◌≡◌, ◌⊎◌, refl, true, false, Bytes, codes, some, none, arith, length,
}
use stardictd.Base.Int.{pos}
use stardictd.Base.Decimal.{print_int, atoi, print_nat, put_digits, read_digits}
use stardictd.Compare.{Ordering}
use stardictd.Conf.{defaults, get_str, get_int}
use stardictd.Db.{Mysql}
use stardictd.Main.{Dictionaries, Answers, set_dict_mask, set_server_collate_func, set_user_level}
use stardictd.Net.{read_on, net_read_line}
use stardictd.Command.{args_on, args_new, c_str}
use stardictd.Session.{
  Server, Session, Outcome, goes, returns, exits, undefined, Done, reply, code_ok, code_denied,
  daemon_printf, set_auth_user, update_main, stop, call, refuse_if, conf_str, conf_int, set_user_id,
  set_level, column, first_row, result_or_refuse, log,
}
use stardictd.Session.Requests.{
  auth, userlevel, setemail, setcollatefunc, parse_request, select_form,
}
use stardictd.Session.Dispatch.{execute, serve, handle_line, handle_words, terminate, daemon_quit}
use stardictd.Session.Auth.{
  root, salted, daemon_auth, auth_root, auth_other, check_key, root_proof, enter, user_proof,
}
use stardictd.Session.Takeover.{Asked, serve-Asked}
use stardictd.Session.Loop.{serve_enough}
use stardictd.Session.Refused.{told, execute_stranger}
use stardictd.Session.Counts.{InRange, parse_request-InRange}
use stardictd.Session.Collates.{IsChosen, execute-setcollatefunc}
use stardictd.Session.Levels.{IsPromoted, execute-userlevel}
use stardictd.Session.Profile.{
  require_user, require_collate, require_enabled, daemon_setcollatefunc,
}
use stardictd.Session.Account.{check_level, daemon_userlevel}
use stardictd.Session.Database.{init_database, connect, quoted, run_query, store_result}
use stardictd.Libs.{local_dict}
use stardictd.Db
use stardictd.Session.Login.{execute-login_key}

-- A database whose every answer is the row of user 7; its state counts the calls.
abbrev mysql : Mysql ℕ
mysql = record {
  mysql_init = λ d. (false, d);
  mysql_real_connect = λ host user passwd db port d. (false, d);
  mysql_real_query = λ sql d. (false, d + 1);
  mysql_store_result =
      λ d. (some ((some (codes "7") ∷ some (codes "sum") ∷ some (codes "2") ∷ []) ∷ []), d);
  mysql_insert_id = λ d. d;
  mysql_real_escape_string = λ d text. text;
  time = λ d. d;
}

abbrev dictionaries : Dictionaries ℕ
dictionaries = record {
  uidmap = λ l. [];
  load_collate_file = λ mask func l. l;
  get_dir_info = λ path l. (none, l);
  get_fromto_info = λ l. [];
  get_dict_info = λ uid short l. (none, l);
  get_dicts_list = λ dicts max level l. ([], l);
}

abbrev answers : Answers ℕ
answers = record {
  lookup = λ word n m. ([], m.o_libs);
  query = λ word m. ([], m.o_libs);
  selectquery = λ word m. ([], m.o_libs);
  smartquery = λ word n m. ([], m.o_libs);
  define = λ word m. ([], m.o_libs);
  previous = λ word n m. ([], m.o_libs);
  next = λ word n m. ([], m.o_libs);
}

-- The sum of a text is the text behind a mark.
abbrev marked : Bytes → Bytes
marked text = b'#' ∷ text

abbrev server : Server ℕ ℕ
server = record {
  mysql = mysql;
  md5_hex = marked;
  decrypted = λ text. text;
  compare_version = λ text. Ordering.eq;
  dictionaries = dictionaries;
  answers = answers;
}

abbrev stranger : Session ℕ ℕ
stranger = record {
  daemon_stamp = codes "<1>";
  auth_user = [];
  user_id = [];
  level = pos 0;
  conf = record defaults { str_map = (codes "root-user/password", codes "pw") ∷ [] };
  conn = record { inited = true; mysql = 0 };
  main = record {
    o_libs = 0;
    query_dictmask = [];
    scan_dictmask = [];
    servercollatefunc = pos 0;
    user_lang = [];
    user_level = pos 0;
  };
  sent = [];
  logged = [];
}

abbrev key : Bytes
key = marked (codes "<1>" ++ marked (salted (codes "pw")))

abbrev login : Bytes
login = codes "auth root " ++ key ++ 10 ∷ codes "quit" ++ 10 ∷ []

-- The state in which a connection ends.
abbrev last_state : Outcome (Session ℕ ℕ) Done → Session ℕ ℕ
last_state (goes a s) = s
last_state (returns s) = s
last_state (exits s) = s
last_state undefined = stranger

serve-Asked_example : (stranger.auth_user ≡ root) ⊎ Asked server stranger 60 login
unfolding serve handle_line handle_words execute parse_request select_form daemon_auth auth_root
    root_proof check_key enter refuse_if conf_str get_str set_auth_user update_main set_dict_mask
    daemon_printf stop call print_nat put_digits terminate net_read_line read_on args_new args_on
    c_str daemon_quit
serve-Asked_example =
    serve-Asked server 60 login stranger (last_state (serve server 60 login stranger)) refl refl

serve_enough_example :
    serve server 200 login stranger ≡ serve server (suc (length login)) login stranger
serve_enough_example =
    serve_enough server 200 (suc (length login)) login stranger (omega arith) (omega arith)

execute_stranger_example :
    execute server (setemail (codes "a@b")) stranger
    ≡ returns (told server (reply code_denied (codes "unknow user id")) stranger)
execute_stranger_example =
    execute_stranger server (setemail (codes "a@b")) code_denied stranger refl refl

-- A server whose database has level 2 for everybody.
abbrev level_server : Server ℕ ℕ
level_server = record server {
  mysql = record mysql { mysql_store_result = λ d. (some ((some (codes "2") ∷ []) ∷ []), d) };
}

abbrev root_session : Session ℕ ℕ
root_session = record stranger { auth_user = root }

abbrev promoted : Session ℕ ℕ
promoted =
    last_state (execute level_server (userlevel (codes "ann") (codes "2") (codes "5")) root_session)

execute-userlevel_example :
    IsPromoted level_server (codes "ann") (codes "2") (codes "5") root_session promoted
unfolding execute daemon_userlevel refuse_if atoi read_digits init_database connect conf_str
    conf_int get_str get_int Db.init Db.escape_string quoted c_str check_level run_query Db.query
    store_result Db.get_result result_or_refuse first_row column log daemon_printf print_nat
    put_digits print_int stop
execute-userlevel_example =
    execute-userlevel level_server (codes "ann") (codes "2") (codes "5") root_session tt promoted
      refl

parse_request-InRange_example :
    InRange (parse_request (codes "lookup" ∷ codes "word" ∷ codes "1000" ∷ []))
parse_request-InRange_example =
    parse_request-InRange (codes "lookup" ∷ codes "word" ∷ codes "1000" ∷ [])

abbrev ann : Session ℕ ℕ
ann = record stranger { user_id = codes "7"; level = pos 2 }

abbrev collated : Session ℕ ℕ
collated = last_state (execute server (setcollatefunc (codes "21")) ann)

execute-setcollatefunc_example : IsChosen server (codes "21") ann collated
unfolding execute daemon_setcollatefunc require_user require_collate require_enabled refuse_if atoi
    read_digits init_database connect conf_str conf_int get_str get_int Db.init run_query Db.query
    update_main set_server_collate_func daemon_printf print_nat put_digits print_int stop
execute-setcollatefunc_example = execute-setcollatefunc server (codes "21") ann tt collated refl

abbrev ann_key : Bytes
ann_key = marked (codes "<1>" ++ codes "sum")

abbrev ann_in : Session ℕ ℕ
ann_in = last_state (execute server (auth (codes "ann") ann_key) stranger)

-- A login that is denied leaves the identity of the user that it named.
denied_identity :
    (last_state (execute server (auth (codes "ann") (codes "wrong")) stranger)).user_id ≡ codes "7"
unfolding execute daemon_auth auth_other user_proof check_key set_user_id set_level set_user_level
    refuse_if atoi read_digits init_database connect conf_str conf_int get_str get_int Db.init
    Db.escape_string quoted c_str run_query Db.query store_result Db.get_result result_or_refuse
    first_row column update_main daemon_printf print_nat put_digits stop
denied_identity = refl

-- A session that has chosen dictionaries.
abbrev chooser : Session ℕ ℕ
chooser = record stranger {
  main = record (stranger.main) {
    query_dictmask = record { type_of = local_dict; index = 3 } ∷ [];
    scan_dictmask = record { type_of = local_dict; index = 3 } ∷ [];
  };
}

execute-login_key_example :
    execute server (auth root key) chooser
    ≡ goes tt
        (record stranger { auth_user = root; sent = reply code_ok (codes "authenticated") ∷ [] })
unfolding get_str
execute-login_key_example = execute-login_key server chooser (ground arith)
