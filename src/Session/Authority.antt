-- ===== src/Session/Authority.antt =====
-- Who may become root (source_codes/stardictd/src/daemon.cpp): the user `root` changes passwords and
-- levels, so a session must not reach it but by the key of the root password.
pub mod Keys
pub mod Handlers
use stardictd.Base.{
  Bool, true, false, List, [], ◌∷◌, ◌++◌, ◌≡◌, ◌≢◌, ◌⊎◌, inl, inr, refl, ◌∙◌, Bytes, arith,
  Bool-cases, eqb, eqb_iff, codes, if◌then◌else◌,
}
use stardictd.Base.Decimal.{print_nat, put_digits}
use stardictd.Conf.{Conf, get_str, get_int, get_bool}
use stardictd.Conf.Values.{find-put}
use stardictd.Session.{
  Server, Session, returns, set_auth_user, daemon_printf, refuse_if, conf_str, stop, reply,
  code_denied,
}
use stardictd.Session.Requests.{
  Request, no_command, unknown_command, quit, client, auth, lookup, previous, next, query,
  selectquery, define, smartquery, register, change_password, setdictmask, setcollatefunc,
  setlanguage, setemail, getdictmask, getcollatefunc, getlanguage, getemail, getuserlevel,
  maxdictcount, dirinfo, dictinfo, dictslist, tmpdictmask, userlevel, fromto, getadinfo,
}
use stardictd.Session.Dispatch.{execute, daemon_quit, terminate}
use stardictd.Session.Auth.{
  root, guest, salted, daemon_auth, auth_root, auth_other, auth_guest, check_key, root_proof,
}
use stardictd.Session.Frame.{
  After, Keeps, IsFrame, Keeps-bind, Keeps-refuse_if, Keeps-daemon_printf,
}
use stardictd.Session.Kept
use stardictd.Main.{Main}
use stardictd.Session.Lookups.{
  answer_if_chosen, daemon_lookup, daemon_previous, daemon_next, daemon_query, daemon_selectquery,
  daemon_define, daemon_smartquery,
}

-- Reading a setting changes no setting.
pub get_str_again : (c : Conf) (k q : Bytes) → (get_str (get_str c k).0 q).1 ≡ (get_str c q).1
unfolding get_str
get_str_again c k q = ground (arith, find-put k q [] c.str_map, eqb_iff k q)

module _ {D L : Type 0} where
  abbrev pub value : Session D L → Bytes → Bytes
  value s key = (get_str s.conf key).1

  -- The process is the same, its texts in the settings are, and nobody has become root.
  abbrev pub NoNewRoot : Session D L → Session D L → Type 0
  NoNewRoot s s' =
      (s'.daemon_stamp ≡ s.daemon_stamp)
      × ((key : Bytes) → value s' key ≡ value s key)
      × ((s'.auth_user ≡ root) → s.auth_user ≡ root)

  pub same-NoNewRoot : (s : Session D L) → NoNewRoot s s
  same-NoNewRoot s = (refl, λ key. refl, λ h. h)

  pub NoNewRoot-IsFrame : IsFrame NoNewRoot
  unfolding get_int get_bool get_str
  NoNewRoot-IsFrame = record {
    same = same-NoNewRoot;
    then_ = λ a b c (stamp, values, root') (stamp', values', root'').
        (stamp' ∙ stamp, λ key. values' key ∙ values key, λ h. root' (root'' h));
    sends = λ s t. same-NoNewRoot s;
    logs = λ s t. same-NoNewRoot s;
    asks = λ s c. same-NoNewRoot s;
    turns = λ s m. same-NoNewRoot s;
    names = λ s id. same-NoNewRoot s;
    ranks = λ s n. same-NoNewRoot s;
    reads_str = λ s k. (refl, λ key. get_str_again s.conf k key, λ h. h);
    reads_int = λ s k. same-NoNewRoot s;
    reads_bool = λ s k. same-NoNewRoot s;
  }

  pub becomes : (user : Bytes) → user ≢ root → Keeps NoNewRoot (set_auth_user {D = D} {L = L} user)
  unfolding set_auth_user
  becomes user other = record { kept = λ s. (refl, λ key. refl, λ h. absurd (other h)) }

module _ {D L : Type 0} (server : Server D L) where
  -- The key that belongs to the root password, which is not empty.
  pub record IsRootKey (s : Session D L) (key : Bytes) : Type 0 where
    pub password_set : value s (codes "root-user/password") ≢ []
    pub key_matches :
        key
        ≡ server.md5_hex
            (s.daemon_stamp ++ server.md5_hex (salted (value s (codes "root-user/password"))))

  -- The request proves that its sender knows the root password.
  abbrev pub ProvesRoot : Session D L → Request → Type 0
  ProvesRoot s (auth user key) = (user ≡ root) × IsRootKey s key
  ProvesRoot s _ = ⊥
