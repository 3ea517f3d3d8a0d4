-- ===== src/Session/Kept/Words.antt =====
-- Frames of the handlers for words and dictionaries (source_codes/stardictd/src/daemon.cpp).
use stardictd.Base.{Bool, true, false, List, Option, none, some, Bytes}
use stardictd.Compare.{Ordering}
use stardictd.Main.{Main}
use stardictd.Session.{Server, Session, set_auth_user, net_writes}
use stardictd.Session.Frame.{IsFrame, Keeps, Keeps-bind, Keeps-daemon_printf}
use stardictd.Session.Auth.{guest}
use stardictd.Session.Lookups.{
  dir_info, dict_info, answer_dirinfo, answer_dictinfo, become_guest, check_user, check_dictmask,
  send_answer, respond, answer_if_chosen, daemon_client, daemon_dirinfo, daemon_dictinfo,
  daemon_fromto, daemon_dictslist, daemon_LookupinTmpdictmask, daemon_getadinfo, greet,
}
use stardictd.Session.Kept.{steps}
use stardictd.Session.Kept.Settings.{Keeps-dicts_list}

module _ {D L : Type 0} {R : Session D L → Session D L → Type 0} (frame : IsFrame R)
    (server : Server D L) where
  Keeps-dir_info : (path : Bytes) → Keeps R (dir_info server path)
  unfolding dir_info
  Keeps-dir_info path = record { kept = λ s. frame.turns s _ }

  Keeps-dict_info : (uid : Bytes) → Keeps R (dict_info server uid)
  unfolding dict_info
  Keeps-dict_info uid = record { kept = λ s. frame.turns s _ }

  Keeps-send_answer : (f : Main L → List Bytes × L) → Keeps R (send_answer server f)
  unfolding send_answer net_writes
  Keeps-send_answer f = record {
    kept = λ s.
        let (texts, libs) = f s.main in
        let turned = record s { main = record (s.main) { o_libs = libs } } in
        frame.then_ s turned _ (frame.turns s _) (frame.sends turned _);
  }

  pub Keeps-answer_dirinfo : (found : Option Bytes) → Keeps R (answer_dirinfo server found)
  unfolding answer_dirinfo
  Keeps-answer_dirinfo none = search (steps, frame) depth 20
  Keeps-answer_dirinfo (some text) = search (steps, frame) depth 20

  pub Keeps-answer_dictinfo : (found : Option Bytes) → Keeps R (answer_dictinfo server found)
  unfolding answer_dictinfo
  Keeps-answer_dictinfo none = search (steps, frame) depth 20
  Keeps-answer_dictinfo (some text) = search (steps, frame) depth 20

  pub Keeps-daemon_dirinfo : (path : Bytes) → Keeps R (daemon_dirinfo server path)
  unfolding daemon_dirinfo
  Keeps-daemon_dirinfo path = search (steps, frame, Keeps-dir_info, Keeps-answer_dirinfo) depth 20

  pub Keeps-daemon_dictinfo : (uid : Bytes) → Keeps R (daemon_dictinfo server uid)
  unfolding daemon_dictinfo
  Keeps-daemon_dictinfo uid = search (steps, frame, Keeps-dict_info, Keeps-answer_dictinfo) depth 20

  pub Keeps-daemon_fromto : Keeps R (daemon_fromto server)
  unfolding daemon_fromto
  Keeps-daemon_fromto = search (steps, frame) depth 20

  pub Keeps-daemon_dictslist : (dicts : Bytes) → Keeps R (daemon_dictslist server dicts)
  unfolding daemon_dictslist
  Keeps-daemon_dictslist dicts = search (steps, frame, Keeps-dicts_list) depth 20

  pub Keeps-daemon_getadinfo : Keeps R (daemon_getadinfo server)
  unfolding daemon_getadinfo
  Keeps-daemon_getadinfo = search (steps, frame) depth 20

  pub Keeps-greet : (o : Ordering) → Keeps R (greet {D = D} {L = L} o)
  unfolding greet
  Keeps-greet Ordering.lt = search (steps, frame) depth 20
  Keeps-greet Ordering.eq = search (steps, frame) depth 20
  Keeps-greet Ordering.gt = search (steps, frame) depth 20

  pub Keeps-daemon_client : (protocol : Bytes) → Keeps R (daemon_client server protocol)
  unfolding daemon_client
  Keeps-daemon_client protocol = search (steps, frame, Keeps-greet) depth 20

  -- For a frame that lets anyone become a guest.
  module _ (becomes_guest : Keeps R (set_auth_user {D = D} {L = L} guest)) where
    pub Keeps-daemon_LookupinTmpdictmask :
        (dicts : Bytes) → Keeps R (daemon_LookupinTmpdictmask server dicts)
    unfolding daemon_LookupinTmpdictmask
    Keeps-daemon_LookupinTmpdictmask dicts =
        Keeps-bind frame (Keeps-daemon_printf frame _)
          λ _. Keeps-bind frame becomes_guest λ _. search (steps, frame) depth 20

    pub Keeps-become_guest : Keeps R (become_guest server)
    unfolding become_guest
    Keeps-become_guest = Keeps-bind frame becomes_guest λ _. search (steps, frame) depth 20

    pub Keeps-check_user : (b : Bool) → Keeps R (check_user server b)
    unfolding check_user
    Keeps-check_user true = search (steps, frame, Keeps-become_guest) depth 20
    Keeps-check_user false = search (steps, frame, Keeps-become_guest) depth 20

    pub Keeps-check_dictmask : Keeps R (check_dictmask server)
    unfolding check_dictmask
    Keeps-check_dictmask = search (steps, frame, Keeps-check_user) depth 20

    pub Keeps-respond :
        (notset : Bool) (f : (Main L → List Bytes × L)) → Keeps R (respond server notset f)
    unfolding respond
    Keeps-respond true f = search (steps, frame, Keeps-send_answer) depth 20
    Keeps-respond false f = search (steps, frame, Keeps-send_answer) depth 20

    pub Keeps-answer_if_chosen :
        (f : (Main L → List Bytes × L)) → Keeps R (answer_if_chosen server f)
    unfolding answer_if_chosen
    Keeps-answer_if_chosen f = search (steps, frame, Keeps-check_dictmask, Keeps-respond) depth 20
