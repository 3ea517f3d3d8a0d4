-- ===== src/Session/Refused.antt =====
-- What the handlers of source_codes/stardictd/src/daemon.cpp refuse, and what they then leave.
use stardictd.Base.{
  ℕ, [], ◌∷◌, ◌++◌, ◌≡◌, refl, ◌⊎◌, inl, inr, Option, none, some, Bytes, arith, codes,
}
use stardictd.Base.Decimal.{print_nat, put_digits}
use stardictd.Session.{
  Server, Session, ◌>>◌, returns, M, daemon_printf, refuse_if, stop, reply, code_denied,
  code_user_not_register,
}
use stardictd.Session.Requests.{Request}
use stardictd.Session.Dispatch.{execute}
use stardictd.Session.Profile.{
  require_user, daemon_setdictmask, daemon_setcollatefunc, daemon_setlanguage, daemon_setemail,
  daemon_getdictmask, daemon_getcollatefunc, daemon_getlanguage, daemon_getemail,
  daemon_getuserlevel, daemon_maxdictcount,
}

-- The requests about the user's own settings, with the code by which they refuse a stranger.
abbrev pub stranger_code : Request → Option ℕ
stranger_code (Request.setdictmask dictmask) = some code_denied
stranger_code (Request.setcollatefunc func) = some code_denied
stranger_code (Request.setlanguage lang) = some code_denied
stranger_code (Request.setemail email) = some code_denied
stranger_code Request.getdictmask = some code_user_not_register
stranger_code Request.getcollatefunc = some code_denied
stranger_code Request.getlanguage = some code_denied
stranger_code Request.getemail = some code_denied
stranger_code Request.getuserlevel = some code_denied
stranger_code Request.maxdictcount = some code_user_not_register
stranger_code _ = none

module _ {D L : Type 0} (server : Server D L) where
  -- The state behind a refusal: a line is sent, all else is as it was.
  abbrev pub told : Bytes → Session D L → Session D L
  told line s = record s { sent = s.sent ++ line ∷ [] }

  refused :
      {A : Type 0} (k : M D L A) (c code : ℕ) (s : Session D L)
      → (c ≡ code_denied) ⊎ (c ≡ code_user_not_register)
      → some c ≡ some code
      → s.user_id ≡ []
      → (◌>>◌ (require_user c) k) s ≡ returns (told (reply code (codes "unknow user id")) s)
  unfolding require_user refuse_if daemon_printf stop print_nat put_digits
  refused k c code s known h stranger =
      let same : c ≡ code = ground (arith, h) in
      rw (← same) (elim known [ inl e ↦ rw (e, stranger) refl | inr e ↦ rw (e, stranger) refl ])

  -- A session that knows no identity answers each request about the user's settings by a line that
  -- says so, and neither the database nor anything else of the state changes.
  pub execute_stranger :
      (r : Request) (code : ℕ) (s : Session D L)
      → stranger_code r ≡ some code
      → s.user_id ≡ []
      → execute server r s ≡ returns (told (reply code (codes "unknow user id")) s)
  unfolding execute daemon_setdictmask daemon_setcollatefunc daemon_setlanguage daemon_setemail
      daemon_getdictmask daemon_getcollatefunc daemon_getlanguage daemon_getemail
      daemon_getuserlevel daemon_maxdictcount
  execute_stranger (Request.setdictmask dictmask) code s h stranger =
      refused _ code_denied code s (inl refl) h stranger
  execute_stranger (Request.setcollatefunc func) code s h stranger =
      refused _ code_denied code s (inl refl) h stranger
  execute_stranger (Request.setlanguage lang) code s h stranger =
      refused _ code_denied code s (inl refl) h stranger
  execute_stranger (Request.setemail email) code s h stranger =
      refused _ code_denied code s (inl refl) h stranger
  execute_stranger Request.getdictmask code s h stranger =
      refused _ code_user_not_register code s (inr refl) h stranger
  execute_stranger Request.getcollatefunc code s h stranger =
      refused _ code_denied code s (inl refl) h stranger
  execute_stranger Request.getlanguage code s h stranger =
      refused _ code_denied code s (inl refl) h stranger
  execute_stranger Request.getemail code s h stranger =
      refused _ code_denied code s (inl refl) h stranger
  execute_stranger Request.getuserlevel code s h stranger =
      refused _ code_denied code s (inl refl) h stranger
  execute_stranger Request.maxdictcount code s h stranger =
      refused _ code_user_not_register code s (inr refl) h stranger
  execute_stranger _ code s h stranger = absurd (cc h)
